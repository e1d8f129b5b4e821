-- ===== src/Tests/Schema.antt =====
-- src/constrain.rs, `GuideState` and `JsonConstraint`: the theorems at a schema for an object with a required
-- string under the key "a".
use oxydllm.Base.{ℕ, zero, suc, ◌≡◌, [], ◌∷◌, some, none, subst, true, false, arith, get_elem?}
use oxydllm.Constrain.Machine.{object}
use oxydllm.Constrain.Schema.{SchemaNode, any_value, string_value, object_of, Arena}
use oxydllm.Constrain.Events.{Events}
use oxydllm.Constrain.Guide.{new_guide, on_byte}
use oxydllm.Constrain.Guide.Ok.{ArenaOk, NodeOk, Safe, new_guide-Ok}
use oxydllm.Constrain.Guide.Safe.{on_byte-Safe}
use oxydllm.Constrain.Token.{TokenByteTable, new_constraint}
use oxydllm.Constrain.Token.Allowed.{Agrees, new_constraint-Ok, allowed-Agrees}

abbrev arena : Arena
arena = any_value ∷ string_value ∷ object_of ((b'a' ∷ [], 1) ∷ []) (true ∷ []) false ∷ []

node-Ok : (i : ℕ) (n : SchemaNode) → get_elem? arena i ≡ some n → NodeOk 3 n
node-Ok zero n e = let same : any_value ≡ n = cc in subst (NodeOk 3) same tt
node-Ok (suc zero) n e = let same : string_value ≡ n = cc in subst (NodeOk 3) same tt
node-Ok (suc (suc zero)) n e =
    let same : object_of ((b'a' ∷ [], 1) ∷ []) (true ∷ []) false ≡ n = cc in
    subst (NodeOk 3) same (omega arith, tt)
node-Ok (suc (suc (suc i))) n e = absurd cc

arena-Ok : ArenaOk arena
arena-Ok = (omega arith, node-Ok)

-- What the automaton says of the first brace.
abbrev brace : Events
brace = record {
  value_start = true;
  scalar_end = false;
  object_open = true;
  object_close = false;
  array_open = false;
  array_close = false;
  key_start = false;
  key_end = false;
  object_comma = false;
}

on_byte-Safe_example : Safe arena (on_byte arena 2 b'{' brace false new_guide)
on_byte-Safe_example =
    on_byte-Safe arena arena-Ok 2 (omega arith) b'{' brace false new_guide
      (new_guide-Ok arena arena-Ok)

-- Five tokens: one without text, an opening, the key with its colon, a string and the end; token 5 stops.
abbrev pub table : TokenByteTable
table = record {
  bytes =
      none
      ∷ some (b'{' ∷ [])
      ∷ some (b'"' ∷ b'a' ∷ b'"' ∷ b':' ∷ [])
      ∷ some (b'"' ∷ b'x' ∷ b'"' ∷ [])
      ∷ some (b'}' ∷ [])
      ∷ [];
  stop_ids = 5 ∷ [];
}

allowed-Agrees_example :
    Agrees (new_constraint table object arena) (new_constraint-Ok table object arena arena-Ok) 6 1
allowed-Agrees_example =
    allowed-Agrees (new_constraint table object arena)
      (new_constraint-Ok table object arena arena-Ok) 6 1
