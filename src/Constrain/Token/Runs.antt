-- ===== src/Constrain/Token/Runs.antt =====
-- src/constrain.rs: a constraint over a compiled schema, advanced by tokens.
use oxydllm.Base.{ℕ, ◌≡◌, refl, List, [], ◌∷◌, Option, some, ◌>>=◌}
use oxydllm.Constrain.Machine.{JsonMode}
use oxydllm.Constrain.Schema.{Arena}
use oxydllm.Constrain.Compile.{JsonValue, compile}
use oxydllm.Constrain.Compile.Arenas.{compile-ArenaOk}
use oxydllm.Constrain.Token.{TokenByteTable, JsonConstraint, new_constraint, advance}
use oxydllm.Constrain.Token.Allowed.{ConstraintOk, new_constraint-Ok, allowed-Agrees}

abbrev pub advance_all : List ℕ → JsonConstraint → Option JsonConstraint
advance_all [] c = some c
advance_all (token ∷ tokens) c = do c' ← advance token c; advance_all tokens c'

advance_all-Ok :
    (tokens : List ℕ) (c : JsonConstraint)
    → ConstraintOk c
    → (c' : JsonConstraint) × (advance_all tokens c ≡ some c') × ConstraintOk c'
advance_all-Ok [] c v = (c, refl, v)
advance_all-Ok (token ∷ tokens) c v =
    let a = allowed-Agrees c v 0 token in
    let (c', e, w) = advance_all-Ok tokens a.after a.after_ok in (c', rw a.stepped e, w)

-- From any schema, whatever the crate says of its values, and whatever the token table and the mode: a constraint
-- is made, and no sequence of tokens, refused ones and stop tokens included, makes it panic or breaks its guide.
pub compile-advance_all :
    (J : JsonValue) (schema : J.Value) (table : TokenByteTable) (mode : JsonMode) (tokens : List ℕ)
    → (arena : Arena) × (c : JsonConstraint) × (compile J schema ≡ some arena)
      × (advance_all tokens (new_constraint table mode arena) ≡ some c)
      × ConstraintOk c
compile-advance_all J schema table mode tokens =
    let (arena, e, ok) = compile-ArenaOk J schema in
    let (c, f, v) =
      advance_all-Ok tokens (new_constraint table mode arena)
        (new_constraint-Ok table mode arena ok) in
    (arena, c, e, f, v)
