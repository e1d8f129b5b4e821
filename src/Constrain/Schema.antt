-- ===== src/Constrain/Schema.antt =====
-- src/constrain.rs, `SchemaNode` and `SchemaArena`: a schema as a table of nodes that name one another by index.
-- A `u64` bitmask is the list of its bits, the lowest first; a bit past the end is 0.
use oxydllm.Base.{
  ℕ, zero, suc, ◌-◌, Bool, true, false, not, ◌&&◌, ◌||◌, List, [], ◌∷◌, Option, length, get_elem?,
  ◌%◌, ◌^◌,
}

-- A mask whose bit `i` is set where `p` holds of the `i`-th element.
abbrev pub Mask : Type 0
Mask = List Bool

unfoldable pub has : Mask → ℕ → Bool
has [] i = false
has (b ∷ m) zero = b
has (b ∷ m) (suc i) = has m i

unfoldable pub with_bit : Mask → ℕ → Mask
with_bit [] zero = true ∷ []
with_bit [] (suc i) = false ∷ with_bit [] i
with_bit (b ∷ m) zero = true ∷ m
with_bit (b ∷ m) (suc i) = b ∷ with_bit m i

-- `mask == 0`.
unfoldable pub is_zero : Mask → Bool
is_zero [] = true
is_zero (b ∷ m) = not b && is_zero m

-- `emitted & required == required`.
unfoldable pub covers : Mask → Mask → Bool
unfolding is_zero
covers emitted [] = true
covers [] (r ∷ required) = not r && is_zero required
covers (e ∷ emitted) (r ∷ required) = (e || not r) && covers emitted required

pub data SchemaNode : Type 0 where
  any_value : SchemaNode
  object_of : List (List ℕ × ℕ) → Mask → Bool → SchemaNode
  array_of : ℕ → SchemaNode
  string_value : SchemaNode
  number_value : Bool → SchemaNode
  boolean_value null_value : SchemaNode
  enum_of : List (List ℕ) → SchemaNode

abbrev pub Arena : Type 0
Arena = List SchemaNode

abbrev pub any_id : ℕ
any_id = 0

unfoldable pub unconstrained : Arena
unconstrained = any_value ∷ []

-- `(self.nodes.len() - 1) as NodeId`; an arena is never empty.
unfoldable pub root : Arena → ℕ
root arena = (length arena - 1) % 2 ^ 16

-- `&self.nodes[id]`, with its panic.
abbrev pub node : Arena → ℕ → Option SchemaNode
node arena id = get_elem? arena id
