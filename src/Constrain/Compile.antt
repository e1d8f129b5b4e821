-- ===== src/Constrain/Compile.antt =====
-- src/constrain.rs, `SchemaArena::compile`: a JSON Schema read into nodes. The JSON value is another crate's
-- (serde_json) and a parameter: what the code asks of a value.
pub mod Arenas
use oxydllm.Base.{
  same_bytes, ℕ, zero, suc, ◌+◌, ◌-◌, ◌%◌, ◌^◌, ◌≡◌, Bool, true, false, not, ◌&&◌, ◌||◌, List, [],
  ◌∷◌, ◌++◌, Option, none, some, ltb, ◌==◌, if◌then◌else◌, ◌>>=◌, length,
}
use oxydllm.Constrain.Keys.{
  key_type, key_enum, key_ref, key_any_of, key_one_of, key_all_of, key_properties, key_required,
  key_additional, key_items, key_defs, key_definitions, defs_prefix, definitions_prefix,
  type_object, type_array, type_string, type_number, type_integer, type_boolean, type_null,
}
use oxydllm.Constrain.Schema.{
  Mask, with_bit, SchemaNode, any_value, object_of, array_of, string_value, number_value,
  boolean_value, null_value, enum_of, Arena, any_id, unconstrained, node,
}

-- `get` is none where the value is no object or lacks the key; `entries` lists an object's members; `to_vec` is the
-- value's text.
pub record JsonValue : Type 1 where
  pub Value : Type 0
  pub get : List ℕ → Value → Option Value
  pub entries : Value → Option (List (List ℕ × Value))
  pub as_array : Value → Option (List Value)
  pub as_str : Value → Option (List ℕ)
  pub to_vec : Value → Option (List ℕ)
  pub is_false : Value → Bool

unfoldable pub is_some {ℓ} : {A : Type ℓ} → Option A → Bool
is_some none = false
is_some (some a) = true

unfoldable pub strip_prefix : List ℕ → List ℕ → Option (List ℕ)
strip_prefix [] text = some text
strip_prefix (p ∷ prefix) [] = none
strip_prefix (p ∷ prefix) (c ∷ text) = if p == c then strip_prefix prefix text else none

-- `props.iter().position(..)`, counted from `i`.
unfoldable pub position_from : ℕ → List ℕ → List (List ℕ × ℕ) → Option ℕ
unfolding same_bytes
position_from i name [] = none
position_from i name (p ∷ props) =
    let rest = position_from (i + 1) name props in if same_bytes p.0 name then some i else rest

-- A node is pushed; its id is a `u16`.
unfoldable pub push_node : SchemaNode → Arena → ℕ × Arena
push_node n arena = (length arena % 2 ^ 16, arena ++ n ∷ [])

abbrev pub schema_depth : ℕ
schema_depth = 32

module _ (J : JsonValue) where
  -- `obj.get(key).and_then(|v| v.as_str())`.
  abbrev pub str_at : List ℕ → J.Value → Option (List ℕ)
  str_at key v = do x ← J.get key v; J.as_str x

  abbrev pub array_at : List ℕ → J.Value → Option (List J.Value)
  array_at key v = do x ← J.get key v; J.as_array x

  unfoldable pub ref_under : List ℕ → List ℕ → J.Value → List ℕ → Option J.Value
  unfolding strip_prefix
  ref_under prefix key root r = do name ← strip_prefix prefix r; d ← J.get key root; J.get name d

  unfoldable pub ref_target : J.Value → List ℕ → Option J.Value
  unfolding ref_under
  ref_target root r = elim (ref_under defs_prefix key_defs root r) [
    | some t ↦ some t
    | none ↦ ref_under definitions_prefix key_definitions root r
  ]

  -- The texts of an enum's values; none where one is no scalar.
  unfoldable pub literals_of : List J.Value → Option (List (List ℕ))
  unfolding is_some
  literals_of [] = some []
  literals_of (v ∷ values) =
      let rest = literals_of values in
      if is_some (J.entries v) || is_some (J.as_array v)
      then none
      else (do bytes ← J.to_vec v; literals ← rest; some (bytes ∷ literals))

  unfoldable pub push_enum : Option (List (List ℕ)) → Arena → ℕ × Arena
  unfolding push_node
  push_enum none arena = (any_id, arena)
  push_enum (some literals) arena = push_node (enum_of literals) arena

  unfoldable pub compile_enum : List J.Value → Arena → ℕ × Arena
  unfolding literals_of push_enum
  compile_enum values arena =
      if length values == 0 || ltb 64 (length values)
      then (any_id, arena)
      else push_enum (literals_of values) arena

  -- The bits of the required properties; none where one is no string or no property.
  unfoldable pub required_mask : List J.Value → List (List ℕ × ℕ) → Mask → Option Mask
  unfolding position_from with_bit
  required_mask [] props mask = some mask
  required_mask (r ∷ req) props mask = do
    name ← J.as_str r
    i ← position_from 0 name props
    required_mask req props (with_bit mask i)

  unfoldable pub required_of : J.Value → List (List ℕ × ℕ) → Option Mask
  unfolding required_mask
  required_of schema props = elim (array_at key_required schema) [
    | none ↦ some []
    | some req ↦ required_mask req props []
  ]

  unfoldable pub additional_of : J.Value → Bool
  additional_of schema = elim (J.get key_additional schema) [
    | none ↦ true
    | some v ↦ not (J.is_false v)
  ]

  unfoldable pub push_object : List (List ℕ × ℕ) → Bool → Option Mask → Arena → ℕ × Arena
  unfolding push_node
  push_object props additional none arena = (any_id, arena)
  push_object props additional (some required) arena =
      push_node (object_of props required additional) arena

  -- `obj.get("properties").and_then(|v| v.as_object())`.
  abbrev pub object_members : J.Value → Option (List (List ℕ × J.Value))
  object_members schema = do p ← J.get key_properties schema; J.entries p

  -- What `compile_node` does, with its recursive calls as `recur`.
  module _ (recur : J.Value → Arena → ℕ × Arena) where
    unfoldable pub compile_props : List (List ℕ × J.Value) → Arena → List (List ℕ × ℕ) × Arena
    compile_props [] arena = ([], arena)
    compile_props (m ∷ members) arena =
        let r = recur m.1 arena in let s = compile_props members r.1 in ((m.0, r.0) ∷ s.0, s.1)

    unfoldable pub compile_members : J.Value → List (List ℕ × J.Value) → Arena → ℕ × Arena
    unfolding compile_props required_of additional_of push_object
    compile_members schema members arena =
        if ltb 64 (length members)
        then (any_id, arena)
        else (let r = compile_props members arena in
            push_object r.0 (additional_of schema) (required_of schema r.0) r.1)

    unfoldable pub compile_object : J.Value → Arena → ℕ × Arena
    unfolding compile_members
    compile_object schema arena = elim (object_members schema) [
      | none ↦ compile_members schema [] arena
      | some members ↦ compile_members schema members arena
    ]

    unfoldable pub compile_array : Option J.Value → Arena → ℕ × Arena
    unfolding push_node
    compile_array none arena = push_node (array_of any_id) arena
    compile_array (some items) arena = let r = recur items arena in push_node (array_of r.0) r.1

    unfoldable pub compile_typed : List ℕ → J.Value → Arena → ℕ × Arena
    unfolding compile_object compile_array push_node same_bytes
    compile_typed ty schema arena =
        if same_bytes ty type_object
        then compile_object schema arena
        else if same_bytes ty type_array
        then compile_array (J.get key_items schema) arena
        else if same_bytes ty type_string
        then push_node string_value arena
        else if same_bytes ty type_number
        then push_node (number_value false) arena
        else if same_bytes ty type_integer
        then push_node (number_value true) arena
        else if same_bytes ty type_boolean
        then push_node boolean_value arena
        else if same_bytes ty type_null
        then push_node null_value arena
        else (any_id, arena)

    -- A schema without a type is an object's where it has properties.
    unfoldable pub compile_plain : Option (List ℕ) → J.Value → Arena → ℕ × Arena
    unfolding compile_object compile_typed is_some
    compile_plain none schema arena =
        if is_some (J.get key_properties schema)
        then compile_object schema arena
        else (any_id, arena)
    compile_plain (some ty) schema arena = compile_typed ty schema arena

    unfoldable pub compile_keyed : Option (List J.Value) → J.Value → Arena → ℕ × Arena
    unfolding compile_enum compile_plain is_some
    compile_keyed (some values) schema arena = compile_enum values arena
    compile_keyed none schema arena =
        if is_some (J.get key_any_of schema)
          || is_some (J.get key_one_of schema)
          || is_some (J.get key_all_of schema)
        then (any_id, arena)
        else compile_plain (str_at key_type schema) schema arena

    unfoldable pub compile_ref : Option J.Value → Arena → ℕ × Arena
    compile_ref none arena = (any_id, arena)
    compile_ref (some target) arena = recur target arena

    unfoldable pub compile_at : J.Value → J.Value → Arena → ℕ × Arena
    unfolding compile_keyed compile_ref ref_target is_some
    compile_at root schema arena =
        if is_some (J.entries schema)
        then elim (str_at key_ref schema) [
          | some r ↦ compile_ref (ref_target root r) arena
          | none ↦ compile_keyed (array_at key_enum schema) schema arena
        ]
        else (any_id, arena)

  -- `compile_node`, on the depths that are left.
  unfoldable pub compile_node : ℕ → J.Value → J.Value → Arena → ℕ × Arena
  unfolding compile_at
  compile_node zero root schema arena = (any_id, arena)
  compile_node (suc depths) root schema arena =
      compile_at (λ v a. compile_node depths root v a) root schema arena

  -- The root comes last; `none` is the panic of `unreachable!`.
  unfoldable pub last_root : ℕ → Arena → Option Arena
  last_root id arena =
      if id == (length arena % 2 ^ 16 + (2 ^ 16 - 1)) % 2 ^ 16
      then some arena
      else elim (node arena id) [ some any_value ↦ some (arena ++ any_value ∷ []) | _ ↦ none ]

  unfoldable pub compile : J.Value → Option Arena
  unfolding compile_node last_root unconstrained
  compile schema =
      let r = compile_node (schema_depth + 1) schema schema unconstrained in last_root r.0 r.1
