-- ===== src/Tests/Compile.antt =====
-- src/constrain.rs, `compile`: the theorem at a small reading of JSON and a schema that refers to itself.
use oxydllm.Base.{ℕ, ◌≡◌, false, List, [], ◌∷◌, Option, none, some, if◌then◌else◌}
use oxydllm.Constrain.Keys.{
  key_type, key_ref, key_properties, key_required, key_items, type_object, type_array, defs_prefix,
}
use oxydllm.Constrain.Schema.{Arena}
use oxydllm.Constrain.Guide.Ok.{ArenaOk}
use oxydllm.Constrain.Compile.{JsonValue, compile}
use oxydllm.Base.{same_bytes}
use oxydllm.Constrain.Compile.Arenas.{compile-ArenaOk}
use oxydllm.Constrain.Machine.{object}
use oxydllm.Constrain.Token.{JsonConstraint, new_constraint}
use oxydllm.Constrain.Token.Allowed.{ConstraintOk}
use oxydllm.Constrain.Token.Runs.{advance_all, compile-advance_all}
use oxydllm.Tests.Schema.{table}

mutual
  data Json : Type 0 where
    no_json : Json
    text : List ℕ → Json
    items : Values → Json
    members : Members → Json

  data Values : Type 0 where
    last : Values
    more : Json → Values → Values

  data Members : Type 0 where
    end : Members
    member : List ℕ → Json → Members → Members

abbrev find : List ℕ → Members → Option Json
find key end = none
find key (member name v rest) = if same_bytes key name then some v else find key rest

abbrev listed_members : Members → List (List ℕ × Json)
listed_members end = []
listed_members (member name v rest) = (name, v) ∷ listed_members rest

abbrev listed_values : Values → List Json
listed_values last = []
listed_values (more v rest) = v ∷ listed_values rest

abbrev get : List ℕ → Json → Option Json
get key (members ms) = find key ms
get key _ = none

abbrev entries : Json → Option (List (List ℕ × Json))
entries (members ms) = some (listed_members ms)
entries _ = none

abbrev as_array : Json → Option (List Json)
as_array (items vs) = some (listed_values vs)
as_array _ = none

abbrev as_str : Json → Option (List ℕ)
as_str (text bytes) = some bytes
as_str _ = none

abbrev json : JsonValue
json = record {
  Value = Json;
  get = get;
  entries = entries;
  as_array = as_array;
  as_str = as_str;
  to_vec = as_str;
  is_false = λ v. false;
}

-- A tree: an object whose property "a", which is required, is an array of trees.
abbrev tree : Json
tree = members (
    member key_type (text type_object) (
      member key_properties
        (members (
          member (b'a' ∷ [])
            (members (
              member key_type (text type_array)
                (member key_items (members (member key_ref (text (defs_prefix)) end)) end)))
            end))
        (member key_required (items (more (text (b'a' ∷ [])) last)) end)))

compile-ArenaOk_example : (arena : Arena) × (compile json tree ≡ some arena) × ArenaOk arena
compile-ArenaOk_example = compile-ArenaOk json tree

compile-advance_all_example :
    (arena : Arena) × (c : JsonConstraint) × (compile json tree ≡ some arena)
    × (advance_all (1 ∷ 0 ∷ 2 ∷ []) (new_constraint table object arena) ≡ some c)
    × ConstraintOk c
compile-advance_all_example = compile-advance_all json tree table object (1 ∷ 0 ∷ 2 ∷ [])
