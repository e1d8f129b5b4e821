-- ===== src/Constrain/Compile/Arenas.antt =====
-- src/constrain.rs, `compile`: whatever the schema, the nodes name nodes of the arena.
use oxydllm.Base.{
  same_bytes, ℕ, zero, suc, ◌+◌, ◌-◌, ◌%◌, ◌^◌, ◌≤◌, ◌<◌, ◌≡◌, ◌⊎◌, inl, inr, refl, ap, ◌∙◌, subst,
  Bool, true, false, ◌||◌, List, [], ◌∷◌, ◌++◌, Option, none, some, ltb, ◌==◌, if◌then◌else◌,
  length, get_elem?, length-append, arith, Bool-cases, Option-cases,
}
use oxydllm.Constrain.Schema.{
  Mask, SchemaNode, any_value, object_of, array_of, string_value, number_value, boolean_value,
  null_value, enum_of, Arena, any_id, unconstrained, node,
}
use oxydllm.Constrain.Guide.Ok.{IdsBelow, NodeOk, ArenaOk}
use oxydllm.Constrain.Keys.{
  key_ref, key_type, key_enum, key_items, key_properties, key_any_of, key_one_of, key_all_of,
  type_object, type_array, type_string, type_number, type_integer, type_boolean, type_null,
}
use oxydllm.Constrain.Compile.{
  JsonValue, push_node, push_enum, compile_enum, push_object, compile_props, compile_members,
  compile_object, compile_array, compile_typed, compile_plain, compile_keyed, compile_ref,
  compile_at, compile_node, last_root, compile, schema_depth, object_members, is_some, str_at,
  ref_target, array_at, literals_of, required_of, additional_of,
}

IdsBelow-le : (m n : ℕ) (props : List (List ℕ × ℕ)) → m ≤ n → IdsBelow m props → IdsBelow n props
IdsBelow-le m n [] h v = tt
IdsBelow-le m n (p ∷ props) h v = (omega (arith, v.0), IdsBelow-le m n props h v.1)

NodeOk-le : (m n : ℕ) (x : SchemaNode) → m ≤ n → NodeOk m x → NodeOk n x
NodeOk-le m n any_value h v = tt
NodeOk-le m n (object_of props required additional) h v = IdsBelow-le m n props h v
NodeOk-le m n (array_of items) h v = omega arith
NodeOk-le m n string_value h v = tt
NodeOk-le m n (number_value integer) h v = tt
NodeOk-le m n boolean_value h v = tt
NodeOk-le m n null_value h v = tt
NodeOk-le m n (enum_of literals) h v = tt

-- An arena whose nodes name its nodes and whose first node is `Any`.
record Fine (arena : Arena) : Type 0 where
  ok : ArenaOk arena
  first : node arena any_id ≡ some any_value

-- A node was compiled: its id is in the arena, and is 0 or the last one's.
record Compiled (arena : Arena) (r : ℕ × Arena) : Type 0 where
  fine : Fine r.1
  below : r.0 < length r.1
  longer : length arena ≤ length r.1
  last : (r.0 ≡ 0) ⊎ (r.0 ≡ (length r.1 - 1) % 2 ^ 16)

get_elem?-snoc :
    (arena : Arena) (x : SchemaNode) (i : ℕ) (n : SchemaNode)
    → node (arena ++ x ∷ []) i ≡ some n
    → (node arena i ≡ some n) ⊎ (x ≡ n)
get_elem?-snoc [] x zero n e = inr cc
get_elem?-snoc [] x (suc i) n e = absurd cc
get_elem?-snoc (y ∷ arena) x zero n e = inl e
get_elem?-snoc (y ∷ arena) x (suc i) n e = get_elem?-snoc arena x i n e

first-snoc :
    (arena : Arena) (x : SchemaNode)
    → node arena any_id ≡ some any_value
    → node (arena ++ x ∷ []) any_id ≡ some any_value
first-snoc [] x e = absurd cc
first-snoc (y ∷ arena) x e = e

snoc-Fine :
    (arena : Arena) (x : SchemaNode) → Fine arena → NodeOk (length arena) x → Fine (arena ++ x ∷ [])
snoc-Fine arena x v h =
    let grown : length (arena ++ x ∷ []) ≡ length arena + 1 = length-append arena (x ∷ []) in
    record {
      ok = (
        omega (arith, grown),
        λ i n e. elim (get_elem?-snoc arena x i n e) [
          | inl old ↦ NodeOk-le (length arena) _ n (omega (arith, grown)) (v.ok.1 i n old)
          | inr new ↦
              subst (NodeOk (length (arena ++ x ∷ []))) new
                (NodeOk-le (length arena) _ x (omega (arith, grown)) h)
        ],
      );
      first = first-snoc arena x v.first;
    }

push_node-Compiled :
    (x : SchemaNode) (arena : Arena)
    → Fine arena
    → NodeOk (length arena) x
    → Compiled arena (push_node x arena)
unfolding push_node
push_node-Compiled x arena v h =
    let grown : length (arena ++ x ∷ []) ≡ length arena + 1 = length-append arena (x ∷ []) in
    record {
      fine = snoc-Fine arena x v h;
      below = omega (arith, grown);
      longer = omega (arith, grown);
      last = inr (ap (λ n. n % 2 ^ 16) (omega (arith, grown)));
    }

any-Compiled : (arena : Arena) → Fine arena → Compiled arena (any_id, arena)
any-Compiled arena v = record { fine = v; below = v.ok.0; longer = omega arith; last = inl refl }

later : (a b : Arena) (r : ℕ × Arena) → length a ≤ length b → Compiled b r → Compiled a r
later a b r h v = record {
  fine = v.fine;
  below = v.below;
  longer = omega (arith, v.longer);
  last = v.last;
}

either-Compiled :
    (c : Bool) (arena : Arena) (r s : ℕ × Arena)
    → Compiled arena r
    → Compiled arena s
    → Compiled arena (if c then r else s)
either-Compiled true arena r s v w = v
either-Compiled false arena r s v w = w

push_enum-Compiled :
    (J : JsonValue) (literals : Option (List (List ℕ))) (arena : Arena)
    → Fine arena
    → Compiled arena (push_enum J literals arena)
unfolding push_enum
push_enum-Compiled J none arena v = any-Compiled arena v
push_enum-Compiled J (some literals) arena v = push_node-Compiled (enum_of literals) arena v tt

push_object-Compiled :
    (J : JsonValue) (props : List (List ℕ × ℕ)) (additional : Bool) (required : Option Mask)
    (arena : Arena)
    → Fine arena
    → IdsBelow (length arena) props
    → Compiled arena (push_object J props additional required arena)
unfolding push_object
push_object-Compiled J props additional none arena v h = any-Compiled arena v
push_object-Compiled J props additional (some required) arena v h =
    push_node-Compiled (object_of props required additional) arena v h

module _ (J : JsonValue) (recur : J.Value → Arena → ℕ × Arena)
    (compiles : (v : J.Value) (arena : Arena) → Fine arena → Compiled arena (recur v arena)) where
  -- The properties of an object were compiled.
  record Members (arena : Arena) (r : List (List ℕ × ℕ) × Arena) : Type 0 where
    fine : Fine r.1
    below : IdsBelow (length r.1) r.0
    longer : length arena ≤ length r.1

  compile_props-Members :
      (members : List (List ℕ × J.Value)) (arena : Arena)
      → Fine arena
      → Members arena (compile_props J recur members arena)
  unfolding compile_props
  compile_props-Members [] arena v = record { fine = v; below = tt; longer = omega arith }
  compile_props-Members (m ∷ members) arena v =
      let r = compiles m.1 arena v in
      let s = compile_props-Members members (recur m.1 arena).1 r.fine in
      record {
        fine = s.fine;
        below = (omega (arith, r.below, s.longer), s.below);
        longer = omega (arith, r.longer, s.longer);
      }

  compile_members-Compiled :
      (schema : J.Value) (members : List (List ℕ × J.Value)) (arena : Arena)
      → Fine arena
      → Compiled arena (compile_members J recur schema members arena)
  unfolding compile_members
  compile_members-Compiled schema members arena v =
      let r = compile_props J recur members arena in
      let w = compile_props-Members members arena v in
      either-Compiled (ltb 64 (length members)) arena _ _ (any-Compiled arena v) (
        later arena r.1 _ w.longer (
          push_object-Compiled J r.0 (additional_of J schema) (required_of J schema r.0) r.1 w.fine
            w.below))

  compile_object-Compiled :
      (schema : J.Value) (arena : Arena)
      → Fine arena
      → Compiled arena (compile_object J recur schema arena)
  unfolding compile_object
  compile_object-Compiled schema arena v = elim (Option-cases (object_members J schema)) [
    | inl e ↦ rw (compile_object, e) (compile_members-Compiled schema [] arena v)
    | inr (members, e) ↦ rw (compile_object, e) (compile_members-Compiled schema members arena v)
  ]

  compile_array-Compiled :
      (items : Option J.Value) (arena : Arena)
      → Fine arena
      → Compiled arena (compile_array J recur items arena)
  unfolding compile_array
  compile_array-Compiled none arena v = push_node-Compiled (array_of any_id) arena v v.ok.0
  compile_array-Compiled (some items) arena v =
      let r = compiles items arena v in
      later arena (recur items arena).1 _ r.longer
        (push_node-Compiled (array_of (recur items arena).0) (recur items arena).1 r.fine r.below)

  compile_typed-Compiled :
      (ty : List ℕ) (schema : J.Value) (arena : Arena)
      → Fine arena
      → Compiled arena (compile_typed J recur ty schema arena)
  unfolding compile_typed
  compile_typed-Compiled ty schema arena v =
      either-Compiled (same_bytes ty type_object) arena _ _ (compile_object-Compiled schema arena v)
        (either-Compiled (same_bytes ty type_array) arena _ _
          (compile_array-Compiled (J.get key_items schema) arena v)
          (either-Compiled (same_bytes ty type_string) arena _ _
            (push_node-Compiled string_value arena v tt)
            (either-Compiled (same_bytes ty type_number) arena _ _
              (push_node-Compiled (number_value false) arena v tt)
              (either-Compiled (same_bytes ty type_integer) arena _ _
                (push_node-Compiled (number_value true) arena v tt)
                (either-Compiled (same_bytes ty type_boolean) arena _ _
                  (push_node-Compiled boolean_value arena v tt)
                  (either-Compiled (same_bytes ty type_null) arena _ _
                    (push_node-Compiled null_value arena v tt) (any-Compiled arena v)))))))

  compile_plain-Compiled :
      (ty : Option (List ℕ)) (schema : J.Value) (arena : Arena)
      → Fine arena
      → Compiled arena (compile_plain J recur ty schema arena)
  unfolding compile_plain
  compile_plain-Compiled none schema arena v =
      either-Compiled (is_some (J.get key_properties schema)) arena _ _
        (compile_object-Compiled schema arena v) (any-Compiled arena v)
  compile_plain-Compiled (some ty) schema arena v = compile_typed-Compiled ty schema arena v

  compile_keyed-Compiled :
      (values : Option (List J.Value)) (schema : J.Value) (arena : Arena)
      → Fine arena
      → Compiled arena (compile_keyed J recur values schema arena)
  unfolding compile_keyed compile_enum
  compile_keyed-Compiled (some values) schema arena v =
      either-Compiled (length values == 0 || ltb 64 (length values)) arena _ _
        (any-Compiled arena v) (push_enum-Compiled J (literals_of J values) arena v)
  compile_keyed-Compiled none schema arena v =
      either-Compiled
        (is_some (J.get key_any_of schema)
          || is_some (J.get key_one_of schema)
          || is_some (J.get key_all_of schema))
        arena _ _ (any-Compiled arena v)
        (compile_plain-Compiled (str_at J key_type schema) schema arena v)

  compile_ref-Compiled :
      (target : Option J.Value) (arena : Arena)
      → Fine arena
      → Compiled arena (compile_ref J recur target arena)
  unfolding compile_ref
  compile_ref-Compiled none arena v = any-Compiled arena v
  compile_ref-Compiled (some target) arena v = compiles target arena v

  compile_at-Compiled :
      (root schema : J.Value) (arena : Arena)
      → Fine arena
      → Compiled arena (compile_at J recur root schema arena)
  unfolding compile_at
  compile_at-Compiled root schema arena v = elim (Bool-cases (is_some (J.entries schema))) [
    | inl e ↦ elim (Option-cases (str_at J key_ref schema)) [
      | inl f ↦
          rw (compile_at, e, f) (compile_keyed-Compiled (array_at J key_enum schema) schema arena v)
      | inr (r, f) ↦ rw (compile_at, e, f) (compile_ref-Compiled (ref_target J root r) arena v)
    ]
    | inr e ↦ rw (compile_at, e) (any-Compiled arena v)
  ]

not_last :
    (id n : ℕ)
    → 0 < n
    → id ≡ (n - 1) % 2 ^ 16
    → id == (n % 2 ^ 16 + (2 ^ 16 - 1)) % 2 ^ 16 ≡ false
    → ⊥
not_last id n pos end other =
    let same : (n - 1) % 2 ^ 16 ≡ (n % 2 ^ 16 + (2 ^ 16 - 1)) % 2 ^ 16 = omega arith in
    ground (arith, end, same, other)

only_any : (i : ℕ) (n : SchemaNode) → get_elem? (any_value ∷ []) i ≡ some n → NodeOk 1 n
only_any zero n e = let same : any_value ≡ n = cc in subst (NodeOk 1) same tt
only_any (suc i) n e = absurd cc

module _ (J : JsonValue) where
  compile_node-Compiled :
      (depths : ℕ) (root schema : J.Value) (arena : Arena)
      → Fine arena
      → Compiled arena (compile_node J depths root schema arena)
  unfolding compile_node
  compile_node-Compiled zero root schema arena v = any-Compiled arena v
  compile_node-Compiled (suc depths) root schema arena v =
      compile_at-Compiled J (λ x a. compile_node J depths root x a)
        (λ x a w. compile_node-Compiled depths root x a w) root schema arena v

  last_root-ArenaOk :
      (before : Arena) (r : ℕ × Arena)
      → Compiled before r
      → (arena : Arena) × (last_root J r.0 r.1 ≡ some arena) × ArenaOk arena
  unfolding last_root
  last_root-ArenaOk before r v =
      elim (Bool-cases (r.0 == (length r.1 % 2 ^ 16 + (2 ^ 16 - 1)) % 2 ^ 16)) [
        | inl e ↦ (r.1, rw e refl, v.fine.ok)
        | inr e ↦ elim v.last [
          | inl zeroth ↦
              let first : node r.1 r.0 ≡ some any_value =
                ap (λ i. node r.1 i) zeroth ∙ v.fine.first in
              (r.1 ++ any_value ∷ [], rw (e, first) refl, (snoc-Fine r.1 any_value v.fine tt).ok)
          | inr end ↦ absurd (not_last r.0 (length r.1) (omega (arith, v.below)) end e)
        ]
      ]

  unconstrained-Fine : Fine unconstrained
  unfolding unconstrained
  unconstrained-Fine = record { ok = (omega arith, only_any); first = refl }

  -- Whatever the schema and whatever the crate says of its values, `compile` reaches no `unreachable!`, and every
  -- node of the arena that it gives names nodes of that arena.
  pub compile-ArenaOk :
      (schema : J.Value) → (arena : Arena) × (compile J schema ≡ some arena) × ArenaOk arena
  unfolding compile
  compile-ArenaOk schema =
      last_root-ArenaOk unconstrained _
        (compile_node-Compiled (schema_depth + 1) schema schema unconstrained unconstrained-Fine)
