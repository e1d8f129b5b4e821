-- ===== src/Constrain/Guide/Ends.antt =====
-- src/constrain.rs, `GuideState`: the end of a scalar, a key or a container neither panics nor breaks the guide.
use oxydllm.Base.{
  ℕ, ◌+◌, ◌-◌, ◌<◌, ◌≡◌, refl, inl, inr, Bool, true, ◌&&◌, List, [], ◌∷◌, some, ltb, ◌==◌, length,
  subst, arith, Bool-cases, Option-cases,
}
use oxydllm.Constrain.Schema.{
  Mask, SchemaNode, any_value, object_of, array_of, string_value, number_value, boolean_value,
  null_value, enum_of, Arena, node,
}
use oxydllm.Constrain.Guide.{
  Level, ValCtx, free_value, enum_scan, key_scan, int_number, GuideState, keyed, exact_key,
  finish_key_at, finish_key, complete_in, scalar_ok, finish_scalar, close_container,
}
use oxydllm.Constrain.Guide.Ok.{
  ArenaOk, CurOk, LevelOk, ValOk, GuideOk, Safe, some_same, CurOk-none, safe,
}
use oxydllm.Constrain.Guide.Levels.{
  node-some, top-some, set_top-Ok, with_val-Ok, settle-Ok, pop_level-Ok,
}

module _ (arena : Arena) (ok : ArenaOk arena) where
  scalar_ok_lem :
      (x : ValCtx) (d : ℕ) (included : Bool) (b : ℕ)
      → ValOk arena d x
      → (r : Bool) × (scalar_ok x arena included b ≡ some r)
  unfolding scalar_ok
  scalar_ok_lem free_value d included b v = (true, refl)
  scalar_ok_lem (enum_scan id alive pos) d included b v =
      let (n, e) = node-some arena ok id v in (complete_in n included b pos alive, rw e refl)
  scalar_ok_lem (key_scan alive pos any) d included b v = (true, refl)
  scalar_ok_lem int_number d included b v = (true, refl)

  pub finish_scalar-Safe :
      (included : Bool) (b : ℕ) (g : GuideState)
      → GuideOk arena g
      → Safe arena (finish_scalar arena included b g)
  unfolding finish_scalar
  finish_scalar-Safe included b g v =
      let (r, e) = scalar_ok_lem g.val g.depth included b v.val_ok in
      let (g', f, w) =
        settle-Ok arena ok (record g { val = free_value })
          (with_val-Ok arena ok free_value g tt v) in
      rw (e, f) (safe w)

  pub close_container-Safe :
      (g : GuideState) → GuideOk arena g → Safe arena (close_container arena g)
  unfolding close_container
  close_container-Safe g v = elim (Bool-cases (ltb 0 g.overflow)) [
    | inl deep ↦ rw deep (
        safe (record {
          size = v.size;
          shallow = v.shallow;
          levels_ok = v.levels_ok;
          val_ok = v.val_ok;
        }))
    | inr guided ↦ elim (Bool-cases (g.depth == 0)) [
      | inl flat ↦ rw (guided, flat) (safe v)
      | inr nested ↦
          let (l, e, good) = top-some arena ok g v (ground (arith, nested)) in
          let (n, f) = node-some arena ok l.schema good.known in
          let below : GuideOk arena (record g { depth = g.depth - 1; val = free_value }) = record {
            size = v.size;
            shallow = omega (arith, v.shallow);
            levels_ok = v.levels_ok;
            val_ok = tt;
          } in
          let (g', r, w) =
            pop_level-Ok arena ok (record g { depth = g.depth - 1; val = free_value }) below in
          rw (guided, nested, e, f, r) (safe w)
    ]
  ]

  exact_key-lt :
      (pos i : ℕ) (props : List (List ℕ × ℕ)) (alive : Mask) {k : ℕ}
      → exact_key pos i props alive ≡ some k
      → k < i + length props
  unfolding exact_key
  exact_key-lt pos i [] alive e = absurd cc
  exact_key-lt pos i (p ∷ props) [] e = absurd cc
  exact_key-lt pos i (p ∷ props) (a ∷ alive) e = elim (Bool-cases (a && length p.0 == pos)) [
    | inl hit ↦ ground (arith, rw hit at e)
    | inr miss ↦ omega (arith, exact_key-lt pos (i + 1) props alive (rw miss at e))
  ]

  keyed-Ok :
      (n : SchemaNode) (alive : Mask) (pos : ℕ) (any : Bool) (l : Level)
      → node arena l.schema ≡ some n
      → LevelOk arena l
      → LevelOk arena (keyed n alive pos any l).1
  unfolding keyed
  keyed-Ok (object_of props required additional) alive pos any l e v =
      elim (Option-cases (exact_key pos 0 props alive)) [
        | inl none_exact ↦
            rw (none_exact, keyed) (record { known = v.known; pending = λ n f. CurOk-none n })
        | inr (i, exact) ↦
            rw (exact, keyed)
              (record {
                known = v.known;
                pending = λ n f.
                    subst (λ m. CurOk m (some i))
                      (some_same (object_of props required additional) n e f)
                      (omega (arith, exact_key-lt pos 0 props alive exact));
              })
      ]
  keyed-Ok any_value alive pos any l e v = v
  keyed-Ok (array_of items) alive pos any l e v = v
  keyed-Ok string_value alive pos any l e v = v
  keyed-Ok (number_value integer) alive pos any l e v = v
  keyed-Ok boolean_value alive pos any l e v = v
  keyed-Ok null_value alive pos any l e v = v
  keyed-Ok (enum_of literals) alive pos any l e v = v

  finish_key_at-Safe :
      (x : ValCtx) (g : GuideState)
      → ValOk arena g.depth x
      → GuideOk arena g
      → Safe arena (finish_key_at x arena g)
  unfolding finish_key_at
  finish_key_at-Safe (key_scan alive pos any) g pos_depth v =
      let (l, e, good) = top-some arena ok g v pos_depth in
      let (n, f) = node-some arena ok l.schema good.known in
      rw (e, f)
        (safe (
          set_top-Ok arena ok _ (record g { val = free_value }) (keyed-Ok n alive pos any l f good)
            (with_val-Ok arena ok free_value g tt v)))
  finish_key_at-Safe free_value g x v = safe (with_val-Ok arena ok free_value g tt v)
  finish_key_at-Safe (enum_scan id alive pos) g x v = safe (with_val-Ok arena ok free_value g tt v)
  finish_key_at-Safe int_number g x v = safe (with_val-Ok arena ok free_value g tt v)

  pub finish_key-Safe : (g : GuideState) → GuideOk arena g → Safe arena (finish_key arena g)
  unfolding finish_key
  finish_key-Safe g v = finish_key_at-Safe g.val g v.val_ok v
