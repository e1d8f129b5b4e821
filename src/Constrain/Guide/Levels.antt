-- ===== src/Constrain/Guide/Levels.antt =====
-- src/constrain.rs, `GuideState`: its levels stay well formed when one is read, set, opened, settled or left.
use oxydllm.Base.{
  ℕ, zero, suc, ◌-◌, ◌≤◌, ◌<◌, ◌≡◌, refl, sym, ◌∙◌, inl, inr, ◌&&◌, List, [], none, some, ltb, ◌==◌,
  if◌then◌else◌, length, get_elem?, set, length-set, get_elem?-some, get_elem?-set-cases, subst,
  arith, Bool-cases,
}
use oxydllm.Constrain.Schema.{Mask, SchemaNode, Arena, any_id, node}
use oxydllm.Constrain.Guide.{
  Level, ValCtx, GuideState, level_above, top, set_top, settle, pop_level, is_container,
}
use oxydllm.Constrain.Guide.Ok.{ArenaOk, LevelOk, ValOk, GuideOk, CurOk-none}

module _ (arena : Arena) (ok : ArenaOk arena) where
  pub node-some : (id : ℕ) → id < length arena → (n : SchemaNode) × (node arena id ≡ some n)
  node-some id h = get_elem?-some arena id h

  level_above_lem :
      (levels : List Level) (d : ℕ)
      → 0 < d
      → d ≤ length levels
      → (l : Level) × (level_above levels d ≡ some l) × (get_elem? levels (d - 1) ≡ some l)
  unfolding level_above
  level_above_lem levels zero pos h = absurd (omega arith)
  level_above_lem levels (suc d) pos h =
      let (l, e) = get_elem?-some levels d (omega arith) in (l, e, ground (arith, e))

  pub top-some :
      (g : GuideState)
      → GuideOk arena g
      → 0 < g.depth
      → (l : Level) × (top g ≡ some l) × LevelOk arena l
  unfolding top
  top-some g v pos =
      let (l, e, at) = level_above_lem g.levels g.depth pos (omega (arith, v.shallow, v.size)) in
      (l, e, v.levels_ok (g.depth - 1) l at)

  pub set_level-Ok :
      (levels : List Level) (d : ℕ) (l : Level)
      → LevelOk arena l
      → ((i : ℕ) (x : Level) → get_elem? levels i ≡ some x → LevelOk arena x)
      → (i : ℕ) (x : Level) → get_elem? (set levels d l) i ≡ some x
      → LevelOk arena x
  set_level-Ok levels d l good all i x e = elim (get_elem?-set-cases levels d i l x e) [
    | inl same ↦ subst (LevelOk arena) (sym same) good
    | inr old ↦ all i x old
  ]

  pub set_top-Ok :
      (l : Level) (g : GuideState) → LevelOk arena l → GuideOk arena g → GuideOk arena (set_top l g)
  set_top-Ok l g good v = record {
    size = length-set g.levels (g.depth - 1) l ∙ v.size;
    shallow = v.shallow;
    levels_ok = set_level-Ok g.levels (g.depth - 1) l good v.levels_ok;
    val_ok = v.val_ok;
  }

  pub with_val-Ok :
      (x : ValCtx) (g : GuideState)
      → ValOk arena g.depth x
      → GuideOk arena g
      → GuideOk arena (record g { val = x })
  with_val-Ok x g good v = record {
    size = v.size;
    shallow = v.shallow;
    levels_ok = v.levels_ok;
    val_ok = good;
  }

  settled-Ok :
      (l : Level) (m : Mask)
      → l.schema < length arena
      → LevelOk arena (record l { emitted = m; cur_prop = none })
  settled-Ok l m h = record { known = h; pending = λ n e. CurOk-none n }

  pub opened-Ok :
      (id : ℕ) (n : SchemaNode)
      → id < length arena
      → LevelOk arena
          (record { schema = if is_container n then id else any_id; emitted = []; cur_prop = none })
  opened-Ok id n h = elim (Bool-cases (is_container n)) [
    | inl yes_it_is ↦ rw yes_it_is (record { known = h; pending = λ m e. CurOk-none m })
    | inr leaf ↦ rw leaf (record { known = ok.0; pending = λ m e. CurOk-none m })
  ]

  pub settle-Ok :
      (g : GuideState)
      → GuideOk arena g
      → (g' : GuideState) × (settle g ≡ some g') × GuideOk arena g'
  unfolding settle
  settle-Ok g v = elim (Bool-cases (ltb 0 g.depth && g.overflow == 0)) [
    | inr off ↦ (g, rw off refl, v)
    | inl on ↦
        let (l, e, good) = top-some g v (ground (arith, on)) in
        (
          set_top (record l { cur_prop = none }) g,
          rw (on, e) refl,
          set_top-Ok _ g (settled-Ok l l.emitted good.known) v,
        )
  ]

  pub pop_level-Ok :
      (g : GuideState)
      → GuideOk arena g
      → (g' : GuideState) × (pop_level g ≡ some g') × GuideOk arena g'
  unfolding pop_level
  pop_level-Ok g v = elim (Bool-cases (ltb 0 g.depth)) [
    | inr off ↦ (g, rw off refl, v)
    | inl on ↦
        let (l, e, good) = top-some g v (ground (arith, on)) in
        (
          set_top (record l { cur_prop = none }) g,
          rw (on, e) refl,
          set_top-Ok _ g (settled-Ok l l.emitted good.known) v,
        )
  ]
