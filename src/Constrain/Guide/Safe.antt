-- ===== src/Constrain/Guide/Safe.antt =====
-- src/constrain.rs, `GuideState`: over an arena whose nodes name nodes of it, no byte makes the guide panic,
-- whatever the events.
use oxydllm.Base.{
  ℕ, ◌+◌, ◌<◌, ◌≡◌, refl, ◌∙◌, inl, inr, Bool, true, false, not, ◌&&◌, ◌||◌, Option, none, some,
  ltb, leb, ◌==◌, if◌then◌else◌, length, length-set, get_elem?-some, arith, Bool-cases,
}
use oxydllm.Constrain.Schema.{
  SchemaNode, any_value, object_of, array_of, string_value, number_value, boolean_value, null_value,
  enum_of, is_zero, Arena, any_id,
}
use oxydllm.Constrain.Machine.{between}
use oxydllm.Constrain.Events.{Events}
use oxydllm.Constrain.Guide.{
  ValCtx, free_value, enum_scan, key_scan, int_number, GuideState, guided_depth, child_of, expected,
  start_scalar, open_level, enter_value, has_available_key, key_context, start_key, finish_key,
  finish_scalar, close_container, content, guarded, key_room, key_start_step, value_step, byte_step,
  on_byte, starting, room_for_key,
}
use oxydllm.Constrain.Guide.Ok.{
  NodeOk, ArenaOk, CurOk, ValOk, GuideOk, Safe, ids-lt, key_context-Ok, safe,
}
use oxydllm.Constrain.Guide.Levels.{node-some, top-some, set_level-Ok, with_val-Ok, opened-Ok}
use oxydllm.Constrain.Guide.Ends.{finish_scalar-Safe, close_container-Safe, finish_key-Safe}

module _ (arena : Arena) (ok : ArenaOk arena) where
  start_scalar-Ok :
      (id : ℕ) (n : SchemaNode) (b d : ℕ)
      → id < length arena
      → ValOk arena d (start_scalar id n b).1
  unfolding start_scalar
  start_scalar-Ok id any_value b d h = tt
  start_scalar-Ok id (object_of props required additional) b d h = tt
  start_scalar-Ok id (array_of items) b d h = tt
  start_scalar-Ok id string_value b d h = tt
  start_scalar-Ok id (number_value integer) b d h =
      elim (Bool-cases ((b == b'-' || between b'0' b'9' b) && integer)) [
        | inl on ↦ rw on tt
        | inr off ↦ rw off tt
      ]
  start_scalar-Ok id boolean_value b d h = tt
  start_scalar-Ok id null_value b d h = tt
  start_scalar-Ok id (enum_of literals) b d h = elim (Bool-cases (is_zero (starting b literals))) [
    | inl dead ↦ rw dead tt
    | inr alive ↦ rw alive h
  ]

  open_level-Ok :
      (id : ℕ) (n : SchemaNode) (g : GuideState)
      → id < length arena
      → ValOk arena (g.depth + 1) g.val
      → GuideOk arena g
      → GuideOk arena (open_level id n g)
  unfolding open_level
  open_level-Ok id n g h e v = elim (Bool-cases (ltb 0 g.overflow || leb guided_depth g.depth)) [
    | inl deep ↦
        rw deep (record {
          size = v.size;
          shallow = v.shallow;
          levels_ok = v.levels_ok;
          val_ok = v.val_ok;
        })
    | inr guided ↦ rw guided (record {
      size = length-set g.levels g.depth _ ∙ v.size;
      shallow = ground (arith, guided);
      levels_ok = set_level-Ok arena ok g.levels g.depth _ (opened-Ok arena ok id n h) v.levels_ok;
      val_ok = e;
    })
  ]

  content-Safe :
      (x : ValCtx) (b : ℕ) (ev : Events) (g : GuideState)
      → ValOk arena g.depth x
      → GuideOk arena g
      → Safe arena (content x arena b ev g)
  unfolding content
  content-Safe free_value b ev g x v = safe v
  content-Safe int_number b ev g x v = safe v
  content-Safe (enum_scan id alive pos) b ev g x v =
      elim (Bool-cases (ev.key_end || ev.scalar_end || ev.object_close || ev.array_close)) [
        | inl ends ↦ rw ends (safe v)
        | inr goes_on ↦
            let (n, e) = node-some arena ok id x in
            rw (goes_on, e) (safe (with_val-Ok arena ok _ g x v))
      ]
  content-Safe (key_scan alive pos any) b ev g x v = elim (Bool-cases ev.key_end) [
    | inl ends ↦ rw ends (safe v)
    | inr goes_on ↦
        let (l, e, good) = top-some arena ok g v x in
        let (n, f) = node-some arena ok l.schema good.known in
        rw (goes_on, e, f) (safe (with_val-Ok arena ok _ g x v))
  ]

  guarded-Safe :
      (on : Bool) (f : GuideState → Option (Bool × GuideState)) (r : Option (Bool × GuideState))
      → Safe arena r
      → ((g : GuideState) → GuideOk arena g → Safe arena (f g))
      → Safe arena (guarded on f r)
  unfolding guarded
  guarded-Safe on f none x next = elim x [ ]
  guarded-Safe on f (some (false, g)) (safe v) next = safe v
  guarded-Safe true f (some (true, g)) (safe v) next = next g v
  guarded-Safe false f (some (true, g)) (safe v) next = safe v

  choose-Safe :
      (c : Bool) (x y : Option (Bool × GuideState))
      → Safe arena x
      → Safe arena y
      → Safe arena (if c then x else y)
  choose-Safe true x y p q = p
  choose-Safe false x y p q = q

  key_room-Safe : (g : GuideState) → GuideOk arena g → (b : Bool) × (key_room arena g ≡ some (b, g))
  unfolding key_room has_available_key
  key_room-Safe g v = elim (Bool-cases (ltb 0 g.overflow || g.depth == 0)) [
    | inl free ↦ (true, rw free refl)
    | inr guided ↦
        let (l, e, good) = top-some arena ok g v (ground (arith, guided)) in
        let (n, f) = node-some arena ok l.schema good.known in
        (room_for_key l.emitted n, rw (guided, e, f) refl)
  ]

  key_start_step-Safe : (g : GuideState) → GuideOk arena g → Safe arena (key_start_step arena g)
  unfolding key_start_step start_key
  key_start_step-Safe g v =
      let (b, e) = key_room-Safe g v in
      elim (Bool-cases b) [
        | inr full ↦ rw (e, full) (safe v)
        | inl room ↦ elim (Bool-cases (ltb 0 g.overflow || g.depth == 0)) [
          | inl free ↦ rw (e, room, free) (safe (with_val-Ok arena ok free_value g tt v))
          | inr guided ↦
              let (l, f, good) = top-some arena ok g v (ground (arith, guided)) in
              let (n, at) = node-some arena ok l.schema good.known in
              rw (e, room, guided, f, at)
                (safe (
                  with_val-Ok arena ok (key_context l.emitted n) g
                    (key_context-Ok l.emitted n arena g.depth (ground (arith, guided))) v))
        ]
      ]

  child_of_lem :
      (n : SchemaNode) (cur : Option ℕ)
      → NodeOk (length arena) n
      → CurOk n cur
      → (id : ℕ) × (child_of n cur ≡ some id) × (id < length arena)
  unfolding child_of
  child_of_lem (object_of props required additional) (some i) refs within =
      let (p, e) = get_elem?-some props i within in
      (p.1, rw e refl, ids-lt (length arena) props i p refs e)
  child_of_lem (object_of props required additional) none refs within = (any_id, refl, ok.0)
  child_of_lem (array_of items) cur refs within = (items, refl, refs)
  child_of_lem any_value cur refs within = (any_id, refl, ok.0)
  child_of_lem string_value cur refs within = (any_id, refl, ok.0)
  child_of_lem (number_value integer) cur refs within = (any_id, refl, ok.0)
  child_of_lem boolean_value cur refs within = (any_id, refl, ok.0)
  child_of_lem null_value cur refs within = (any_id, refl, ok.0)
  child_of_lem (enum_of literals) cur refs within = (any_id, refl, ok.0)

  module _ (root : ℕ) (root_ok : root < length arena) where
    expected_lem :
        (g : GuideState)
        → GuideOk arena g
        → (id : ℕ) × (expected arena root g ≡ some id) × (id < length arena)
    unfolding expected
    expected_lem g v = elim (Bool-cases (ltb 0 g.overflow)) [
      | inl deep ↦ (any_id, rw deep refl, ok.0)
      | inr guided ↦ elim (Bool-cases (g.depth == 0)) [
        | inl flat ↦ (root, rw (guided, flat) refl, root_ok)
        | inr nested ↦
            let (l, e, good) = top-some arena ok g v (ground (arith, nested)) in
            let (n, f) = node-some arena ok l.schema good.known in
            let (id, c, below) = child_of_lem n l.cur_prop (ok.1 l.schema n f) (good.pending n f) in
            (id, rw (guided, nested, e, f) c, below)
      ]
    ]

    value_step-Safe :
        (b : ℕ) (g : GuideState) → GuideOk arena g → Safe arena (value_step arena root b g)
    unfolding value_step enter_value
    value_step-Safe b g v =
        let (id, e, below) = expected_lem g v in
        let (n, f) = node-some arena ok id below in
        let r = start_scalar id n b in
        let entered : GuideOk arena (record g { val = r.1 }) =
          with_val-Ok arena ok r.1 g (start_scalar-Ok id n b g.depth below) v in
        elim (Bool-cases (r.0 && (b == b'{' || b == b'['))) [
          | inl opens ↦
              rw (e, f, opens)
                (safe (
                  open_level-Ok id n (record g { val = r.1 }) below
                    (start_scalar-Ok id n b (g.depth + 1) below) entered))
          | inr stays ↦ rw (e, f, stays) (safe entered)
        ]

    byte_step-Safe :
        (b : ℕ) (ev : Events) (g : GuideState)
        → GuideOk arena g
        → Safe arena (byte_step arena root b ev g)
    unfolding byte_step
    byte_step-Safe b ev g v = choose-Safe ev.value_start _ _ (value_step-Safe b g v) (
        choose-Safe ev.key_start _ _ (key_start_step-Safe g v)
          (content-Safe g.val b ev g v.val_ok v))

    key_room_step-Safe : (g : GuideState) → GuideOk arena g → Safe arena (key_room arena g)
    key_room_step-Safe g v = let (b, e) = key_room-Safe g v in rw e (safe v)

    -- Over an arena whose nodes name nodes of it, no byte makes the guide panic, whatever the automaton's events
    -- say of it, and the guide stays well formed.
    pub on_byte-Safe :
        (b : ℕ) (ev : Events) (was_num : Bool) (g : GuideState)
        → GuideOk arena g
        → Safe arena (on_byte arena root b ev was_num g)
    unfolding on_byte
    on_byte-Safe b ev was_num g v =
        let begun : Option (Bool × GuideState) = some (true, g) in
        let settled = guarded (ev.scalar_end && was_num) (finish_scalar arena false b) begun in
        let comma = guarded ev.object_comma (key_room arena) settled in
        let moved = guarded true (byte_step arena root b ev) comma in
        let scalar = guarded (ev.scalar_end && not was_num) (finish_scalar arena true b) moved in
        let key = guarded ev.key_end (finish_key arena) scalar in
        let settled-Safe =
          guarded-Safe (ev.scalar_end && was_num) (finish_scalar arena false b) begun (safe v)
            (finish_scalar-Safe arena ok false b) in
        let comma-Safe =
          guarded-Safe ev.object_comma (key_room arena) settled settled-Safe key_room_step-Safe in
        let moved-Safe =
          guarded-Safe true (byte_step arena root b ev) comma comma-Safe (byte_step-Safe b ev) in
        let scalar-Safe =
          guarded-Safe (ev.scalar_end && not was_num) (finish_scalar arena true b) moved moved-Safe
            (finish_scalar-Safe arena ok true b) in
        let key-Safe =
          guarded-Safe ev.key_end (finish_key arena) scalar scalar-Safe
            (finish_key-Safe arena ok) in
        guarded-Safe (ev.object_close || ev.array_close) (close_container arena) key key-Safe
          (close_container-Safe arena ok)
