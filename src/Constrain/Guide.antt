-- ===== src/Constrain/Guide.antt =====
-- src/constrain.rs, `GuideState`: the schema's half of the walker. `none` is a panic; else the Boolean that the
-- code returns, with the state as the code leaves it.
pub mod Ok
pub mod Levels
pub mod Ends
pub mod Safe
use oxydllm.Base.{
  ℕ, zero, suc, ◌+◌, ◌-◌, ◌%◌, ◌^◌, ◌≡◌, min, Bool, true, false, not, ◌&&◌, ◌||◌, List, [], ◌∷◌,
  ◌++◌, Option, none, some, ltb, leb, ◌==◌, if◌then◌else◌, ◌>>=◌, length, get_elem?, set, replicate,
}
use oxydllm.Constrain.Machine.{between}
use oxydllm.Constrain.Schema.{
  Mask, has, with_bit, is_zero, covers, SchemaNode, any_value, object_of, array_of, string_value,
  number_value, boolean_value, null_value, enum_of, Arena, any_id, node,
}
use oxydllm.Constrain.Events.{Events}

abbrev pub guided_depth : ℕ
guided_depth = 8

-- `cur_prop` is `none` for `NO_PROP`.
pub record Level : Type 0 where
  pub schema : ℕ
  pub emitted : Mask
  pub cur_prop : Option ℕ

pub data ValCtx : Type 0 where
  free_value : ValCtx
  enum_scan : ℕ → Mask → ℕ → ValCtx
  key_scan : Mask → ℕ → Bool → ValCtx
  int_number : ValCtx

pub record GuideState : Type 0 where
  pub levels : List Level
  pub depth : ℕ
  pub overflow : ℕ
  pub val : ValCtx

abbrev pub no_level : Level
no_level = record { schema = any_id; emitted = []; cur_prop = none }

unfoldable pub new_guide : GuideState
new_guide = record {
  levels = replicate guided_depth no_level;
  depth = 0;
  overflow = 0;
  val = free_value;
}

-- `levels[depth - 1]`, with its panic.
unfoldable pub level_above : List Level → ℕ → Option Level
level_above levels zero = none
level_above levels (suc d) = get_elem? levels d

-- `self.levels[self.depth - 1]`.
unfoldable pub top : GuideState → Option Level
unfolding level_above
top g = level_above g.levels g.depth

abbrev pub set_top : Level → GuideState → GuideState
set_top l g = record g { levels = set g.levels (g.depth - 1) l }

-- `expected`, at the schema node of the top level.
unfoldable pub child_of : SchemaNode → Option ℕ → Option ℕ
child_of (array_of items) cur = some items
child_of (object_of props required additional) none = some any_id
child_of (object_of props required additional) (some i) = do p ← get_elem? props i; some p.1
child_of _ cur = some any_id

unfoldable pub expected : Arena → ℕ → GuideState → Option ℕ
unfolding top child_of
expected arena root g =
    if ltb 0 g.overflow
    then some any_id
    else if g.depth == 0
    then some root
    else (do level ← top g; n ← node arena level.schema; child_of n level.cur_prop)

-- The mask of the literals, or names, that are alive and go on with `b` at `pos`.
unfoldable pub scan : ℕ → ℕ → List (List ℕ) → Mask → Mask
scan b pos [] alive = []
scan b pos (word ∷ words) [] = []
scan b pos (word ∷ words) (a ∷ alive) =
    (a && elim (get_elem? word pos) [ none ↦ false | some c ↦ c == b ]) ∷ scan b pos words alive

unfoldable pub names : List (List ℕ × ℕ) → List (List ℕ)
names [] = []
names ((name, n) ∷ props) = name ∷ names props

-- The bits of the properties not emitted yet.
unfoldable pub remaining : Mask → ℕ → ℕ → Mask
unfolding has
remaining emitted i zero = []
remaining emitted i (suc n) = not (has emitted i) ∷ remaining emitted (i + 1) n

-- The literals that begin with `b`.
unfoldable pub starting : ℕ → List (List ℕ) → Mask
starting b [] = []
starting b ([] ∷ words) = false ∷ starting b words
starting b ((c ∷ word) ∷ words) = (c == b) ∷ starting b words

-- Whether `b` may start a value of the node, and the constraint on the scalar that it starts.
unfoldable pub start_scalar : ℕ → SchemaNode → ℕ → Bool × ValCtx
unfolding starting is_zero
start_scalar id any_value b = (true, free_value)
start_scalar id (object_of props required additional) b = (b == b'{', free_value)
start_scalar id (array_of items) b = (b == b'[', free_value)
start_scalar id string_value b = (b == b'"', free_value)
start_scalar id (number_value integer) b = (
  b == b'-' || between b'0' b'9' b,
  if (b == b'-' || between b'0' b'9' b) && integer then int_number else free_value,
)
start_scalar id boolean_value b = (b == b't' || b == b'f', free_value)
start_scalar id null_value b = (b == b'n', free_value)
start_scalar id (enum_of literals) b =
    let alive = starting b literals in
    (not (is_zero alive), if is_zero alive then free_value else enum_scan id alive 1)

unfoldable pub is_container : SchemaNode → Bool
is_container (object_of props required additional) = true
is_container (array_of items) = true
is_container _ = false

-- The level that `{` or `[` opens, counted once it is too deep to be guided. `overflow` is a `u8`.
unfoldable pub open_level : ℕ → SchemaNode → GuideState → GuideState
unfolding is_container
open_level id n g =
    if ltb 0 g.overflow || leb guided_depth g.depth
    then record g { overflow = min (g.overflow + 1) 255 }
    else record g {
      levels = set g.levels g.depth (record {
        schema = if is_container n then id else any_id;
        emitted = [];
        cur_prop = none;
      });
      depth = g.depth + 1;
    }

unfoldable pub enter_value : Arena → ℕ → ℕ → GuideState → Option (Bool × GuideState)
unfolding start_scalar open_level
enter_value arena id b g = do
  n ← node arena id
  let r = start_scalar id n b
  let g' = record g { val = r.1 }
  some (r.0, if r.0 && (b == b'{' || b == b'[') then open_level id n g' else g')

unfoldable pub room_for_key : Mask → SchemaNode → Bool
unfolding remaining is_zero
room_for_key emitted (object_of props required additional) =
    additional || not (is_zero (remaining emitted 0 (length props)))
room_for_key emitted _ = true

unfoldable pub has_available_key : Arena → GuideState → Option Bool
unfolding top room_for_key
has_available_key arena g =
    if ltb 0 g.overflow || g.depth == 0
    then some true
    else (do level ← top g; n ← node arena level.schema; some (room_for_key level.emitted n))

unfoldable pub key_context : Mask → SchemaNode → ValCtx
unfolding remaining
key_context emitted (object_of props required additional) =
    key_scan (remaining emitted 0 (length props)) 0 additional
key_context emitted _ = free_value

unfoldable pub start_key : Arena → GuideState → Option GuideState
unfolding top key_context
start_key arena g =
    if ltb 0 g.overflow || g.depth == 0 then some (record g { val = free_value }) else (do
      level ← top g
      n ← node arena level.schema
      some (record g { val = key_context level.emitted n }))

-- The first property alive whose name has `pos` bytes.
unfoldable pub exact_key : ℕ → ℕ → List (List ℕ × ℕ) → Mask → Option ℕ
exact_key pos i [] alive = none
exact_key pos i (p ∷ props) [] = none
exact_key pos i (p ∷ props) (a ∷ alive) =
    let rest = exact_key pos (i + 1) props alive in if a && length p.0 == pos then some i else rest

-- The top level, and the answer, once a key of `pos` bytes has ended.
unfoldable pub keyed : SchemaNode → Mask → ℕ → Bool → Level → Bool × Level
unfolding exact_key with_bit
keyed (object_of props required additional) alive pos any l = elim (exact_key pos 0 props alive) [
  | some i ↦ (true, record l { emitted = with_bit l.emitted i; cur_prop = some i })
  | none ↦ (any, record l { cur_prop = none })
]
keyed _ alive pos any l = (true, l)

unfoldable pub finish_key_at : ValCtx → Arena → GuideState → Option (Bool × GuideState)
unfolding top keyed
finish_key_at (key_scan alive pos any) arena g = do
  level ← top g
  n ← node arena level.schema
  let r = keyed n alive pos any level
  some (r.0, set_top r.1 (record g { val = free_value }))
finish_key_at _ arena g = some (true, record g { val = free_value })

unfoldable pub finish_key : Arena → GuideState → Option (Bool × GuideState)
unfolding finish_key_at
finish_key arena g = finish_key_at g.val arena g

-- Whether a literal alive ends here, with the byte `b` as its last or before it.
unfoldable pub some_complete : Bool → ℕ → ℕ → List (List ℕ) → Mask → Bool
some_complete included b pos [] alive = false
some_complete included b pos (lit ∷ lits) [] = false
some_complete included b pos (lit ∷ lits) (a ∷ alive) =
    (a
      && (if included
          then elim (get_elem? lit pos) [ none ↦ false | some c ↦ c == b && length lit == pos + 1 ]
          else length lit == pos))
    || some_complete included b pos lits alive

unfoldable pub complete_in : SchemaNode → Bool → ℕ → ℕ → Mask → Bool
unfolding some_complete
complete_in (enum_of lits) included b pos alive = some_complete included b pos lits alive
complete_in _ included b pos alive = true

unfoldable pub scalar_ok : ValCtx → Arena → Bool → ℕ → Option Bool
unfolding complete_in
scalar_ok (enum_scan id alive pos) arena included b = do
  n ← node arena id
  some (complete_in n included b pos alive)
scalar_ok _ arena included b = some true

-- The property is settled at a guided level.
unfoldable pub settle : GuideState → Option GuideState
unfolding top
settle g =
    if ltb 0 g.depth && g.overflow == 0
    then (do l ← top g; some (set_top (record l { cur_prop = none }) g))
    else some g

unfoldable pub finish_scalar : Arena → Bool → ℕ → GuideState → Option (Bool × GuideState)
unfolding scalar_ok settle
finish_scalar arena included b g = do
  ok ← scalar_ok g.val arena included b
  g' ← settle (record g { val = free_value })
  some (ok, g')

unfoldable pub complete_object : Mask → SchemaNode → Bool
unfolding covers
complete_object emitted (object_of props required additional) = covers emitted required
complete_object emitted _ = true

-- The level above is the top again, its property settled.
unfoldable pub pop_level : GuideState → Option GuideState
unfolding top
pop_level g =
    if ltb 0 g.depth
    then (do l ← top g; some (set_top (record l { cur_prop = none }) g))
    else some g

unfoldable pub close_container : Arena → GuideState → Option (Bool × GuideState)
unfolding top complete_object pop_level
close_container arena g =
    if ltb 0 g.overflow
    then some (true, record g { overflow = g.overflow - 1 })
    else if g.depth == 0
    then some (true, g)
    else (do
      level ← top g
      n ← node arena level.schema
      g' ← pop_level (record g { depth = g.depth - 1; val = free_value })
      some (complete_object level.emitted n, g'))

-- The literals of an enum, or the property names of an object, that go on with `b`.
unfoldable pub scan_enum : ℕ → ℕ → SchemaNode → Mask → Mask
unfolding scan
scan_enum b pos (enum_of lits) alive = scan b pos lits alive
scan_enum b pos _ alive = alive

unfoldable pub scan_key : ℕ → ℕ → SchemaNode → Mask → Mask
unfolding scan names
scan_key b pos (object_of props required additional) alive = scan b pos (names props) alive
scan_key b pos _ alive = alive

-- A content byte of the current scalar or key.
unfoldable pub content : ValCtx → Arena → ℕ → Events → GuideState → Option (Bool × GuideState)
unfolding scan_enum scan_key is_zero top
content free_value arena b ev g = some (true, g)
content int_number arena b ev g = some (not (b == b'.' || b == b'e' || b == b'E'), g)
content (enum_scan id alive pos) arena b ev g =
    if ev.key_end || ev.scalar_end || ev.object_close || ev.array_close then some (true, g) else (do
      n ← node arena id
      let next = scan_enum b pos n alive
      some (
        not (is_zero next),
        record g { val = enum_scan id next (if is_zero next then pos else (pos + 1) % 2 ^ 16) },
      ))
content (key_scan alive pos any) arena b ev g = if ev.key_end then some (true, g) else (do
  level ← top g
  n ← node arena level.schema
  let next = scan_key b pos n alive
  let dead = is_zero next && not any
  some (not dead, record g { val = key_scan next (if dead then pos else (pos + 1) % 2 ^ 16) any }))

-- A step that is skipped, or whose refusal ends the byte.
unfoldable pub guarded :
    Bool
    → (GuideState → Option (Bool × GuideState))
    → Option (Bool × GuideState)
    → Option (Bool × GuideState)
guarded on f none = none
guarded on f (some (false, g)) = some (false, g)
guarded on f (some (true, g)) = if on then f g else some (true, g)

-- Whether another key may follow, as a step.
unfoldable pub key_room : Arena → GuideState → Option (Bool × GuideState)
unfolding has_available_key
key_room arena g = do ok ← has_available_key arena g; some (ok, g)

unfoldable pub key_start_step : Arena → GuideState → Option (Bool × GuideState)
unfolding key_room start_key
key_start_step arena g = do
  (ok, g') ← key_room arena g
  if ok then (do g'' ← start_key arena g'; some (true, g'')) else some (false, g')

unfoldable pub value_step : Arena → ℕ → ℕ → GuideState → Option (Bool × GuideState)
unfolding expected enter_value
value_step arena root b g = do id ← expected arena root g; enter_value arena id b g

-- The byte itself: a value, a key or content.
unfoldable pub byte_step : Arena → ℕ → ℕ → Events → GuideState → Option (Bool × GuideState)
unfolding value_step key_start_step content
byte_step arena root b ev g =
    if ev.value_start
    then value_step arena root b g
    else if ev.key_start
    then key_start_step arena g
    else content g.val arena b ev g

unfoldable pub on_byte : Arena → ℕ → ℕ → Events → Bool → GuideState → Option (Bool × GuideState)
unfolding guarded finish_scalar key_room byte_step finish_key close_container
on_byte arena root b ev was_num g =
    let settled =
      guarded (ev.scalar_end && was_num) (finish_scalar arena false b) (some (true, g)) in
    let comma = guarded ev.object_comma (key_room arena) settled in
    let moved = guarded true (byte_step arena root b ev) comma in
    let scalar = guarded (ev.scalar_end && not was_num) (finish_scalar arena true b) moved in
    let key = guarded ev.key_end (finish_key arena) scalar in
    guarded (ev.object_close || ev.array_close) (close_container arena) key
