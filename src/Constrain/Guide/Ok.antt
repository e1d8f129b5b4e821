-- ===== src/Constrain/Guide/Ok.antt =====
-- src/constrain.rs, `GuideState`: what it means that an arena and a guide are well formed.
use oxydllm.Base.{
  ℕ, zero, suc, ◌≤◌, ◌<◌, ◌≡◌, refl, sym, Bool, List, [], ◌∷◌, Option, none, some, length,
  get_elem?, subst, replicate, arith,
}
use oxydllm.Constrain.Schema.{
  Mask, SchemaNode, any_value, object_of, array_of, string_value, number_value, boolean_value,
  null_value, enum_of, Arena, node,
}
use oxydllm.Constrain.Guide.{
  Level, ValCtx, free_value, enum_scan, key_scan, int_number, GuideState, guided_depth, no_level,
  new_guide, key_context,
}

-- Every id of the properties is below `size`.
abbrev pub IdsBelow : ℕ → List (List ℕ × ℕ) → Type 0
IdsBelow size [] = Unit
IdsBelow size (p ∷ props) = (p.1 < size) × IdsBelow size props

abbrev pub NodeOk : ℕ → SchemaNode → Type 0
NodeOk size (object_of props required additional) = IdsBelow size props
NodeOk size (array_of items) = items < size
NodeOk size _ = Unit

-- Every node names nodes of the arena.
abbrev pub ArenaOk : Arena → Type 0
ArenaOk arena =
    (0 < length arena)
    × ((i : ℕ) (n : SchemaNode) → node arena i ≡ some n → NodeOk (length arena) n)

-- The pending property is one of the node's.
abbrev pub CurOk : SchemaNode → Option ℕ → Type 0
CurOk (object_of props required additional) (some i) = i < length props
CurOk _ _ = Unit

pub record LevelOk (arena : Arena) (l : Level) : Type 0 where
  pub known : l.schema < length arena
  pub pending : (n : SchemaNode) → node arena l.schema ≡ some n → CurOk n l.cur_prop

abbrev pub ValOk : Arena → ℕ → ValCtx → Type 0
ValOk arena depth free_value = Unit
ValOk arena depth (enum_scan id alive pos) = id < length arena
ValOk arena depth (key_scan alive pos any) = 0 < depth
ValOk arena depth int_number = Unit

pub record GuideOk (arena : Arena) (g : GuideState) : Type 0 where
  pub size : length g.levels ≡ guided_depth
  pub shallow : g.depth ≤ guided_depth
  pub levels_ok : (i : ℕ) (l : Level) → get_elem? g.levels i ≡ some l → LevelOk arena l
  pub val_ok : ValOk arena g.depth g.val

-- No panic, and the state after it is well formed.
pub data Safe (arena : Arena) : Option (Bool × GuideState) → Type 0 where
  safe : {b : Bool} {g : GuideState} → GuideOk arena g → Safe arena (some (b, g))

pub some_same : {A : Type 0} {o : Option A} (a b : A) → o ≡ some a → o ≡ some b → a ≡ b
some_same a b e f = cc

-- No property is pending.
pub CurOk-none : (n : SchemaNode) → CurOk n none
CurOk-none any_value = tt
CurOk-none (object_of props required additional) = tt
CurOk-none (array_of items) = tt
CurOk-none string_value = tt
CurOk-none (number_value integer) = tt
CurOk-none boolean_value = tt
CurOk-none null_value = tt
CurOk-none (enum_of literals) = tt

pub ids-lt :
    (size : ℕ) (props : List (List ℕ × ℕ)) (i : ℕ) (p : List ℕ × ℕ)
    → IdsBelow size props
    → get_elem? props i ≡ some p
    → p.1 < size
ids-lt size [] i p below e = absurd cc
ids-lt size (q ∷ props) zero p below e =
    subst (λ (x : List ℕ × ℕ). x.1 < size) (some_same q p refl e) below.0
ids-lt size (q ∷ props) (suc i) p below e = ids-lt size props i p below.1 e

pub key_context-Ok :
    (emitted : Mask) (n : SchemaNode) (arena : Arena) (d : ℕ)
    → 0 < d
    → ValOk arena d (key_context emitted n)
unfolding key_context
key_context-Ok emitted (object_of props required additional) arena d pos = pos
key_context-Ok emitted any_value arena d pos = tt
key_context-Ok emitted (array_of items) arena d pos = tt
key_context-Ok emitted string_value arena d pos = tt
key_context-Ok emitted (number_value integer) arena d pos = tt
key_context-Ok emitted boolean_value arena d pos = tt
key_context-Ok emitted null_value arena d pos = tt
key_context-Ok emitted (enum_of literals) arena d pos = tt

replicate-same : {A : Type 0} (n i : ℕ) (x y : A) → get_elem? (replicate n x) i ≡ some y → y ≡ x
replicate-same zero i x y e = absurd cc
replicate-same (suc n) zero x y e = cc
replicate-same (suc n) (suc i) x y e = replicate-same n i x y e

-- A new guide is well formed.
pub new_guide-Ok : (arena : Arena) → ArenaOk arena → GuideOk arena new_guide
unfolding new_guide
new_guide-Ok arena ok = record {
  size = refl;
  shallow = omega arith;
  levels_ok = λ i l e.
      subst (LevelOk arena) (sym (replicate-same guided_depth i no_level l e))
        (record { known = ok.0; pending = λ n f. CurOk-none n });
  val_ok = tt;
}
