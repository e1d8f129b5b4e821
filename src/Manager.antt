-- ===== src/Manager.antt =====
-- src/models/manager.rs: the slots of `ModelManager` and their eviction for memory. A model's name is a number, and so is
-- an `Instant`; the flags that end engine loops are numbers, and those that were set stand in `stopped`. Eviction reads of a
-- slot only what stands here.
pub mod Slots
pub mod Evict
use oxydllm.Base.{
  ℕ, zero, suc, ◌+◌, Bool, List, [], ◌∷◌, Option, none, some, ltb, leb, ◌==◌, if◌then◌else◌, ◌>>=◌,
  sum_by,
}
use oxydllm.Paged.Contig.{GlobalKvBudget, give_back}

pub record ReadySlot : Type 0 where
  pub last_used : ℕ
  pub weights_size_bytes : ℕ
  pub kv_cache_bytes : ℕ
  pub shutdown : ℕ

-- A slot that loads holds those who wait for it.
pub data SlotState : Type 0 where
  loading : List ℕ → SlotState
  ready : ReadySlot → SlotState

pub record ModelManager : Type 0 where
  pub slots : List (ℕ × SlotState)
  pub memory_budget_bytes : Option ℕ
  pub kv_budget : GlobalKvBudget
  pub stopped : List ℕ

abbrev pub slot_bytes : ReadySlot → ℕ
slot_bytes s = s.weights_size_bytes + s.kv_cache_bytes

unfoldable pub total_loaded_bytes : List (ℕ × SlotState) → ℕ
total_loaded_bytes [] = 0
total_loaded_bytes ((id, loading waiters) ∷ slots) = total_loaded_bytes slots
total_loaded_bytes ((id, ready s) ∷ slots) = slot_bytes s + total_loaded_bytes slots

-- The first ready slot that was used least recently, as its name and when it was used.
unfoldable pub least_recent : List (ℕ × SlotState) → Option (ℕ × ℕ)
least_recent [] = none
least_recent ((id, loading waiters) ∷ slots) = least_recent slots
least_recent ((id, ready s) ∷ slots) = elim (least_recent slots) [
  | none ↦ some (id, s.last_used)
  | some (id', used) ↦ if leb s.last_used used then some (id, s.last_used) else some (id', used)
]

-- `HashMap::get` and `HashMap::remove`.
unfoldable pub slot_of : ℕ → List (ℕ × SlotState) → Option SlotState
slot_of id [] = none
slot_of id ((id', s) ∷ slots) = let rest = slot_of id slots in if id' == id then some s else rest

unfoldable pub remove_slot : ℕ → List (ℕ × SlotState) → List (ℕ × SlotState)
remove_slot id [] = []
remove_slot id ((id', s) ∷ slots) =
    let rest = remove_slot id slots in if id' == id then slots else (id', s) ∷ rest

-- The bytes of the slot, those of its cache, and its flag.
unfoldable pub held_by : Option SlotState → ℕ × ℕ × Option ℕ
held_by (some (ready s)) = (slot_bytes s, s.kv_cache_bytes, some s.shutdown)
held_by _ = (0, 0, none)

abbrev pub raise : Option ℕ → List ℕ → List ℕ
raise none stopped = stopped
raise (some flag) stopped = flag ∷ stopped

unfoldable pub evict_lru_one : ModelManager → Option ((ℕ × ℕ) × ModelManager)
unfolding least_recent slot_of remove_slot held_by give_back
evict_lru_one m = do
  (id, used) ← least_recent m.slots
  let (freed, kv_bytes, shutdown) = held_by (slot_of id m.slots)
  some (
    (id, freed),
    record m {
      kv_budget = give_back kv_bytes m.kv_budget;
      slots = remove_slot id m.slots;
      stopped = raise shutdown m.stopped;
    },
  )

-- The loop; `none` is too little fuel.
unfoldable pub evict_until : ℕ → ℕ → ℕ → ℕ → ModelManager → Option (ℕ × ModelManager)
unfolding evict_lru_one total_loaded_bytes
evict_until zero budget needed_bytes evicted m = none
evict_until (suc n) budget needed_bytes evicted m =
    if leb (total_loaded_bytes m.slots + needed_bytes) budget
    then some (evicted, m)
    else elim (evict_lru_one m) [
      | none ↦ some (evicted, m)
      | some (freed, m') ↦ evict_until n budget needed_bytes (evicted + 1) m'
    ]

-- `safe` is the share of the machine's memory that is the ceiling where no budget is set.
abbrev pub budget_of : ℕ → Option ℕ → ℕ
budget_of safe none = safe
budget_of safe (some budget) = budget

unfoldable pub evict_lru_for_bytes : ℕ → ℕ → ℕ → ModelManager → Option (ℕ × ModelManager)
unfolding evict_until
evict_lru_for_bytes safe fuel needed_bytes m =
    evict_until fuel (budget_of safe m.memory_budget_bytes) needed_bytes 0 m
