-- ===== src/Manager/Evict.antt =====
-- src/models/manager.rs: eviction for memory ends, and takes ready models only, the least recently used first.
use oxydllm.Base.{
  ℕ, zero, suc, ◌+◌, ◌-◌, ◌≤◌, ◌<◌, ◌≡◌, refl, ◌∙◌, ◌⊎◌, inl, inr, List, [], ◌∷◌, some, leb, length,
  sum_by, Bool-cases, Option-cases, arith, leb→le,
}
use oxydllm.Paged.Contig.{give_back}
use oxydllm.Manager.{
  ReadySlot, SlotState, ModelManager, slot_bytes, total_loaded_bytes, least_recent, remove_slot,
  held_by, evict_lru_one, evict_until, evict_lru_for_bytes, budget_of,
}
use oxydllm.Manager.Slots.{
  Unique, Since, loads, Removed, remove_slot-Removed, least_recent-none, least_recent-Oldest,
}

-- The flags of the models that were evicted, the last one first.
abbrev pub flags_of : List ReadySlot → List ℕ → List ℕ
flags_of [] stopped = stopped
flags_of (s ∷ victims) stopped = flags_of victims (s.shutdown ∷ stopped)

-- Every ready model in `slots` was used when the models in the list were, or later.
abbrev pub AllBefore : List ReadySlot → List (ℕ × SlotState) → Type 0
AllBefore [] slots = Unit
AllBefore (s ∷ victims) slots = Since s.last_used slots × AllBefore victims slots

abbrev without : ℕ → ReadySlot → ModelManager → ModelManager
without id s m = record m {
  kv_budget = record (m.kv_budget) {
    allocated_bytes = m.kv_budget.allocated_bytes - s.kv_cache_bytes;
  };
  slots = remove_slot id m.slots;
  stopped = s.shutdown ∷ m.stopped;
}

-- What the eviction comes to: `victims` are gone and the caches' bytes given back, their flags are set and no model that is
-- left was used before one of them; the models that load are as before; and what is needed fits, or all that is left loads.
pub record Evicted (budget needed evicted : ℕ) (m : ModelManager) (evicted' : ℕ) (m' : ModelManager)
    : Type 0 where
  pub victims : List ReadySlot
  pub count : evicted' ≡ evicted + length victims
  pub fewer : length m.slots ≡ length victims + length m'.slots
  pub bytes : total_loaded_bytes m.slots ≡ sum_by slot_bytes victims + total_loaded_bytes m'.slots
  pub given :
      m'.kv_budget.allocated_bytes
      ≡ m.kv_budget.allocated_bytes - sum_by (λ s. s.kv_cache_bytes) victims
  pub flags : m'.stopped ≡ flags_of victims m.stopped
  pub oldest : AllBefore victims m'.slots
  pub loads_kept : loads m'.slots ≡ loads m.slots
  pub fits :
      (total_loaded_bytes m'.slots + needed ≤ budget) ⊎ (length (loads m'.slots) ≡ length m'.slots)
  pub unique : Unique m'.slots
  pub since : (t : ℕ) → Since t m.slots → Since t m'.slots

unchanged :
    (budget needed evicted : ℕ) (m : ModelManager)
    → Unique m.slots
    → (total_loaded_bytes m.slots + needed ≤ budget) ⊎ (length (loads m.slots) ≡ length m.slots)
    → Evicted budget needed evicted m evicted m
unchanged budget needed evicted m u fits = record {
  victims = [];
  count = omega arith;
  fewer = omega arith;
  bytes = omega arith;
  given = omega arith;
  flags = refl;
  oldest = tt;
  loads_kept = refl;
  fits = fits;
  unique = u;
  since = λ t h. h;
}

one_more :
    (budget needed evicted : ℕ) (m : ModelManager) (id : ℕ) (s : ReadySlot) (k : ℕ)
    (m' : ModelManager)
    → Removed m.slots (remove_slot id m.slots) s
    → Since s.last_used m.slots
    → Evicted budget needed (evicted + 1) (without id s m) k m'
    → Evicted budget needed evicted m k m'
one_more budget needed evicted m id s k m' r old h = record {
  victims = s ∷ h.victims;
  count = omega (arith, h.count);
  fewer = omega (arith, h.fewer, r.fewer);
  bytes = omega (arith, h.bytes, r.bytes);
  given = omega (arith, h.given);
  flags = h.flags;
  oldest = (h.since s.last_used (r.since s.last_used old), h.oldest);
  loads_kept = h.loads_kept ∙ r.loads_kept;
  fits = h.fits;
  unique = h.unique;
  since = λ t before. h.since t (r.since t before);
}

evict_until-Evicted :
    (n budget needed evicted : ℕ) (m : ModelManager)
    → Unique m.slots
    → length m.slots < n
    → (k : ℕ) × (m' : ModelManager) × (evict_until n budget needed evicted m ≡ some (k, m'))
      × Evicted budget needed evicted m k m'
unfolding evict_until evict_lru_one held_by give_back
evict_until-Evicted zero budget needed evicted m u fuel = absurd (omega arith)
evict_until-Evicted (suc n) budget needed evicted m u fuel =
    elim (Bool-cases (leb (total_loaded_bytes m.slots + needed) budget)) [
      | inl enough ↦ (
        evicted,
        m,
        rw (evict_until, enough) refl,
        unchanged budget needed evicted m u (inl (leb→le _ _ enough)),
      )
      | inr more ↦ elim (Option-cases (least_recent m.slots)) [
        | inl o ↦ (
          evicted,
          m,
          rw (evict_until, more, evict_lru_one, o) refl,
          unchanged budget needed evicted m u (inr (least_recent-none m.slots o).0),
        )
        | inr ((id, used), o) ↦
            let v = least_recent-Oldest m.slots id used u o in
            let s : ReadySlot = v.0 in
            let r : Removed m.slots (remove_slot id m.slots) s =
              remove_slot-Removed id m.slots s v.2.found in
            let m1 : ModelManager = without id s m in
            let rest =
              evict_until-Evicted n budget needed (evicted + 1) m1 (r.unique u)
                (omega (arith, r.fewer, fuel)) in
            (
              rest.0,
              rest.1,
              rw (evict_until, more, evict_lru_one, o, v.2.found) rest.2,
              one_more budget needed evicted m id s rest.0 rest.1 r v.2.oldest rest.3,
            )
      ]
    ]

-- Where every name has one slot, eviction for memory returns, with fuel for the slots and one more. The ready models that are
-- gone, as many as are counted, gave their caches' bytes back and have their flags set, none that is left was used before one
-- of them, the models that load are as before, the bytes of the gone and the left are those of the start, and what is needed
-- fits under the ceiling, or every slot that is left loads. The ceiling is the budget that is set, and where none is set the
-- machine's safe commitment.
pub evict_lru_for_bytes-Evicted :
    (safe needed : ℕ) (m : ModelManager)
    → Unique m.slots
    → (k : ℕ) × (m' : ModelManager) × (evict_lru_for_bytes safe (suc (length m.slots)) needed m
        ≡ some (k, m'))
      × Evicted (budget_of safe m.memory_budget_bytes) needed 0 m k m'
unfolding evict_lru_for_bytes
evict_lru_for_bytes-Evicted safe needed m u =
    evict_until-Evicted (suc (length m.slots)) (budget_of safe m.memory_budget_bytes) needed 0 m u
      (omega arith)
