-- ===== src/Scheduler/Abort.antt =====
-- src/scheduler/mod.rs, `abort_sequence` and `abort_all`: aborted sequences leave with their blocks given back.
use oxydllm.Base.{
  ℕ, ◌+◌, ◌≤◌, ◌<◌, ◌≡◌, refl, inl, inr, Bool, true, false, List, [], ◌∷◌, Option, none, some,
  arith, ltb, ◌==◌, if◌then◌else◌, sum_by, Option-cases, Bool-cases,
}
use oxydllm.Lru.{LruCache}
use oxydllm.Paged.Allocator.{num_free_blocks}
use oxydllm.PrefixCache.{Hasher, PrefixEntry, PrefixCache}
use oxydllm.Sequence.{SequenceState}
use oxydllm.Scheduler.{Scheduler, index_get, remove_id, clear_into, abort_sequence}
use oxydllm.Scheduler.Index.{without_slot, remove_from_running-IndexOk}
use oxydllm.Scheduler.Good.{Good, is, tally, slot_of, le-sum_by}
use oxydllm.Scheduler.Release.{release-Released}

-- What `remove_id` finds: the first sequence of the id, and the list without it.
remove_id_lem :
    {P C : Type 0} (k : ℕ) (qs : List (SequenceState P C))
    → 0 < sum_by (is k) qs
    → (q : SequenceState P C) × (rest : List (SequenceState P C)) × (remove_id k qs
        ≡ some (q, rest))
      × (q.id ≡ k)
      × ((f : SequenceState P C → ℕ) → sum_by f rest + f q ≡ sum_by f qs)
unfolding remove_id
remove_id_lem k [] here = absurd (omega arith)
remove_id_lem k (x ∷ qs) here = elim (Bool-cases (x.id == k)) [
  | inl hit ↦ (x, qs, rw hit refl, ground (arith, hit), λ f. omega arith)
  | inr miss ↦
      let (q, rest, e, named, gone) = remove_id_lem k qs (ground (arith, miss)) in
      (q, x ∷ rest, rw (miss, e) refl, named, λ f. omega (arith, gone f))
]

remove_id-none :
    {P C : Type 0} (k : ℕ) (qs : List (SequenceState P C))
    → sum_by (is k) qs ≡ 0
    → remove_id k qs ≡ none
unfolding remove_id
remove_id-none k [] none_here = refl
remove_id-none k (x ∷ qs) none_here = elim (Bool-cases (x.id == k)) [
  | inl hit ↦ absurd (ground (arith, hit))
  | inr miss ↦ rw (miss, remove_id-none k qs (ground (arith, miss))) refl
]

module _ (h : Hasher) (L : LruCache PrefixEntry) {P C Pool : Type 0}
    (cache : Option (PrefixCache h L)) where
  -- The outcome of aborting `k`: whether it was there, and the scheduler without it.
  pub record Aborted (k : ℕ) (s : Scheduler P C Pool) (found : Bool) (s' : Scheduler P C Pool)
      : Type 0 where
    pub good : Good h L s' cache
    pub told : tally (is k) s ≡ (if found then 1 else 0)
    pub others :
        (j : ℕ)
        → tally (is j) s' + (if found then (if k == j then 1 else 0) else 0) ≡ tally (is j) s
    pub more_free : num_free_blocks s.allocators ≤ num_free_blocks s'.allocators

  module _ (k : ℕ) (s : Scheduler P C Pool) (v : Good h L s cache) where
    abbrev Outcome : Type 0
    Outcome =
        (found : Bool) × (s' : Scheduler P C Pool) × (abort_sequence k s ≡ some (found, s'))
        × Aborted k s found s'

    from_running : 0 < sum_by (is k) s.running_set → Outcome
    unfolding abort_sequence
    from_running here =
        let (i, q, at, named) = slot_of k s.running_set here in
        let (r, ok, gone) = remove_from_running-IndexOk s v.index_ok i q at in
        let t = without_slot s v.index_ok i q in
        let (q', ls, ds, e, same, w) =
          release-Released h L s cache v q t.running_set t.running_index t.waiting_queue ok
            (λ f. omega (arith, gone f)) in
        (
          true,
          record t { allocators = ls; draft_allocators = ds },
          ground (arith, v.index_ok.to_slot i q at, named, r, e),
          record {
            good = w.good;
            told = ground (arith, v.distinct k);
            others = λ j. ground (arith, w.others j, named);
            more_free = w.more_free;
          },
        )

    no_slot : sum_by (is k) s.running_set ≡ 0 → index_get k s.running_index ≡ none
    no_slot absent = elim (Option-cases (index_get k s.running_index)) [
      | inl e ↦ e
      | inr (i, e) ↦
          let (q, at, named) = v.index_ok.from_slot k i e in
          absurd (ground (arith, absent, le-sum_by (is k) s.running_set i q at, named))
    ]

    from_waiting : sum_by (is k) s.running_set ≡ 0 → 0 < sum_by (is k) s.waiting_queue → Outcome
    unfolding abort_sequence clear_into
    from_waiting absent here =
        let (q, rest, found, named, gone) = remove_id_lem k s.waiting_queue here in
        let (q', ls, ds, e, same, w) =
          release-Released h L s cache v q s.running_set s.running_index rest v.index_ok
            (λ f. omega (arith, gone f)) in
        (
          true,
          record s { waiting_queue = rest; allocators = ls; draft_allocators = ds },
          ground (arith, no_slot absent, found, e),
          record {
            good = w.good;
            told = ground (arith, v.distinct k);
            others = λ j. ground (arith, w.others j, named);
            more_free = w.more_free;
          },
        )

    nowhere : sum_by (is k) s.running_set ≡ 0 → sum_by (is k) s.waiting_queue ≡ 0 → Outcome
    unfolding abort_sequence
    nowhere absent absent' = (
      false,
      s,
      ground (arith, no_slot absent, remove_id-none k s.waiting_queue absent'),
      record { good = v; told = omega arith; others = λ j. omega arith; more_free = omega arith },
    )

    -- From a good state `abort_sequence` cannot panic and leaves a good state: it says whether the sequence was
    -- there, running or waiting, and takes that one and no other out, with its blocks given back.
    pub abort_sequence-Aborted : Outcome
    abort_sequence-Aborted = elim (Bool-cases (ltb 0 (sum_by (is k) s.running_set))) [
      | inl here ↦ from_running (ground (arith, here))
      | inr absent ↦ elim (Bool-cases (ltb 0 (sum_by (is k) s.waiting_queue))) [
        | inl queued ↦ from_waiting (ground (arith, absent)) (ground (arith, queued))
        | inr absent' ↦ nowhere (ground (arith, absent)) (ground (arith, absent'))
      ]
    ]
