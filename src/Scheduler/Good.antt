-- ===== src/Scheduler/Good.antt =====
-- src/scheduler/mod.rs: what holds of the scheduler, its allocators and the prefix cache between steps.
use oxydllm.Base.{
  ℕ, zero, suc, ◌+◌, ◌-◌, ◌≤◌, ◌<◌, ◌≡◌, inl, inr, refl, List, [], ◌∷◌, Option, none, some, arith,
  ◌==◌, if◌then◌else◌, length, get_elem?, sum_by, u32_mod, Option-cases, Bool-cases,
}
use oxydllm.Lru.{LruCache}
use oxydllm.PrefixCache.{Hasher, PrefixEntry, PrefixCache}
use oxydllm.PrefixCache.Accounts.{Accounts}
use oxydllm.PrefixCache.Evict.{cached}
use oxydllm.Sequence.{SequenceState}
use oxydllm.Sequence.Clear.{caches_hold}
use oxydllm.Scheduler.{Scheduler, index_get}
use oxydllm.Scheduler.Index.{IndexOk}

module _ {P C : Type 0} where
  abbrev pub is : ℕ → SequenceState P C → ℕ
  is k q = if q.id == k then 1 else 0

  abbrev pub holds_at : ℕ → ℕ → SequenceState P C → ℕ
  holds_at l b q = caches_hold q.caches l b

  abbrev pub draft_at : ℕ → ℕ → SequenceState P C → ℕ
  draft_at l b q = caches_hold q.draft_caches l b

  -- Zero where every layer of the sequence has an allocator.
  abbrev pub misfit : ℕ → ℕ → SequenceState P C → ℕ
  misfit layers draft_layers q = (length q.caches - layers) + (length q.draft_caches - draft_layers)

  pub le-sum_by :
      (f : SequenceState P C → ℕ) (xs : List (SequenceState P C)) (i : ℕ) (q : SequenceState P C)
      → get_elem? xs i ≡ some q
      → f q ≤ sum_by f xs
  le-sum_by f [] i q e = ground arith
  le-sum_by f (x ∷ xs) zero q e = ground arith
  le-sum_by f (x ∷ xs) (suc i) q e = omega (arith, le-sum_by f xs i q e)

  pub slot_of :
      (k : ℕ) (xs : List (SequenceState P C))
      → 0 < sum_by (is k) xs
      → (i : ℕ) × (q : SequenceState P C) × (get_elem? xs i ≡ some q) × (q.id ≡ k)
  slot_of k [] h = absurd (omega arith)
  slot_of k (x ∷ xs) h = elim (Bool-cases (x.id == k)) [
    | inl hit ↦ (0, x, refl, ground (arith, hit))
    | inr miss ↦ let (i, q, e, n) = slot_of k xs (ground (arith, miss)) in (suc i, q, e, n)
  ]

module _ {P C Pool : Type 0} where
  -- A weight summed over all sequences of the scheduler.
  abbrev pub tally : (SequenceState P C → ℕ) → Scheduler P C Pool → ℕ
  tally f s = sum_by f s.running_set + sum_by f s.waiting_queue

module _ (h : Hasher) (L : LruCache PrefixEntry) where
  abbrev pub cached_in : Option (PrefixCache h L) → ℕ → ℕ → ℕ
  cached_in none l b = 0
  cached_in (some pc) l b = cached h L pc l b

module _ (h : Hasher) (L : LruCache PrefixEntry) {P C Pool : Type 0} where
  -- The index holds the running slots; ids are distinct; and in every layer the allocator is well formed and
  -- counts exactly the references of the sequences and of the prefix cache.
  pub record Good (s : Scheduler P C Pool) (cache : Option (PrefixCache h L)) : Type 0 where
    pub index_ok : IndexOk s.running_set s.running_index
    pub distinct : (k : ℕ) → tally (is k) s ≤ 1
    pub layered : tally (misfit (length s.allocators) (length s.draft_allocators)) s ≡ 0
    pub accounts : Accounts (λ l b. tally (holds_at l b) s + cached_in h L cache l b) s.allocators
    pub drafts : Accounts (λ l b. tally (draft_at l b) s) s.draft_allocators
    pub small : (l b : ℕ) → tally (holds_at l b) s + cached_in h L cache l b < u32_mod
    pub draft_small : (l b : ℕ) → tally (draft_at l b) s < u32_mod

  -- A waiting id has no slot.
  pub fresh_id :
      (s : Scheduler P C Pool) (cache : Option (PrefixCache h L)) (k : ℕ)
      → Good s cache
      → 0 < sum_by (is k) s.waiting_queue
      → index_get k s.running_index ≡ none
  fresh_id s cache k v w = elim (Option-cases (index_get k s.running_index)) [
    | inl e ↦ e
    | inr (i, e) ↦
        let (q, here, named) = v.index_ok.from_slot k i e in
        absurd (ground (arith, v.distinct k, le-sum_by (is k) s.running_set i q here, named))
  ]
