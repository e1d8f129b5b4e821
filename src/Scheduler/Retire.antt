-- ===== src/Scheduler/Retire.antt =====
-- src/scheduler/mod.rs, `retire_finished`: every finished sequence leaves, with its blocks given back.
use oxydllm.Base.{
  ℕ, ◌+◌, ◌≤◌, ◌<◌, ◌≡◌, refl, sym, ap, ◌∙◌, ◌⊎◌, inl, inr, List, [], ◌∷◌, ◌++◌, length,
  length-append, length-map, sum_by-append, get_elem?, Option, some, arith, count, sum_by, map,
}
use oxydllm.Lru.{LruCache}
use oxydllm.Paged.Allocator.{num_free_blocks}
use oxydllm.PrefixCache.{Hasher, PrefixEntry, PrefixCache}
use mathlib.Core.List.{map-append}
use oxydllm.Sequence.{SequenceState, SequenceStatus, finished, waiting, running}
use oxydllm.Scheduler.{
  Scheduler, CompletedSequence, retire_one, retire_ids, retire_finished, finished_ids,
}
use oxydllm.Scheduler.Index.{without_slot, remove_from_running-IndexOk}
use oxydllm.Scheduler.Good.{Good, is, slot_of, le-sum_by}
use oxydllm.Scheduler.Release.{release-Released}

status_cases : (s : SequenceStatus) → (s ≡ finished) ⊎ (s ≡ waiting) ⊎ (s ≡ running)
status_cases finished = inl refl
status_cases waiting = inr (inl refl)
status_cases running = inr (inr refl)

module _ {P C : Type 0} where
  -- One for a sequence that is finished.
  abbrev pub is_finished : SequenceState P C → ℕ
  is_finished q = elim q.status [ finished ↦ 1 | _ ↦ 0 ]

  abbrev finished_at : ℕ → SequenceState P C → ℕ
  finished_at j q = elim q.status [ finished ↦ is j q | _ ↦ 0 ]

  abbrev unfinished_at : ℕ → SequenceState P C → ℕ
  unfinished_at j q = elim q.status [ finished ↦ 0 | _ ↦ is j q ]

  count-finished_ids :
      (j : ℕ) (qs : List (SequenceState P C))
      → count j (finished_ids qs) ≡ sum_by (finished_at j) qs
  unfolding finished_ids
  count-finished_ids j [] = refl
  count-finished_ids j (q ∷ qs) = elim (status_cases q.status) [
    | inl e ↦ rw (finished_ids, e) (ground (arith, count-finished_ids j qs))
    | inr (inl e) ↦ rw (finished_ids, e) (omega (arith, count-finished_ids j qs))
    | inr (inr e) ↦ rw (finished_ids, e) (omega (arith, count-finished_ids j qs))
  ]

  length-finished_ids :
      (qs : List (SequenceState P C)) → length (finished_ids qs) ≡ sum_by is_finished qs
  unfolding finished_ids
  length-finished_ids [] = refl
  length-finished_ids (q ∷ qs) = elim (status_cases q.status) [
    | inl e ↦ rw (finished_ids, e) (omega (arith, length-finished_ids qs))
    | inr (inl e) ↦ rw (finished_ids, e) (omega (arith, length-finished_ids qs))
    | inr (inr e) ↦ rw (finished_ids, e) (omega (arith, length-finished_ids qs))
  ]

  sum_by-finished_at :
      (j : ℕ) (qs : List (SequenceState P C))
      → sum_by (finished_at j) qs + sum_by (unfinished_at j) qs ≡ sum_by (is j) qs
  sum_by-finished_at j [] = refl
  sum_by-finished_at j (q ∷ qs) = elim (status_cases q.status) [
    | inl e ↦ rw e (omega (arith, sum_by-finished_at j qs))
    | inr (inl e) ↦ rw e (omega (arith, sum_by-finished_at j qs))
    | inr (inr e) ↦ rw e (omega (arith, sum_by-finished_at j qs))
  ]

  -- Where the finished sequences alone have the name, the sequence of that name is finished.
  named-finished :
      (qs : List (SequenceState P C)) (i : ℕ) (q : SequenceState P C)
      → get_elem? qs i ≡ some q
      → 0 < sum_by (finished_at q.id) qs
      → sum_by (is q.id) qs ≤ 1
      → (is_finished q ≡ 1) × ((j : ℕ) → finished_at j q ≡ is j q)
  named-finished qs i q here some_done one = elim (status_cases q.status) [
    | inl e ↦ rw e (refl, λ j. refl)
    | inr (inl e) ↦ absurd (clash (rw e refl))
    | inr (inr e) ↦ absurd (clash (rw e refl))
  ]
    where
      clash : unfinished_at q.id q ≡ is q.id q → ⊥
      clash e =
          let self : is q.id q ≡ 1 = ground arith in
          omega (
            arith,
            e,
            self,
            le-sum_by (unfinished_at q.id) qs i q here,
            sum_by-finished_at q.id qs,
            some_done,
            one,
          )

module _ (h : Hasher) (L : LruCache PrefixEntry) {P C Pool : Type 0}
    (cache : Option (PrefixCache h L)) where
  -- The sequences of `ks` left the running set of `s`: they are `gone`, all of them finished.
  pub record Left (s : Scheduler P C Pool) (ks : List ℕ) (done : List CompletedSequence)
      (s' : Scheduler P C Pool) : Type 0 where
    pub good : Good h L s' cache
    pub gone : List (SequenceState P C)
    pub all_finished : sum_by is_finished gone ≡ length gone
    pub split :
        (f : SequenceState P C → ℕ)
        → sum_by f s'.running_set + sum_by f gone ≡ sum_by f s.running_set
    pub named : map (λ q. q.id) gone ≡ ks
    pub reported : map (λ c. c.id) done ≡ ks
    pub same_waiting : s'.waiting_queue ≡ s.waiting_queue
    pub more_free : num_free_blocks s.allocators ≤ num_free_blocks s'.allocators

  -- The finished sequences of `s`, and no others, left its running set, and were reported.
  pub record Retired (s : Scheduler P C Pool) (done : List CompletedSequence)
      (s' : Scheduler P C Pool) : Type 0 where
    pub good : Good h L s' cache
    pub gone : List (SequenceState P C)
    pub all_finished : sum_by is_finished gone ≡ length gone
    pub none_left : sum_by is_finished s'.running_set ≡ 0
    pub split :
        (f : SequenceState P C → ℕ)
        → sum_by f s'.running_set + sum_by f gone ≡ sum_by f s.running_set
    pub reported : map (λ c. c.id) done ≡ map (λ q. q.id) gone
    pub same_waiting : s'.waiting_queue ≡ s.waiting_queue
    pub more_free : num_free_blocks s.allocators ≤ num_free_blocks s'.allocators

  retire_one-Left :
      (k : ℕ) (s : Scheduler P C Pool)
      → Good h L s cache
      → 0 < sum_by (finished_at k) s.running_set
      → (d : CompletedSequence) × (s' : Scheduler P C Pool) × (retire_one k s ≡ some (d, s'))
        × Left s (k ∷ []) (d ∷ []) s'
        × ((j : ℕ)
            → sum_by (finished_at j) s'.running_set + count j (k ∷ [])
              ≡ sum_by (finished_at j) s.running_set)
  unfolding retire_one
  retire_one-Left k s v here =
      let (i, q, at, named) =
        slot_of k s.running_set (omega (arith, here, sum_by-finished_at k s.running_set)) in
      let (r, ok, gone) = remove_from_running-IndexOk s v.index_ok i q at in
      let t = without_slot s v.index_ok i q in
      let (q', ls, ds, e, same, w) =
        release-Released h L s cache v q t.running_set t.running_index t.waiting_queue ok
          (λ f. omega (arith, gone f)) in
      let done : (is_finished q ≡ 1) × ((j : ℕ) → finished_at j q ≡ is j q) =
        named-finished s.running_set i q at (rw named here) (omega (arith, v.distinct q.id)) in
      (
        record { id = q'.id; finish_reason = q'.finish_reason },
        record t { allocators = ls; draft_allocators = ds },
        ground (arith, v.index_ok.to_slot i q at, named, r, e),
        record {
          good = w.good;
          gone = q ∷ [];
          all_finished = omega (arith, done.0);
          split = λ f. omega (arith, gone f);
          named = ap (λ n. n ∷ []) named;
          reported = ap (λ n. n ∷ []) (same ∙ named);
          same_waiting = refl;
          more_free = w.more_free;
        },
        λ j. ground (arith, gone (finished_at j), done.1 j, named),
      )

  retire_ids-Left :
      (ks : List ℕ) (s : Scheduler P C Pool)
      → Good h L s cache
      → ((j : ℕ) → count j ks ≤ sum_by (finished_at j) s.running_set)
      → (done : List CompletedSequence) × (s' : Scheduler P C Pool) × (retire_ids ks s
          ≡ some (done, s'))
        × Left s ks done s'
  unfolding retire_ids
  retire_ids-Left [] s v runs = (
    [],
    s,
    refl,
    record {
      good = v;
      gone = [];
      all_finished = refl;
      split = λ f. omega arith;
      named = refl;
      reported = refl;
      same_waiting = refl;
      more_free = omega arith;
    },
  )
  retire_ids-Left (k ∷ ks) s v runs =
      let (d, s1, e, a, left) = retire_one-Left k s v (ground (arith, runs k)) in
      let (done, s2, f, b) = retire_ids-Left ks s1 a.good (λ j. ground (arith, runs j, left j)) in
      (
        d ∷ done,
        s2,
        rw (e, f) refl,
        record {
          good = b.good;
          gone = a.gone ++ b.gone;
          all_finished = omega (
            arith,
            a.all_finished,
            b.all_finished,
            sum_by-append is_finished a.gone b.gone,
            length-append a.gone b.gone,
          );
          split = λ g. omega (arith, a.split g, b.split g, sum_by-append g a.gone b.gone);
          named =
              map-append (λ q. q.id) a.gone b.gone
              ∙ ap (λ l. l ++ map (λ q. q.id) b.gone) a.named
              ∙ ap (λ l. k ∷ l) b.named;
          reported = cc (a.reported, b.reported);
          same_waiting = b.same_waiting ∙ a.same_waiting;
          more_free = omega (arith, a.more_free, b.more_free);
        },
      )

  -- From a good state `retire_finished` cannot panic and leaves a good state: the sequences that leave the running set are
  -- all finished, they are the ones reported, no finished sequence is left in it, every other stays, and free blocks do not
  -- become fewer.
  pub retire_finished-Retired :
      (s : Scheduler P C Pool)
      → Good h L s cache
      → (done : List CompletedSequence) × (s' : Scheduler P C Pool) × (retire_finished s
          ≡ some (done, s'))
        × Retired s done s'
  unfolding retire_finished
  retire_finished-Retired s v =
      let (done, s', e, t) =
        retire_ids-Left (finished_ids s.running_set) s v
          (λ j. omega (arith, count-finished_ids j s.running_set)) in
      let as_many : length t.gone ≡ length (finished_ids s.running_set) =
        sym (length-map t.gone (λ q. q.id)) ∙ ap length t.named in
      (
        done,
        s',
        e,
        record {
          good = t.good;
          gone = t.gone;
          all_finished = t.all_finished;
          none_left = omega (
            arith,
            t.split is_finished,
            t.all_finished,
            as_many,
            length-finished_ids s.running_set,
          );
          split = t.split;
          reported = t.reported ∙ sym t.named;
          same_waiting = t.same_waiting;
          more_free = t.more_free;
        },
      )
