-- ===== src/Scheduler/Preempt.antt =====
-- src/scheduler/mod.rs, `schedule`: the preempted sequence gives its blocks back and waits at the front.
use oxydllm.Base.{ℕ, ◌+◌, ◌≤◌, ◌≡◌, List, ◌∷◌, sum_by}
use oxydllm.Lru.{LruCache}
use oxydllm.Paged.Allocator.{Allocator, num_free_blocks}
use oxydllm.Paged.Cache.{KvCache}
use oxydllm.PrefixCache.{Hasher, PrefixEntry}
use oxydllm.Sequence.{SequenceState, prefill, waiting}
use oxydllm.Sequence.Clear.{Cleared}
use oxydllm.Scheduler.{Scheduler}
use oxydllm.Scheduler.Index.{IndexOk, without_slot}
use oxydllm.Scheduler.Schedule.{Progress}
use oxydllm.Scheduler.Good.{Good, is, holds_at, draft_at, tally, cached_in}

-- The sequence as it is queued again.
abbrev pub requeued :
    {P C : Type 0} → SequenceState P C → List KvCache → List KvCache → SequenceState P C
requeued q caches drafts = record q {
  caches = caches;
  draft_caches = drafts;
  num_processed_tokens = 0;
  phase = prefill;
  status = waiting;
}

module _ (h : Hasher) (L : LruCache PrefixEntry) {P C Pool : Type 0} where
  -- `p'` is `p` after a part of `schedule`: still good, with the same sequences and configuration.
  pub record Kept (p p' : Progress h L P C Pool) : Type 0 where
    pub good : Good h L p'.scheduler p'.cache
    pub same_ids : (k : ℕ) → tally (is k) p'.scheduler ≡ tally (is k) p.scheduler
    pub more_free : num_free_blocks p.scheduler.allocators ≤ num_free_blocks p'.scheduler.allocators
    pub same_config : p'.scheduler.config ≡ p.scheduler.config
    pub same_block_size : p'.scheduler.block_size ≡ p.scheduler.block_size

  module _ (k : ℕ) (p : Progress h L P C Pool) (v : Good h L p.scheduler p.cache) where
    abbrev s : Scheduler P C Pool
    s = p.scheduler

    -- The step after the sequence of slot `i` was removed and cleared.
    abbrev preempted :
        (i : ℕ) (q : SequenceState P C)
        → (List KvCache × List KvCache)
        → List (Allocator Pool)
        → List (Allocator Pool)
        → Progress h L P C Pool
    preempted i q (caches, drafts) ls ds =
        let t = without_slot s v.index_ok i q in
        record p {
          scheduler = record t {
            allocators = ls;
            draft_allocators = ds;
            waiting_queue = requeued q caches drafts ∷ t.waiting_queue;
          };
        }

    module _ (i : ℕ) (q : SequenceState P C)
        (index_ok : IndexOk
          (without_slot s v.index_ok i q).running_set
          (without_slot s v.index_ok i q).running_index)
        (gone : (f : SequenceState P C → ℕ)
          → sum_by f (without_slot s v.index_ok i q).running_set + f q ≡ sum_by f s.running_set)
        (c : Cleared q
          (λ l b. tally (holds_at l b) (without_slot s v.index_ok i q) + cached_in h L p.cache l b)
          (λ l b. tally (draft_at l b) (without_slot s v.index_ok i q))
          s.allocators
          s.draft_allocators) where
      abbrev after : Progress h L P C Pool
      after = preempted i q (c.caches, c.drafts) c.ls' c.ds'
