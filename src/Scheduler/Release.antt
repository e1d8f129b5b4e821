-- ===== src/Scheduler/Release.antt =====
-- src/scheduler/mod.rs: a sequence that leaves the scheduler gives its blocks back and nothing else changes.
use oxydllm.Base.{ℕ, ◌+◌, ◌≤◌, ◌≡◌, refl, ap, ◌∙◌, List, Option, some, arith, length}
use oxydllm.Lru.{LruCache}
use oxydllm.Paged.Allocator.{Allocator, num_free_blocks}
use oxydllm.PrefixCache.{Hasher, PrefixEntry, PrefixCache}
use oxydllm.PrefixCache.Accounts.{Accounts-eq}
use oxydllm.Sequence.{SequenceState, clear_caches}
use oxydllm.Sequence.Clear.{clear_caches-Cleared}
use oxydllm.Scheduler.{Scheduler}
use oxydllm.Scheduler.Index.{IndexOk}
use oxydllm.Scheduler.Good.{Good, is, holds_at, draft_at, misfit, tally, cached_in}

module _ (h : Hasher) (L : LruCache PrefixEntry) {P C Pool : Type 0} where
  -- `s'` is `s` without the sequence `q`, whose blocks were given back.
  pub record Released (s : Scheduler P C Pool) (cache : Option (PrefixCache h L))
      (q : SequenceState P C) (s' : Scheduler P C Pool) : Type 0 where
    pub good : Good h L s' cache
    pub others : (j : ℕ) → tally (is j) s' + is j q ≡ tally (is j) s
    pub more_free : num_free_blocks s.allocators ≤ num_free_blocks s'.allocators

  module _ (s : Scheduler P C Pool) (cache : Option (PrefixCache h L)) (v : Good h L s cache)
      (q : SequenceState P C) (rs : List (SequenceState P C)) (ri : List (ℕ × ℕ))
      (ws : List (SequenceState P C)) where
    abbrev without : Scheduler P C Pool
    without = record s { running_set = rs; running_index = ri; waiting_queue = ws }

    -- Once `q` is in neither list, its tables can be cleared.
    pub release-Released :
        IndexOk rs ri
        → ((f : SequenceState P C → ℕ) → tally f without + f q ≡ tally f s)
        → (q' : SequenceState P C) × (ls : List (Allocator Pool)) × (ds : List (Allocator Pool))
          × (clear_caches q s.allocators s.draft_allocators ≡ some (q', ls, ds))
          × (q'.id ≡ q.id)
          × Released s cache q (record without { allocators = ls; draft_allocators = ds })
    release-Released ok gone =
        let fits = gone (misfit (length s.allocators) (length s.draft_allocators)) in
        let c =
          clear_caches-Cleared q (λ l b. tally (holds_at l b) without + cached_in h L cache l b)
            (λ l b. tally (draft_at l b) without) s.allocators s.draft_allocators
            (omega (arith, v.layered)) (omega (arith, v.layered))
            (λ l b. omega (arith, v.small l b, gone (holds_at l b)))
            (λ l b. omega (arith, v.draft_small l b, gone (draft_at l b)))
            (Accounts-eq _ _ s.allocators (λ l b. omega (arith, gone (holds_at l b))) v.accounts)
            (Accounts-eq _ _ s.draft_allocators (λ l b. omega (arith, gone (draft_at l b)))
              v.drafts) in
        (
          record q { caches = c.caches; draft_caches = c.drafts },
          c.ls',
          c.ds',
          c.cleared,
          refl,
          record {
            good = record {
              index_ok = ok;
              distinct = λ k. omega (arith, v.distinct k, gone (is k));
              layered =
                  ap (λ x. tally (misfit x (length c.ds')) without) c.layers
                  ∙ ap (λ y. tally (misfit (length s.allocators) y) without) c.draft_layers
                  ∙ omega (arith, v.layered, fits);
              accounts = c.accounts;
              drafts = c.draft_accounts;
              small = λ l b. omega (arith, v.small l b, gone (holds_at l b));
              draft_small = λ l b. omega (arith, v.draft_small l b, gone (draft_at l b));
            };
            others = λ j. gone (is j);
            more_free = c.more_free;
          },
        )
