-- ===== src/Scheduler/Drain.antt =====
-- src/scheduler/mod.rs, `abort_all`: with every sequence gone, only the prefix cache holds blocks.
use oxydllm.Base.{
  ℕ, ◌+◌, ◌≤◌, ◌<◌, ◌≡◌, refl, ap, ◌∙◌, List, [], ◌∷◌, ◌++◌, Option, some, arith, length, sum_by,
  map, u32_mod,
}
use oxydllm.Lru.{LruCache}
use oxydllm.Paged.Allocator.{Allocator, num_free_blocks}
use oxydllm.PrefixCache.{Hasher, PrefixEntry, PrefixCache}
use oxydllm.PrefixCache.Accounts.{Accounts, Accounts-eq}
use oxydllm.Sequence.{SequenceState}
use oxydllm.Sequence.Clear.{clear_caches-Cleared}
use oxydllm.Scheduler.{Scheduler, index_get, abort_all, abort_all_running, clear_all}
use oxydllm.Scheduler.Index.{IndexOk}
use oxydllm.Scheduler.Good.{Good, holds_at, draft_at, misfit, cached_in}

module _ {P C Pool : Type 0} where
  -- Every table of `qs` was cleared: only the references of `g` and `d` are left.
  record Drained (qs : List (SequenceState P C)) (g d : ℕ → ℕ → ℕ) (ls ds : List (Allocator Pool))
      : Type 0 where
    ls' : List (Allocator Pool)
    ds' : List (Allocator Pool)
    cleared : clear_all qs ls ds ≡ some (ls', ds')
    accounts : Accounts g ls'
    draft_accounts : Accounts d ds'
    layers : length ls' ≡ length ls
    draft_layers : length ds' ≡ length ds
    more_free : num_free_blocks ls ≤ num_free_blocks ls'

  clear_all-Drained :
      (qs : List (SequenceState P C)) (g d : ℕ → ℕ → ℕ) (ls ds : List (Allocator Pool))
      → sum_by (misfit (length ls) (length ds)) qs ≡ 0
      → ((l b : ℕ) → g l b + sum_by (holds_at l b) qs < u32_mod)
      → ((l b : ℕ) → d l b + sum_by (draft_at l b) qs < u32_mod)
      → Accounts (λ l b. g l b + sum_by (holds_at l b) qs) ls
      → Accounts (λ l b. d l b + sum_by (draft_at l b) qs) ds
      → Drained qs g d ls ds
  unfolding clear_all
  clear_all-Drained [] g d ls ds fit small dsmall acc dacc = record {
    ls' = ls;
    ds' = ds;
    cleared = refl;
    accounts = Accounts-eq _ _ ls (λ l b. omega arith) acc;
    draft_accounts = Accounts-eq _ _ ds (λ l b. omega arith) dacc;
    layers = refl;
    draft_layers = refl;
    more_free = omega arith;
  }
  clear_all-Drained (q ∷ qs) g d ls ds fit small dsmall acc dacc =
      let c =
        clear_caches-Cleared q (λ l b. g l b + sum_by (holds_at l b) qs)
          (λ l b. d l b + sum_by (draft_at l b) qs) ls ds (omega (arith, fit)) (omega (arith, fit))
          (λ l b. omega (arith, small l b)) (λ l b. omega (arith, dsmall l b))
          (Accounts-eq _ _ ls (λ l b. omega arith) acc)
          (Accounts-eq _ _ ds (λ l b. omega arith) dacc) in
      let w =
        clear_all-Drained qs g d c.ls' c.ds'
          (ap (λ n. sum_by (misfit n (length c.ds')) qs) c.layers
            ∙ ap (λ n. sum_by (misfit (length ls) n) qs) c.draft_layers
            ∙ omega (arith, fit))
          (λ l b. omega (arith, small l b)) (λ l b. omega (arith, dsmall l b)) c.accounts
          c.draft_accounts in
      record {
        ls' = w.ls';
        ds' = w.ds';
        cleared = rw (c.cleared, w.cleared) refl;
        accounts = w.accounts;
        draft_accounts = w.draft_accounts;
        layers = w.layers ∙ c.layers;
        draft_layers = w.draft_layers ∙ c.draft_layers;
        more_free = omega (arith, w.more_free, c.more_free);
      }

no_slots : {P C : Type 0} → IndexOk {P = P} {C = C} [] []
unfolding index_get
no_slots = record { to_slot = λ i q e. absurd cc; from_slot = λ k i e. absurd cc }

module _ (h : Hasher) (L : LruCache PrefixEntry) {P C Pool : Type 0}
    (cache : Option (PrefixCache h L)) where
  -- Nothing runs or waits; in each layer the allocator counts the references of the prefix cache alone.
  pub record Emptied (s s' : Scheduler P C Pool) : Type 0 where
    pub good : Good h L s' cache
    pub none_running : s'.running_set ≡ []
    pub none_waiting : s'.waiting_queue ≡ []
    pub cache_alone : Accounts (λ l b. cached_in h L cache l b) s'.allocators
    pub drafts_free : Accounts (λ l b. 0) s'.draft_allocators
    pub more_free : num_free_blocks s.allocators ≤ num_free_blocks s'.allocators

  -- From a good state `abort_all` cannot panic: it returns the ids of the running sequences, then those of the
  -- waiting ones, leaves no sequence, and in each layer the blocks that the prefix cache does not hold are free.
  pub abort_all-Emptied :
      (s : Scheduler P C Pool)
      → Good h L s cache
      → (s' : Scheduler P C Pool) × (abort_all s
          ≡ some (map (λ q. q.id) s.running_set ++ map (λ q. q.id) s.waiting_queue, s'))
        × Emptied s s'
  unfolding abort_all abort_all_running
  abort_all-Emptied s v =
      let kept = λ (l b : ℕ). cached_in h L cache l b in
      let a =
        clear_all-Drained s.running_set (λ l b. sum_by (holds_at l b) s.waiting_queue + kept l b)
          (λ l b. sum_by (draft_at l b) s.waiting_queue) s.allocators s.draft_allocators
          (omega (arith, v.layered)) (λ l b. omega (arith, v.small l b))
          (λ l b. omega (arith, v.draft_small l b))
          (Accounts-eq _ _ s.allocators (λ l b. omega arith) v.accounts)
          (Accounts-eq _ _ s.draft_allocators (λ l b. omega arith) v.drafts) in
      let w =
        clear_all-Drained s.waiting_queue kept (λ l b. 0) a.ls' a.ds'
          (ap (λ n. sum_by (misfit n (length a.ds')) s.waiting_queue) a.layers
            ∙ ap (λ n. sum_by (misfit (length s.allocators) n) s.waiting_queue) a.draft_layers
            ∙ omega (arith, v.layered))
          (λ l b. omega (arith, v.small l b)) (λ l b. omega (arith, v.draft_small l b))
          (Accounts-eq _ _ a.ls' (λ l b. omega arith) a.accounts)
          (Accounts-eq _ _ a.ds' (λ l b. omega arith) a.draft_accounts) in
      (
        record s {
          running_set = [];
          running_index = [];
          waiting_queue = [];
          allocators = w.ls';
          draft_allocators = w.ds';
        },
        rw (a.cleared, w.cleared) refl,
        record {
          good = record {
            index_ok = no_slots;
            distinct = λ k. omega arith;
            layered = refl;
            accounts = Accounts-eq _ _ w.ls' (λ l b. omega arith) w.accounts;
            drafts = w.draft_accounts;
            small = λ l b. omega (arith, v.small l b);
            draft_small = λ l b. omega arith;
          };
          none_running = refl;
          none_waiting = refl;
          cache_alone = w.accounts;
          drafts_free = w.draft_accounts;
          more_free = omega (arith, a.more_free, w.more_free);
        },
      )
