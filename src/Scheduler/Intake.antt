-- ===== src/Scheduler/Intake.antt =====
-- src/scheduler/mod.rs, `add_request_full`: a request waits behind all others and holds no block yet.
use oxydllm.Base.{
  ℕ, zero, suc, ◌+◌, ◌%◌, ◌≤◌, ◌≡◌, refl, List, [], ◌∷◌, ◌++◌, Option, none, some, arith, length,
  sum_by-append, u64_mod,
}
use oxydllm.Lru.{LruCache}
use oxydllm.Paged.Allocator.{Allocator}
use oxydllm.Paged.Cache.{KvCache, new}
use oxydllm.PrefixCache.{Hasher, PrefixEntry, PrefixCache}
use oxydllm.PrefixCache.Accounts.{Accounts-eq}
use oxydllm.Sequence.{SequenceState, waiting, prefill}
use oxydllm.Sequence.Clear.{caches_hold}
use oxydllm.Scheduler.{Scheduler, new_caches, count_tokens, add_request_full}
use oxydllm.Scheduler.Good.{Good, is, holds_at, draft_at, misfit, tally}

fresh-holds :
    {Pool : Type 0} (a : Allocator Pool) (caches : List KvCache)
    → ((l b : ℕ) → caches_hold caches l b ≡ 0)
    → (l b : ℕ) → caches_hold (new a ∷ caches) l b ≡ 0
unfolding new
fresh-holds a caches rest zero b = refl
fresh-holds a caches rest (suc l) b = rest l b

new_caches_lem :
    {Pool : Type 0} (n : ℕ) (ls : List (Allocator Pool))
    → n ≤ length ls
    → (caches : List KvCache) × (new_caches n ls ≡ some caches)
      × (length caches ≡ n)
      × ((l b : ℕ) → caches_hold caches l b ≡ 0)
unfolding new_caches new
new_caches_lem zero ls fit = ([], refl, refl, (λ l b. refl))
new_caches_lem (suc n) [] fit = absurd (omega arith)
new_caches_lem (suc n) (a ∷ ls) fit =
    let (caches, e, m, none_held) = new_caches_lem n ls (omega arith) in
    (new a ∷ caches, rw e refl, omega (arith, m), fresh-holds a caches none_held)

module _ (h : Hasher) (L : LruCache PrefixEntry) {P C Pool : Type 0}
    (cache : Option (PrefixCache h L)) where
  -- `s'` is `s` with a request for `tokens` at the end of the waiting queue.
  pub record Queued (tokens : List ℕ) (s s' : Scheduler P C Pool) : Type 0 where
    pub good : Good h L s' cache
    pub entry : SequenceState P C
    pub waits_last : s'.waiting_queue ≡ s.waiting_queue ++ entry ∷ []
    pub named : entry.id ≡ s.next_id
    pub counted_on : s'.next_id ≡ (s.next_id + 1) % u64_mod
    pub holds_prompt : entry.all_tokens ≡ tokens
    pub same_running : s'.running_set ≡ s.running_set
    pub same_allocators : s'.allocators ≡ s.allocators

  -- A request added to a good state whose next id no sequence has, with an allocator for each layer, cannot
  -- fail: it returns the next id, which counts on by one, the sequence waits behind all others, and the state is good.
  pub add_request_full-Queued :
      (tokens : List ℕ) (p : P) (max_tokens : ℕ) (c : Option C) (s : Scheduler P C Pool)
      → Good h L s cache
      → tally (is s.next_id) s ≡ 0
      → s.num_layers ≤ length s.allocators
      → s.draft_num_layers ≤ length s.draft_allocators
      → (s' : Scheduler P C Pool) × (add_request_full tokens p max_tokens c s
          ≡ some (s.next_id, s'))
        × Queued tokens s s'
  unfolding add_request_full
  add_request_full-Queued tokens p max_tokens c s v unused fit draft_fit =
      let (caches, e, n, none_held) = new_caches_lem s.num_layers s.allocators fit in
      let (drafts, de, dn, none_drafted) =
        new_caches_lem s.draft_num_layers s.draft_allocators draft_fit in
      let q : SequenceState P C = record {
        id = s.next_id;
        num_generated = 0;
        all_tokens = tokens;
        token_counts = count_tokens tokens [];
        sampling_params = p;
        status = waiting;
        phase = prefill;
        caches = caches;
        draft_caches = drafts;
        num_processed_tokens = 0;
        max_tokens = max_tokens;
        finish_reason = none;
        constraint = c;
      } in
      let grown = λ (f : SequenceState P C → ℕ). sum_by-append f s.waiting_queue (q ∷ []) in
      let fits : SequenceState P C → ℕ = misfit (length s.allocators) (length s.draft_allocators) in
      (
        record s { next_id = (s.next_id + 1) % u64_mod; waiting_queue = s.waiting_queue ++ q ∷ [] },
        rw (e, de) refl,
        record {
          good = record {
            index_ok = v.index_ok;
            distinct = λ k. ground (arith, v.distinct k, grown (is k), unused);
            layered = omega (arith, v.layered, grown fits, n, dn);
            accounts =
                Accounts-eq _ _ s.allocators
                  (λ l b. omega (arith, grown (holds_at l b), none_held l b)) v.accounts;
            drafts =
                Accounts-eq _ _ s.draft_allocators
                  (λ l b. omega (arith, grown (draft_at l b), none_drafted l b)) v.drafts;
            small = λ l b. omega (arith, v.small l b, grown (holds_at l b), none_held l b);
            draft_small =
                λ l b. omega (arith, v.draft_small l b, grown (draft_at l b), none_drafted l b);
          };
          entry = q;
          counted_on = refl;
          waits_last = refl;
          named = refl;
          holds_prompt = refl;
          same_running = refl;
          same_allocators = refl;
        },
      )
