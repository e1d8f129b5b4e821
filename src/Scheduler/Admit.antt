-- ===== src/Scheduler/Admit.antt =====
-- src/scheduler/mod.rs, `schedule`: the admission of waiting prompts, first come first served.
use oxydllm.Base.{
  ℕ, zero, suc, ◌+◌, ◌-◌, ◌≤◌, ◌<◌, ◌≡◌, inl, inr, refl, ap, ◌∙◌, List, some, arith, ltb, length,
  u32_mod, Option-cases, Bool-cases,
}
use oxydllm.Lru.{LruCache}
use oxydllm.Paged.Allocator.{Allocator, num_free_blocks}
use oxydllm.PrefixCache.{Hasher, PrefixEntry, PrefixCache, touch}
use oxydllm.PrefixCache.Accounts.{Accounts, Accounts-eq}
use oxydllm.PrefixCache.Evict.{cached, size, one, entry_holds, evict_lru-Accounts}
use oxydllm.PrefixCache.Lookup.{total-touch}
use oxydllm.Sequence.{SequenceState}
use oxydllm.Scheduler.Schedule.{
  Admission, make_prefill_room, blocks_needed_for_prefill, prefill_room,
}
use oxydllm.Scheduler.Good.{Good, holds_at, misfit, tally}
use oxydllm.Scheduler.Preempt.{Kept}
use oxydllm.Scheduler.Grant.{Kept-refl}

module _ (h : Hasher) (L : LruCache PrefixEntry) {P C Pool : Type 0} (g : ℕ → ℕ → ℕ)
    (block_size reserved : ℕ) (q : SequenceState P C) where
  -- The eviction loop for a prompt ends before its fuel.
  pub record Fitted (pc : PrefixCache h L) (ls : List (Allocator Pool)) (fuel needed free : ℕ)
      : Type 0 where
    pub pc' : PrefixCache h L
    pub ls' : List (Allocator Pool)
    pub needed' : ℕ
    pub free' : ℕ
    pub made :
        make_prefill_room h L fuel block_size reserved q pc ls needed free
        ≡ some (pc', ls', needed', free')
    pub accounts : Accounts (λ l b. g l b + cached h L pc' l b) ls'
    pub fewer : (l b : ℕ) → cached h L pc' l b ≤ cached h L pc l b
    pub layers : length ls' ≡ length ls
    pub more_free : num_free_blocks ls ≤ num_free_blocks ls'

  make_prefill_room-Fitted :
      (fuel : ℕ) (pc : PrefixCache h L) (ls : List (Allocator Pool)) (needed free : ℕ)
      → size h L pc < fuel
      → ((l b : ℕ) → g l b + cached h L pc l b < u32_mod)
      → Accounts (λ l b. g l b + cached h L pc l b) ls
      → Fitted pc ls fuel needed free
  unfolding make_prefill_room
  make_prefill_room-Fitted zero pc ls needed free enough small acc = absurd (omega arith)
  make_prefill_room-Fitted (suc fuel) pc ls needed free enough small acc =
      elim (Bool-cases (ltb free needed)) [
        | inr fits ↦ record {
          pc' = pc;
          ls' = ls;
          needed' = needed;
          free' = free;
          made = rw fits refl;
          accounts = acc;
          fewer = λ l b. omega arith;
          layers = refl;
          more_free = omega arith;
        }
        | inl tight ↦
            let (dropped, pc1, ls1, r, e) = evict_lru-Accounts h L g pc ls small acc in
            elim (Bool-cases dropped) [
              | inl more ↦
                  let w =
                    make_prefill_room-Fitted fuel pc1 ls1
                      (blocks_needed_for_prefill h L block_size q (some pc1))
                      (num_free_blocks ls1 - reserved) (ground (arith, e.size_after, more))
                      (λ l b. omega (arith, small l b, e.fewer l b)) e.accounts in
                  record {
                    pc' = w.pc';
                    ls' = w.ls';
                    needed' = w.needed';
                    free' = w.free';
                    made = ground (arith, tight, r, more, w.made);
                    accounts = w.accounts;
                    fewer = λ l b. omega (arith, w.fewer l b, e.fewer l b);
                    layers = w.layers ∙ e.layers;
                    more_free = omega (arith, w.more_free, e.more_free);
                  }
              | inr done ↦ record {
                pc' = pc1;
                ls' = ls1;
                needed' = needed;
                free' = free;
                made = ground (arith, tight, r, done);
                accounts = e.accounts;
                fewer = e.fewer;
                layers = e.layers;
                more_free = e.more_free;
              }
            ]
      ]

module _ (h : Hasher) (L : LruCache PrefixEntry) {P C Pool : Type 0} where
  -- `b` is `a` after the cache made room for a prompt.
  pub record RoomFor (a b : Admission h L P C Pool) : Type 0 where
    pub kept : Kept h L a.progress b.progress
    pub same_running : b.progress.scheduler.running_set ≡ a.progress.scheduler.running_set
    pub same_waiting : b.progress.scheduler.waiting_queue ≡ a.progress.scheduler.waiting_queue
    pub same_scheduled : b.progress.scheduled ≡ a.progress.scheduled

  module _ (q : SequenceState P C) (a : Admission h L P C Pool)
      (v : Good h L a.progress.scheduler a.progress.cache) where
    unchanged : RoomFor a a
    unchanged = record {
      kept = Kept-refl h L a.progress v;
      same_running = refl;
      same_waiting = refl;
      same_scheduled = refl;
    }

    with_cache :
        (pc : PrefixCache h L)
        → a.progress.cache ≡ some pc
        → (n : ℕ) × (b : Admission h L P C Pool) × (prefill_room h L q a ≡ some (n, b))
          × RoomFor a b
    unfolding prefill_room
    with_cache pc e =
        let p = a.progress in
        let s = p.scheduler in
        let needed = blocks_needed_for_prefill h L s.block_size q (some pc) in
        let own : ℕ → ℕ → ℕ = λ l b. tally (holds_at l b) s in
        let touched = touch h L q.all_tokens s.block_size pc in
        let same = λ (l b : ℕ). total-touch h L (entry_holds l b) q.all_tokens s.block_size pc in
        elim (Bool-cases (ltb a.free_blocks needed)) [
          | inr fits ↦ (needed, a, ground (arith, e, fits), unchanged)
          | inl tight ↦
              let w =
                make_prefill_room-Fitted h L own s.block_size p.reserved q (size h L pc + 1) touched
                  s.allocators needed a.free_blocks
                  (omega (arith, total-touch h L one q.all_tokens s.block_size pc))
                  (λ l b. omega (arith, rw e at (v.small l b), same l b))
                  (Accounts-eq _ _ s.allocators (λ l b. omega (arith, same l b))
                    (rw e at v.accounts)) in
              (
                w.needed',
                record a {
                  progress = record p {
                    cache = some w.pc';
                    scheduler = record s { allocators = w.ls' };
                  };
                  free_blocks = w.free';
                },
                ground (arith, e, tight, w.made),
                record {
                  kept = record {
                    good = record {
                      index_ok = v.index_ok;
                      distinct = v.distinct;
                      layered =
                          ap (λ n. tally (misfit n (length s.draft_allocators)) s) w.layers
                          ∙ v.layered;
                      accounts = w.accounts;
                      drafts = v.drafts;
                      small = λ l b. omega (arith, rw e at (v.small l b), w.fewer l b, same l b);
                      draft_small = v.draft_small;
                    };
                    same_ids = λ k. refl;
                    more_free = w.more_free;
                    same_config = refl;
                    same_block_size = refl;
                  };
                  same_running = refl;
                  same_waiting = refl;
                  same_scheduled = refl;
                },
              )
        ]

    pub prefill_room-RoomFor :
        (n : ℕ) × (b : Admission h L P C Pool) × (prefill_room h L q a ≡ some (n, b)) × RoomFor a b
    unfolding prefill_room
    prefill_room-RoomFor = elim (Option-cases a.progress.cache) [
      | inl e ↦ (
        blocks_needed_for_prefill h L a.progress.scheduler.block_size q a.progress.cache,
        a,
        ground (arith, e),
        unchanged,
      )
      | inr (pc, e) ↦ with_cache pc e
    ]
