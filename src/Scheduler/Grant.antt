-- ===== src/Scheduler/Grant.antt =====
-- src/scheduler/mod.rs, `schedule`: the decodes that sit on a block boundary get a block or are preempted.
use oxydllm.Base.{
  ℕ, zero, suc, ◌+◌, ◌≤◌, ◌<◌, ◌≡◌, ◌⊎◌, inl, inr, refl, ◌∙◌, true, List, ◌++◌, some, arith, leb,
  length, map, count, sum_by, u32_mod, Bool-cases,
}
use oxydllm.Lru.{LruCache}
use oxydllm.Paged.Allocator.{Allocator, num_free_blocks}
use oxydllm.PrefixCache.{Hasher, PrefixEntry, PrefixCache}
use oxydllm.PrefixCache.Accounts.{Accounts}
use oxydllm.PrefixCache.Evict.{cached, size, evict_lru-Accounts}
use oxydllm.Sequence.{SequenceState, decode}
use oxydllm.Scheduler.{ScheduledSequence}
use oxydllm.Scheduler.Schedule.{Progress, make_room}
use oxydllm.Scheduler.Good.{Good, is}
use oxydllm.Scheduler.Preempt.{Kept}

-- A decode of a sequence, as it is scheduled.
abbrev pub decoding : ℕ → ScheduledSequence
decoding k = record { id = k; phase = decode }

module _ (h : Hasher) (L : LruCache PrefixEntry) {Pool : Type 0} (g : ℕ → ℕ → ℕ)
    (reserved : ℕ) where
  -- The eviction loop ends before its fuel: with a block free beyond the reserved ones, or with nothing left
  -- to evict.
  pub record Roomy (pc : PrefixCache h L) (ls : List (Allocator Pool)) (fuel : ℕ) : Type 0 where
    pub pc' : PrefixCache h L
    pub ls' : List (Allocator Pool)
    pub made : make_room h L fuel reserved pc ls ≡ some (pc', ls')
    pub accounts : Accounts (λ l b. g l b + cached h L pc' l b) ls'
    pub fewer : (l b : ℕ) → cached h L pc' l b ≤ cached h L pc l b
    pub layers : length ls' ≡ length ls
    pub more_free : num_free_blocks ls ≤ num_free_blocks ls'
    pub ends : (reserved < num_free_blocks ls') ⊎ (pc'.disabled ≡ true) ⊎ (size h L pc' ≡ 0)

  pub make_room-Roomy :
      (fuel : ℕ) (pc : PrefixCache h L) (ls : List (Allocator Pool))
      → size h L pc < fuel
      → ((l b : ℕ) → g l b + cached h L pc l b < u32_mod)
      → Accounts (λ l b. g l b + cached h L pc l b) ls
      → Roomy pc ls fuel
  unfolding make_room
  make_room-Roomy zero pc ls enough small acc = absurd (omega arith)
  make_room-Roomy (suc fuel) pc ls enough small acc =
      elim (Bool-cases (leb (num_free_blocks ls) reserved)) [
        | inr free ↦ record {
          pc' = pc;
          ls' = ls;
          made = rw free refl;
          accounts = acc;
          fewer = λ l b. omega arith;
          layers = refl;
          more_free = omega arith;
          ends = inl (ground (arith, free));
        }
        | inl tight ↦
            let (dropped, pc1, ls1, r, e) = evict_lru-Accounts h L g pc ls small acc in
            elim (Bool-cases dropped) [
              | inl more ↦
                  let w =
                    make_room-Roomy fuel pc1 ls1 (ground (arith, e.size_after, more))
                      (λ l b. omega (arith, small l b, e.fewer l b)) e.accounts in
                  record {
                    pc' = w.pc';
                    ls' = w.ls';
                    made = ground (arith, tight, r, more, w.made);
                    accounts = w.accounts;
                    fewer = λ l b. omega (arith, w.fewer l b, e.fewer l b);
                    layers = w.layers ∙ e.layers;
                    more_free = omega (arith, w.more_free, e.more_free);
                    ends = w.ends;
                  }
              | inr done ↦ record {
                pc' = pc1;
                ls' = ls1;
                made = ground (arith, tight, r, done);
                accounts = e.accounts;
                fewer = e.fewer;
                layers = e.layers;
                more_free = e.more_free;
                ends = ground (arith, e.stops done, e.kept, e.size_after, done);
              }
            ]
      ]

module _ (h : Hasher) (L : LruCache PrefixEntry) {P C Pool : Type 0} where
  pub Kept-refl : (p : Progress h L P C Pool) → Good h L p.scheduler p.cache → Kept h L p p
  Kept-refl p v = record {
    good = v;
    same_ids = λ k. refl;
    more_free = omega arith;
    same_config = refl;
    same_block_size = refl;
  }

  pub Kept-trans : {p r t : Progress h L P C Pool} → Kept h L p r → Kept h L r t → Kept h L p t
  Kept-trans a b = record {
    good = b.good;
    same_ids = λ k. b.same_ids k ∙ a.same_ids k;
    more_free = omega (arith, a.more_free, b.more_free);
    same_config = b.same_config ∙ a.same_config;
    same_block_size = b.same_block_size ∙ a.same_block_size;
  }

  -- The scheduled list, the budget and the reservations are no part of it.
  pub Kept-marks :
      (p r : Progress h L P C Pool) (scheduled : List ScheduledSequence) (budget reserved : ℕ)
      → Kept h L p r
      → Kept h L p (record r { scheduled = scheduled; budget = budget; reserved = reserved })
  Kept-marks p r scheduled budget reserved k = record {
    good = k.good;
    same_ids = k.same_ids;
    more_free = k.more_free;
    same_config = k.same_config;
    same_block_size = k.same_block_size;
  }

  -- `r` is `p` after the prefix cache made room: the queues and what was scheduled are the same.
  pub record MadeRoom (p r : Progress h L P C Pool) : Type 0 where
    pub kept : Kept h L p r
    pub same_running : r.scheduler.running_set ≡ p.scheduler.running_set
    pub same_waiting : r.scheduler.waiting_queue ≡ p.scheduler.waiting_queue
    pub same_scheduled : r.scheduled ≡ p.scheduled
    pub same_budget : r.budget ≡ p.budget
    pub same_reserved : r.reserved ≡ p.reserved

  -- What the loop over the decodes in `ks` does: those in `granted` are scheduled, in order, each with a block reserved
  -- that is free; a sequence leaves the running set only where it is in `ks` and not granted.
  pub record Granted (ks : List ℕ) (p r : Progress h L P C Pool) : Type 0 where
    pub kept : Kept h L p r
    pub queue :
        (front : List (SequenceState P C)) × (r.scheduler.waiting_queue
          ≡ front ++ p.scheduler.waiting_queue)
    pub shrinks : length r.scheduler.running_set ≤ length p.scheduler.running_set
    pub granted : List ℕ
    pub scheduled : r.scheduled ≡ p.scheduled ++ map decoding granted
    pub among : (j : ℕ) → count j granted ≤ count j ks
    pub running :
        (j : ℕ)
        → sum_by (is j) p.scheduler.running_set + count j granted
          ≤ sum_by (is j) r.scheduler.running_set + count j ks
    pub spent : r.budget + length granted ≡ p.budget
    pub reserved_each : r.reserved ≡ p.reserved + length granted
    pub backed :
        p.reserved ≤ num_free_blocks p.scheduler.allocators
        → r.reserved ≤ num_free_blocks r.scheduler.allocators
