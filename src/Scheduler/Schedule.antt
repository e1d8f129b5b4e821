-- ===== src/Scheduler/Schedule.antt =====
-- src/scheduler/mod.rs, `schedule`: decodes first, then preemption for want of blocks, then admission of
-- waiting prompts in order.
use oxydllm.Base.{
  ℕ, zero, suc, ◌+◌, ◌-◌, ◌/◌, ◌%◌, Bool, true, false, ◌&&◌, List, [], ◌∷◌, ◌++◌, Option, none,
  some, ltb, leb, ◌==◌, if◌then◌else◌, ◌>>=◌, length, min,
}
use oxydllm.Lru.{LruCache}
use oxydllm.Paged.Allocator.{Allocator, num_free_blocks}
use oxydllm.Paged.Cache.{div_ceil}
use oxydllm.PrefixCache.{Hasher, PrefixEntry, PrefixCache, count_cached_blocks, touch}
use oxydllm.PrefixCache.Evict.{size}
use oxydllm.PrefixCache.Update.{evict_lru}
use oxydllm.Scheduler.{
  Scheduler, ScheduledSequence, index_get, remove_from_running, push_to_running,
}
use oxydllm.Sequence.{SequenceState, prefill, decode, waiting, running, clear_caches}

-- `num_processed_tokens.is_multiple_of(block_size) && num_processed_tokens > 0`.
unfoldable pub decode_needs_new_block : {P C : Type 0} → ℕ → SequenceState P C → Bool
decode_needs_new_block block_size q =
    q.num_processed_tokens % block_size == 0 && ltb 0 q.num_processed_tokens

abbrev pub decodes : ℕ → ScheduledSequence
decodes k = record { id = k; phase = decode }

abbrev pub prefills : ℕ → ScheduledSequence
prefills k = record { id = k; phase = prefill }

-- The scan of the running set: what is scheduled, the budget left and who needs a block.
pub record Scan : Type 0 where
  pub scheduled : List ScheduledSequence
  pub budget : ℕ
  pub needing : List ℕ

unfoldable pub scan_one : {P C : Type 0} → ℕ → SequenceState P C → Scan → Scan
unfolding decode_needs_new_block
scan_one block_size q r =
    if decode_needs_new_block block_size q
    then record r { needing = r.needing ++ q.id ∷ [] }
    else if ltb 0 r.budget
    then record r { scheduled = r.scheduled ++ decodes q.id ∷ []; budget = r.budget - 1 }
    else r

unfoldable pub scan_running : {P C : Type 0} → ℕ → List (SequenceState P C) → Scan → Scan
unfolding scan_one
scan_running block_size [] r = r
scan_running block_size (q ∷ qs) r = scan_running block_size qs (scan_one block_size q r)

module _ (h : Hasher) (L : LruCache PrefixEntry) {Pool : Type 0} where
  -- `while self.num_free_blocks() <= reserved && pc.evict_lru(&self.allocators) {}`; the fuel is above the
  -- number of entries, and running out of it is `none`.
  unfoldable pub make_room :
      ℕ
      → ℕ
      → PrefixCache h L
      → List (Allocator Pool)
      → Option (PrefixCache h L × List (Allocator Pool))
  make_room zero reserved pc ls = none
  make_room (suc fuel) reserved pc ls =
      if leb (num_free_blocks ls) reserved
      then (do
        (dropped, pc', ls') ← evict_lru h L pc ls
        let rest = make_room fuel reserved pc' ls'
        if dropped then rest else some (pc', ls'))
      else some (pc, ls)

module _ (h : Hasher) (L : LruCache PrefixEntry) {P C : Type 0} where
  unfoldable pub blocks_needed_for_prefill : ℕ → SequenceState P C → Option (PrefixCache h L) → ℕ
  unfolding div_ceil
  blocks_needed_for_prefill block_size q prefix_cache =
      let total_tokens = length q.all_tokens in
      let max_cacheable = (total_tokens - 1) / block_size in
      let cached : ℕ = elim prefix_cache [
        | none ↦ 0
        | some pc ↦ min (count_cached_blocks h L q.all_tokens block_size pc) max_cacheable
      ] in
      div_ceil total_tokens block_size - cached

module _ (h : Hasher) (L : LruCache PrefixEntry) (P C Pool : Type 0) where
  -- The variables of `schedule`.
  pub record Progress : Type 0 where
    pub scheduler : Scheduler P C Pool
    pub cache : Option (PrefixCache h L)
    pub scheduled : List ScheduledSequence
    pub budget : ℕ
    pub reserved : ℕ

  -- The variables of the admission loop.
  pub record Admission : Type 0 where
    pub progress : Progress
    pub free_blocks : ℕ
    pub prefill_scheduled : Bool

module _ (h : Hasher) (L : LruCache PrefixEntry) {P C Pool : Type 0} where
  -- The prefix cache, if there is one, gives up entries until a block beyond the reserved ones is free.
  unfoldable pub room : Progress h L P C Pool → Option (Progress h L P C Pool)
  unfolding make_room
  room p = elim p.cache [
    | none ↦ some p
    | some pc ↦ do
      (pc', ls) ← make_room h L (size h L pc + 1) p.reserved pc p.scheduler.allocators
      let s = p.scheduler
      some (record p { cache = some pc'; scheduler = record s { allocators = ls } })
  ]

  -- The sequence loses its blocks and goes to the front of the queue.
  unfoldable pub preempt : ℕ → Progress h L P C Pool → Option (Progress h L P C Pool)
  preempt k p = do
    i ← index_get k p.scheduler.running_index
    (q, s) ← remove_from_running i p.scheduler
    (q', ls, ds) ← clear_caches q s.allocators s.draft_allocators
    some (record p {
      scheduler = record s {
        allocators = ls;
        draft_allocators = ds;
        waiting_queue =
            record q' { num_processed_tokens = 0; phase = prefill; status = waiting }
            ∷ s.waiting_queue;
      };
    })

  -- One decode that sits on a block boundary.
  unfoldable pub grant_block : ℕ → Progress h L P C Pool → Option (Progress h L P C Pool)
  unfolding room preempt
  grant_block k p = do
    r ← room p
    if ltb r.reserved (num_free_blocks r.scheduler.allocators)
        then some (
            if ltb 0 r.budget
            then record r {
              scheduled = r.scheduled ++ decodes k ∷ [];
              budget = r.budget - 1;
              reserved = r.reserved + 1;
            }
            else r)
        else preempt k r

  unfoldable pub grant_blocks : List ℕ → Progress h L P C Pool → Option (Progress h L P C Pool)
  unfolding grant_block
  grant_blocks [] p = some p
  grant_blocks (k ∷ ks) p = do p' ← grant_block k p; grant_blocks ks p'

  -- The eviction loop for a prompt, on fuel above the number of entries: the cache, the allocators, the
  -- blocks needed and the blocks free after it.
  unfoldable pub make_prefill_room :
      ℕ
      → ℕ
      → ℕ
      → SequenceState P C
      → PrefixCache h L
      → List (Allocator Pool)
      → ℕ
      → ℕ
      → Option (PrefixCache h L × List (Allocator Pool) × ℕ × ℕ)
  make_prefill_room zero block_size reserved q pc ls needed free = none
  make_prefill_room (suc fuel) block_size reserved q pc ls needed free =
      if ltb free needed
      then (do
        (dropped, pc', ls') ← evict_lru h L pc ls
        let free' = num_free_blocks ls' - reserved
        let needed' = blocks_needed_for_prefill h L block_size q (some pc')
        let rest = make_prefill_room fuel block_size reserved q pc' ls' needed' free'
        if dropped then rest else some (pc', ls', needed, free))
      else some (pc, ls, needed, free)

  -- The blocks the prompt needs, once the cache has given up what it must.
  unfoldable pub prefill_room :
      SequenceState P C → Admission h L P C Pool → Option (ℕ × Admission h L P C Pool)
  unfolding make_prefill_room blocks_needed_for_prefill
  prefill_room q a =
      let p = a.progress in
      let s = p.scheduler in
      let needed = blocks_needed_for_prefill h L s.block_size q p.cache in
      elim p.cache [
        | none ↦ some (needed, a)
        | some pc ↦
            if ltb a.free_blocks needed
            then (do
              (pc', ls, needed', free') ←
                  make_prefill_room (size h L pc + 1) s.block_size p.reserved q
                    (touch h L q.all_tokens s.block_size pc) s.allocators needed a.free_blocks
              some (
                needed',
                record a {
                  progress = record p {
                    cache = some pc';
                    scheduler = record s { allocators = ls };
                  };
                  free_blocks = free';
                },
              ))
            else some (needed, a)
      ]

  -- The prompt leaves the queue, whose rest is `rest`, and runs.
  unfoldable pub admit :
      SequenceState P C
      → List (SequenceState P C)
      → ℕ
      → Admission h L P C Pool
      → Admission h L P C Pool
  unfolding push_to_running
  admit q rest needed a =
      let p = a.progress in
      let s = p.scheduler in
      record a {
        progress = record p {
          scheduled = p.scheduled ++ prefills q.id ∷ [];
          budget = p.budget - length q.all_tokens;
          scheduler =
              push_to_running (record q { status = running; phase = prefill })
                (record s { waiting_queue = rest });
        };
        free_blocks = a.free_blocks - needed;
        prefill_scheduled = true;
      }

  -- The admission loop, over what is left of the waiting queue.
  unfoldable pub admit_from :
      List (SequenceState P C) → Admission h L P C Pool → Option (Admission h L P C Pool)
  unfolding prefill_room admit
  admit_from [] a = some a
  admit_from (q ∷ rest) a =
      if ltb (length a.progress.scheduler.running_set) a.progress.scheduler.config.max_num_sequences
        && ltb 0 a.progress.budget
      then (do
        (needed, b) ← prefill_room q a
        let further = admit_from rest (admit q rest needed b)
        if ltb b.free_blocks needed
            then some b
            else if ltb b.progress.budget (length q.all_tokens) && b.prefill_scheduled
            then some b
            else further)
      else some a

  abbrev pub start : Scheduler P C Pool → Option (PrefixCache h L) → Progress h L P C Pool
  start s cache =
      let r =
        scan_running s.block_size s.running_set
          (record { scheduled = []; budget = s.config.max_tokens_per_step; needing = [] }) in
      record {
        scheduler = s;
        cache = cache;
        scheduled = r.scheduled;
        budget = r.budget;
        reserved = 0;
      }

  abbrev pub needing_block : Scheduler P C Pool → List ℕ
  needing_block s =
      (scan_running s.block_size s.running_set
        (record { scheduled = []; budget = s.config.max_tokens_per_step; needing = [] })).needing

  abbrev pub admission : Progress h L P C Pool → Admission h L P C Pool
  admission p = record {
    progress = p;
    free_blocks = num_free_blocks p.scheduler.allocators - p.reserved;
    prefill_scheduled = false;
  }

  -- `Scheduler::schedule`: the scheduled sequences, the scheduler and the prefix cache after it.
  unfoldable pub schedule :
      Scheduler P C Pool → Option (PrefixCache h L) → Option (Progress h L P C Pool)
  unfolding scan_running grant_blocks admit_from
  schedule s cache = do
    p ← grant_blocks (needing_block s) (start s cache)
    a ← admit_from p.scheduler.waiting_queue (admission p)
    some a.progress
