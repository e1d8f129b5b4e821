-- ===== src/Tests/Data.antt =====
-- Concrete data: a device that always gives its slots, a pool of four blocks grown two at a time, an LRU list
-- and a hasher that sums.
use oxydllm.Base.{
  true, ℕ, ◌+◌, ◌*◌, ◌<◌, ◌≡◌, refl, false, List, [], ◌∷◌, Option, none, some, arith, count,
  get_elem?, zero, suc, u64_mod,
}
use oxydllm.Lru.{LruCache, listed}
use oxydllm.Paged.Allocator.{Allocator}
use oxydllm.Paged.Allocator.Counts.{is_free}
use oxydllm.Paged.Allocator.Invariant.{Inv}
use oxydllm.Paged.Allocator.Allocate.{Gives}
use oxydllm.PrefixCache.{Hasher, PrefixEntry, PrefixCache}
use oxydllm.Sequence.{SequenceState, prefill, decode, waiting, running}
use oxydllm.Scheduler.{Scheduler}

abbrev pub extend : ℕ → ℕ → Option ℕ
extend slots p = some (p + slots)

pub gives : Gives extend
gives slots p = (p + slots, refl)

pub four_fits : 4 < u64_mod
four_fits = omega arith

pool_exact : (b : ℕ) → count b (0 ∷ 1 ∷ []) ≡ is_free (get_elem? (0 ∷ 0 ∷ []) b)
pool_exact zero = refl
pool_exact (suc zero) = refl
pool_exact (suc (suc b)) = ground arith

held_exact : (b : ℕ) → count b (1 ∷ []) ≡ is_free (get_elem? (1 ∷ 0 ∷ []) b)
held_exact zero = refl
held_exact (suc zero) = refl
held_exact (suc (suc b)) = ground arith

full_exact : (b : ℕ) → count b [] ≡ is_free (get_elem? (1 ∷ []) b)
full_exact zero = refl
full_exact (suc b) = refl

-- Two blocks of the first segment, free.
abbrev pub pool : Allocator ℕ
pool = record {
  pool = 4;
  free_list = 0 ∷ 1 ∷ [];
  ref_counts = 0 ∷ 0 ∷ [];
  num_blocks = 2;
  max_blocks = 4;
  segment_blocks = 2;
  block_size = 2;
  sliding_window = none;
}

pub pool-Inv : Inv pool
pool-Inv = record {
  counted = refl;
  under_ceiling = omega arith;
  fits_usize = omega arith;
  segment_pos = omega arith;
  free_length = refl;
  free_exact = pool_exact;
}

-- The same pool with block 0 held once.
abbrev pub held_pool : Allocator ℕ
held_pool = record pool { free_list = 1 ∷ []; ref_counts = 1 ∷ 0 ∷ [] }

pub held_pool-Inv : Inv held_pool
held_pool-Inv = record {
  counted = refl;
  under_ceiling = omega arith;
  fits_usize = omega arith;
  segment_pos = omega arith;
  free_length = refl;
  free_exact = held_exact;
}

-- A pool of one block, which is held.
abbrev pub full_pool : Allocator ℕ
full_pool = record pool {
  free_list = [];
  ref_counts = 1 ∷ [];
  num_blocks = 1;
  max_blocks = 1;
  segment_blocks = 1;
}

pub full_pool-Inv : Inv full_pool
full_pool-Inv = record {
  counted = refl;
  under_ceiling = omega arith;
  fits_usize = omega arith;
  segment_pos = omega arith;
  free_length = refl;
  free_exact = full_exact;
}

abbrev pub lru : LruCache PrefixEntry
lru = listed PrefixEntry

abbrev pub sum_tokens : List ℕ → ℕ
sum_tokens [] = 0
sum_tokens (t ∷ tokens) = t + 31 * sum_tokens tokens

abbrev pub hasher : Hasher
hasher = record {
  State = ℕ;
  default = 0;
  write_u64 = λ k s. k + 31 * s;
  write_tokens = λ ts s. sum_tokens ts + 31 * s;
  finish = λ s. s;
}

abbrev pub empty_cache : PrefixCache hasher lru
empty_cache = record { entries = record { cap = 2; items = [] }; disabled = false }

-- A running sequence that holds block 0 and sits on a block boundary, and a waiting one that holds nothing.
abbrev pub runner : SequenceState ℕ ℕ
runner = record {
  id = 7;
  num_generated = 1;
  all_tokens = 1 ∷ 2 ∷ 3 ∷ [];
  token_counts = [];
  sampling_params = 0;
  status = running;
  phase = decode;
  caches =
      record {
        block_ids = 0 ∷ [];
        num_tokens = 2;
        cached_slots = [];
        block_size = 2;
        contig_len = 0;
        contig_start = 0;
        contig_cap = none;
        window = none;
        pending_writes = [];
        pool_writes = true;
      }
      ∷ [];
  draft_caches = [];
  num_processed_tokens = 2;
  max_tokens = 5;
  finish_reason = none;
  constraint = none;
}

abbrev pub waiter : SequenceState ℕ ℕ
waiter = record {
  id = 8;
  num_generated = 0;
  all_tokens = 1 ∷ 2 ∷ [];
  token_counts = [];
  sampling_params = 0;
  status = waiting;
  phase = prefill;
  caches =
      record {
        block_ids = [];
        num_tokens = 0;
        cached_slots = [];
        block_size = 2;
        contig_len = 0;
        contig_start = 0;
        contig_cap = none;
        window = none;
        pending_writes = [];
        pool_writes = true;
      }
      ∷ [];
  draft_caches = [];
  num_processed_tokens = 0;
  max_tokens = 5;
  finish_reason = none;
  constraint = none;
}

abbrev pub scheduler : Scheduler ℕ ℕ ℕ
scheduler = record {
  config = record { max_num_sequences = 2; max_tokens_per_step = 8 };
  waiting_queue = waiter ∷ [];
  running_set = runner ∷ [];
  running_index = (7, 0) ∷ [];
  allocators = held_pool ∷ [];
  draft_allocators = [];
  draft_num_layers = 0;
  next_id = 9;
  num_layers = 1;
  block_size = 2;
}
