-- ===== src/Tests/Append.antt =====
-- src/common/paged.rs, `append`: the theorem at a batch of three tokens in the pool of four blocks of two slots,
-- after a table with one token in block 0.
use oxydllm.Base.{
  zero, suc, some, ◌+◌, ◌<◌, count, u32_mod, ℕ, ◌≡◌, List, [], ◌∷◌, none, true, refl, arith,
}
use oxydllm.Paged.Allocator.{Allocator, num_free}
use oxydllm.Paged.Allocator.Invariant.{refs}
use oxydllm.Paged.Truncate.{TableOk, Truncated, truncate_to-Truncated}
use oxydllm.Paged.Cache.{div_ceil, truncate_to, KvCache, PendingRun}
use oxydllm.Paged.Append.{last_of, filled, stage, append_tokens}
use oxydllm.Paged.Append.Blocks.{Ready, append_tokens-Placed}
use oxydllm.Paged.Append.Placed.{Placed}
use oxydllm.Tests.Data.{extend, gives, held_pool, held_pool-Inv}

-- Block 0 holds one token.
abbrev table : KvCache
table = record {
  block_ids = 0 ∷ [];
  num_tokens = 1;
  cached_slots = 0 ∷ [];
  block_size = 2;
  contig_len = 0;
  contig_start = 0;
  contig_cap = none;
  window = none;
  pending_writes = [];
  pool_writes = true;
}

table-Ready : Ready 3 table held_pool
unfolding num_free last_of
table-Ready = record {
  inv = held_pool-Inv;
  block_pos = omega arith;
  table = record { full = 0; offset = 1; tokens = refl; below = omega arith; as_many = refl };
  slots_fit = omega arith;
  tail = λ inside. (0, refl, omega arith);
  space = omega arith;
}

append_tokens-Placed_example :
    (c' : KvCache) × (a' : Allocator ℕ) × (runs : List PendingRun) × (append_tokens extend 3 table
        held_pool
      ≡ filled (stage runs c') a' runs)
    × Placed 0 3 table held_pool [] c' a' runs
append_tokens-Placed_example = append_tokens-Placed extend gives 3 table held_pool table-Ready

-- One token is in block 0, which only this table holds.
held_once : (b : ℕ) → refs held_pool b ≡ 0 + count b (0 ∷ [])
held_once zero = refl
held_once (suc zero) = refl
held_once (suc (suc b)) = ground arith

few : (b : ℕ) → refs held_pool b < u32_mod
few zero = ground arith
few (suc zero) = ground arith
few (suc (suc b)) = ground arith

table-Ok : TableOk table
unfolding div_ceil
table-Ok = record { block_pos = omega arith; slots = refl; blocks = refl }

truncate_to-Truncated_example :
    (c' : KvCache) × (a' : Allocator ℕ) × (truncate_to 0 table held_pool ≡ some (c', a'))
    × Truncated (λ b. 0) 0 table held_pool c' a'
truncate_to-Truncated_example =
    truncate_to-Truncated (λ b. 0) 0 table held_pool table-Ok held_pool-Inv held_once few
