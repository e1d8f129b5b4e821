-- ===== src/Tests/Pool.antt =====
-- src/common/paged.rs: the allocator's theorems at the pool of four blocks.
use oxydllm.Base.{[], ◌∷◌, refl, ℕ, ◌+◌, ◌<◌, ◌≡◌, some, arith, sub64-eq-sub}
use oxydllm.Paged.Allocator.{
  Allocator, ok, err, exhausted, num_free, allocate, growing, share, free,
}
use oxydllm.Paged.Allocator.Invariant.{Inv, refs, in_use, num_free-in_use}
use oxydllm.Paged.Allocator.Allocate.{Served, allocate-Served, allocate_exhausted, growing-Inv}
use oxydllm.Paged.Contig.{ContigBudget, ContigBufferPool, put}
use oxydllm.Paged.Contig.Bytes.{Budgeted, put-Budgeted}
use oxydllm.Paged.Allocator.Share.{share-Shared, Shared, free-Freed, Freed}
use oxydllm.Tests.Data.{
  extend, gives, four_fits, pool, pool-Inv, held_pool, held_pool-Inv, full_pool, full_pool-Inv,
}

growing-Inv_example :
    (a : Allocator ℕ) × (growing extend 4 2 2 0 ≡ ok a)
    × Inv a
    × (num_free a ≡ 4)
    × ((j : ℕ) → refs a j ≡ 0)
growing-Inv_example = growing-Inv extend gives 4 2 2 0 four_fits

num_free-in_use_example : num_free pool + in_use pool ≡ 4
num_free-in_use_example = num_free-in_use pool pool-Inv

some_free : 0 < num_free pool
unfolding num_free
some_free = omega arith

allocate-Served_example : Served pool (allocate extend pool)
allocate-Served_example = allocate-Served extend gives pool pool-Inv some_free

none_free : num_free full_pool ≡ 0
unfolding num_free
none_free = omega (arith, sub64-eq-sub 1 1)

allocate_exhausted_example : allocate extend full_pool ≡ err exhausted
allocate_exhausted_example = allocate_exhausted extend full_pool full_pool-Inv none_free

share-Shared_example : (a : Allocator ℕ) × (share 0 held_pool ≡ some a) × Shared held_pool 0 a
share-Shared_example = share-Shared held_pool 0 held_pool-Inv (omega arith) (omega arith)

free-Freed_example : (a : Allocator ℕ) × (free 0 held_pool ≡ some a) × Freed held_pool 0 a
free-Freed_example = free-Freed held_pool 0 held_pool-Inv (omega arith) (omega arith)

-- Two buffers of 2 and 3 tokens, eight bytes a token, beside 10 bytes of other pools, under a limit of 60 bytes.
abbrev buffers : ContigBufferPool
buffers = record { buffers = 3 ∷ 2 ∷ []; max_buffers = 2; bytes_per_token = 8 }

abbrev budget : ContigBudget
budget = record { limit = 60; held = 50 }

put-Budgeted_example : Budgeted 10 (put 4 budget buffers).0 (put 4 budget buffers).1
put-Budgeted_example =
    put-Budgeted 10 4 budget buffers (omega arith)
      (record { exact = refl; under = omega arith; few = omega arith })
