-- ===== src/Paged/Append.antt =====
-- src/common/paged.rs, `PagedKvCache::append`: the loop that takes blocks for new tokens, records their slots and
-- stages the runs of rows that go to the pool. The tensors behind a run are left out: a run names the rows.
pub mod Runs
pub mod Room
pub mod Placed
pub mod Table
pub mod Blocks
use oxydllm.Base.{
  ℕ, zero, suc, ◌+◌, ◌-◌, ◌*◌, ◌/◌, ◌%◌, ◌≡◌, min, Bool, true, false, not, ◌&&◌, List, [], ◌∷◌,
  ◌++◌, Option, none, some, ltb, leb, ◌==◌, if◌then◌else◌, length, get_elem?, u32_mod,
}
use oxydllm.Paged.Allocator.{Allocator, Result, ok, err, KvError, allocate}
use oxydllm.Paged.Cache.{KvCache, PendingRun}

-- The last run grows where `n` rows from `written` on go on with it; else a run begins.
unfoldable pub add_run : ℕ → ℕ → ℕ → List PendingRun → List PendingRun
add_run dst written n [] = record { dst_slot = dst; src_offset = written; n_tokens = n } ∷ []
add_run dst written n (r ∷ []) =
    if r.dst_slot + r.n_tokens == dst && r.src_offset + r.n_tokens == written
    then record r { n_tokens = r.n_tokens + n } ∷ []
    else r ∷ record { dst_slot = dst; src_offset = written; n_tokens = n } ∷ []
add_run dst written n (r ∷ s ∷ runs) = r ∷ add_run dst written n (s ∷ runs)

-- The slots of `n` tokens from `slot` on, as `u32`.
unfoldable pub slots_from : ℕ → ℕ → List ℕ
slots_from slot zero = []
slots_from slot (suc n) = slot % u32_mod ∷ slots_from (slot + 1) n

-- `block_ids.last()`.
unfoldable pub last_of : List ℕ → Option ℕ
last_of [] = none
last_of (x ∷ []) = some x
last_of (x ∷ y ∷ xs) = last_of (y ∷ xs)

-- `n` tokens of the batch, from row `written` on, at an offset in block `id`.
unfoldable pub place :
    ℕ → ℕ → ℕ → ℕ → KvCache → List PendingRun → Option (KvCache × List PendingRun)
unfolding add_run slots_from
place id offset written n c runs =
    if ltb (id * c.block_size) u32_mod
    then some (
      record c {
        cached_slots = c.cached_slots ++ slots_from (id * c.block_size + offset) n;
        num_tokens = c.num_tokens + n;
      },
      if c.pool_writes then add_run (id * c.block_size + offset) written n runs else runs,
    )
    else none

-- The batch is staged once it has a run.
unfoldable pub stage : List PendingRun → KvCache → KvCache
stage [] c = c
stage (r ∷ runs) c = record c { pending_writes = c.pending_writes ++ (r ∷ runs) ∷ [] }

-- How the loop ends: with all tokens in place, by an error of the allocator, by a panic, or, if the fuel is too
-- little, not at all.
pub data Appended (Pool : Type 0) : Type 0 where
  filled : KvCache → Allocator Pool → List PendingRun → Appended Pool
  failed : KvError → KvCache → Allocator Pool → Appended Pool
  panicked stuck : Appended Pool

module _ {Pool : Type 0} where
  -- A block for the next token: the last one, or a new one at a block's boundary.
  unfoldable pub block_for :
      (ℕ → Pool → Option Pool)
      → ℕ
      → KvCache
      → Allocator Pool
      → Result (Option ℕ × KvCache × Allocator Pool)
  unfolding last_of
  block_for extend offset c a =
      if offset == 0
      then elim (allocate extend a) [
        | ok (id, a') ↦ ok (some id, record c { block_ids = c.block_ids ++ id ∷ [] }, a')
        | err e ↦ err e
      ]
      else ok (last_of c.block_ids, c, a)

  -- The loop's body after the block is known, for `n` tokens at `offset`.
  unfoldable pub fill_block :
      ℕ
      → ℕ
      → ℕ
      → KvCache
      → Allocator Pool
      → List PendingRun
      → Result (Option ℕ × KvCache × Allocator Pool)
      → Appended Pool
  fill_block offset n written c a runs (err e) = failed e c a
  fill_block offset n written c a runs (ok (none, c1, a1)) = panicked
  fill_block offset n written c a runs (ok (some id, c1, a1)) =
      elim (place id offset written n c1 runs) [
        | none ↦ panicked
        | some (c2, runs2) ↦ filled c2 a1 runs2
      ]

  -- The loop, with `left` tokens to go.
  unfoldable pub append_loop :
      (ℕ → Pool → Option Pool)
      → ℕ
      → ℕ
      → ℕ
      → KvCache
      → Allocator Pool
      → List PendingRun
      → Appended Pool
  append_loop extend fuel zero written c a runs = filled c a runs
  append_loop extend zero (suc left) written c a runs = stuck
  append_loop extend (suc fuel) (suc left) written c a runs =
      let offset = c.num_tokens % c.block_size in
      let n = min (suc left) (c.block_size - offset) in
      elim (fill_block offset n written c a runs (block_for extend offset c a)) [
        | filled c' a' runs' ↦ append_loop extend fuel (suc left - n) (written + n) c' a' runs'
        | failed e c' a' ↦ failed e c' a'
        | panicked ↦ panicked
        | stuck ↦ stuck
      ]

  -- The part of `append` before the contiguous buffer, for a batch of `new_seq` tokens.
  unfoldable pub append_tokens :
      (ℕ → Pool → Option Pool) → ℕ → KvCache → Allocator Pool → Appended Pool
  unfolding append_loop stage
  append_tokens extend new_seq c a = elim (append_loop extend new_seq new_seq 0 c a []) [
    | filled c' a' runs ↦ filled (stage runs c') a' runs
    | failed e c' a' ↦ failed e c' a'
    | panicked ↦ panicked
    | stuck ↦ stuck
  ]
