-- ===== src/Paged/Cache.antt =====
-- src/common/paged.rs, `PagedKvCache`: the block table of one layer of a sequence and its token counts. The
-- tensors (the contiguous window, the writes not yet flushed and the recurrent state) are left out.
use oxydllm.Base.{
  Bool, true, ℕ, ◌+◌, ◌-◌, ◌*◌, ◌/◌, ◌%◌, List, [], ◌∷◌, ◌++◌, Option, none, some, ltb, leb, ◌==◌,
  if◌then◌else◌, ◌>>=◌, length, get_elem?, take, drop, range, u32_mod,
}
use oxydllm.Paged.Allocator.{Allocator, share, free}

-- A contiguous run of a staged append: `n_tokens` rows of the batch from `src_offset` on belong at `dst_slot`.
pub record PendingRun : Type 0 where
  pub dst_slot : ℕ
  pub src_offset : ℕ
  pub n_tokens : ℕ

-- `contig_cap` is the capacity of the contiguous buffers, where the cache has them.
pub record KvCache : Type 0 where
  pub block_ids : List ℕ
  pub num_tokens : ℕ
  pub cached_slots : List ℕ
  pub block_size : ℕ
  pub contig_len : ℕ
  pub contig_start : ℕ
  pub contig_cap : Option ℕ
  pub window : Option ℕ
  pub pending_writes : List (List PendingRun)
  pub pool_writes : Bool

unfoldable pub new {ℓ} : {Pool : Type ℓ} → Allocator Pool → KvCache
new a = record {
  block_ids = [];
  num_tokens = 0;
  cached_slots = [];
  block_size = a.block_size;
  contig_len = 0;
  contig_start = 0;
  contig_cap = none;
  window = a.sliding_window;
  pending_writes = [];
  pool_writes = true;
}

-- `usize::div_ceil`.
unfoldable pub div_ceil : ℕ → ℕ → ℕ
div_ceil a b = if a % b == 0 then a / b else a / b + 1

-- `for &bid in ids { alloc.free(bid) }`; `none` is a panic.
unfoldable pub free_blocks {ℓ} : {Pool : Type ℓ} → List ℕ → Allocator Pool → Option (Allocator Pool)
free_blocks [] a = some a
free_blocks (b ∷ ids) a = do a' ← free b a; free_blocks ids a'

unfoldable pub set_num_tokens : ℕ → KvCache → KvCache
set_num_tokens n c = record c {
  cached_slots = take n c.cached_slots;
  num_tokens = n;
  contig_len = c.contig_len - (c.num_tokens - n);
}

unfoldable pub block_id_at : KvCache → ℕ → Option ℕ
block_id_at c idx = get_elem? c.block_ids idx

module _ {ℓ} {Pool : Type ℓ} where
  unfoldable pub clear : KvCache → Allocator Pool → Option (KvCache × Allocator Pool)
  unfolding free_blocks
  clear c a = do
    a' ← free_blocks c.block_ids a
    some (
      record c {
        block_ids = [];
        num_tokens = 0;
        cached_slots = [];
        contig_len = 0;
        contig_start = 0;
        contig_cap = none;
        pending_writes = [];
      },
      a',
    )

  -- A slot number is a `u32`: one that does not fit is a panic.
  unfoldable pub prepopulate_block :
      ℕ → KvCache → Allocator Pool → Option (KvCache × Allocator Pool)
  prepopulate_block b c a = do
    a' ← share b a
    if ltb (b * c.block_size) u32_mod
        then some (
          record c {
            block_ids = c.block_ids ++ b ∷ [];
            cached_slots = c.cached_slots ++ range (b * c.block_size) c.block_size;
          },
          a',
        )
        else none

  -- Rolls back to `n` tokens. The pending writes are flushed first: the tensors that they go to are left out.
  unfoldable pub truncate_to : ℕ → KvCache → Allocator Pool → Option (KvCache × Allocator Pool)
  unfolding div_ceil free_blocks set_num_tokens
  truncate_to n c a =
      if leb c.num_tokens n
      then some (c, a)
      else (let blocks_needed = div_ceil n c.block_size in
          if ltb blocks_needed (length c.block_ids)
          then (do
            a' ← free_blocks (drop blocks_needed c.block_ids) a
            some (
              set_num_tokens n
                  (record c { block_ids = take blocks_needed c.block_ids; pending_writes = [] }),
              a',
            ))
          else some (set_num_tokens n (record c { pending_writes = [] }), a))
