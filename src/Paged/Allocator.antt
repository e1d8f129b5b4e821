-- ===== src/Paged/Allocator.antt =====
-- src/common/paged.rs, `BlockAllocator`: the free list, the reference counts and the growth by
-- segments. The tensors behind the blocks are a parameter: `extend slots pool` is `none` where the
-- device cannot hold them. The head of `free_list` is the end of the `Vec`.
pub mod Counts
pub mod Invariant
pub mod Allocate
pub mod Share
use oxydllm.Base.{
  ℕ, zero, suc, ◌+◌, ◌-◌, ◌*◌, ◌%◌, ◌≡◌, min, max, List, [], ◌∷◌, ◌++◌, Option, none, some, ltb,
  ◌==◌, if◌then◌else◌, length, get_elem?, set, take, replicate, range, u32_mod, sub64,
}

pub data KvError : Type 0 where
  exhausted device_full : KvError

pub data Result {ℓ} (A : Type ℓ) : Type ℓ where
  ok : A → Result A
  err : KvError → Result A

pub record Allocator {ℓ} (Pool : Type ℓ) : Type ℓ where
  pub pool : Pool
  pub free_list : List ℕ
  pub ref_counts : List ℕ
  pub num_blocks : ℕ
  pub max_blocks : ℕ
  pub segment_blocks : ℕ
  pub block_size : ℕ
  pub sliding_window : Option ℕ

-- `Vec::resize`.
abbrev pub resize {ℓ} : {A : Type ℓ} → List A → ℕ → A → List A
resize xs n v = take n xs ++ replicate (n - length xs) v

-- `clamp(1, max_blocks.max(1))`.
pub clamp_segment : ℕ → ℕ → ℕ
clamp_segment segment_blocks max_blocks = min (max segment_blocks 1) (max max_blocks 1)

module _ {ℓ} {Pool : Type ℓ} where
  -- What `grow` does once the device has given the slots of `n` more blocks.
  pub add_blocks : ℕ → Pool → Allocator Pool → Allocator Pool
  add_blocks n p a = record a {
    pool = p;
    num_blocks = a.num_blocks + n;
    ref_counts = resize a.ref_counts (a.num_blocks + n) 0;
    free_list = range a.num_blocks n ++ a.free_list;
  }

  -- `ref_counts[block_id] += 1`; `none` is the panic of an index out of range.
  pub share : ℕ → Allocator Pool → Option (Allocator Pool)
  share b a = elim (get_elem? a.ref_counts b) [
    | none ↦ none
    | some c ↦ some (record a { ref_counts = set a.ref_counts b ((c + 1) % u32_mod) })
  ]

  -- The block goes back once nobody holds it.
  drop_ref : ℕ → ℕ → Allocator Pool → Allocator Pool
  drop_ref b c a = record a {
    ref_counts = set a.ref_counts b c;
    free_list = if c == 0 then b ∷ a.free_list else a.free_list;
  }

  pub free : ℕ → Allocator Pool → Option (Allocator Pool)
  unfolding drop_ref
  free b a = elim (get_elem? a.ref_counts b) [
    | none ↦ none
    | some c ↦ some (drop_ref b ((c + u32_mod - 1) % u32_mod) a)
  ]

  unfoldable pub num_free : Allocator Pool → ℕ
  num_free a = length a.free_list + sub64 a.max_blocks a.num_blocks

  pub num_total : Allocator Pool → ℕ
  num_total a = a.max_blocks

  pub with_sliding_window : Option ℕ → Allocator Pool → Allocator Pool
  with_sliding_window window a = record a { sliding_window = window }

  -- `free_list.pop()`, and the count of the block that it gives. The code panics for a block outside the pool, where
  -- `set` changes nothing here.
  pub pop_block : List ℕ → Allocator Pool → Result (ℕ × Allocator Pool)
  pop_block [] a = err exhausted
  pop_block (b ∷ rest) a = ok (b, record a { free_list = rest; ref_counts = set a.ref_counts b 1 })

  module _ (extend : ℕ → Pool → Option Pool) where
    pub grow : Allocator Pool → Result (Allocator Pool)
    grow a =
        let n = min a.segment_blocks (sub64 a.max_blocks a.num_blocks) in
        if n == 0 then err exhausted else elim (extend (n * a.block_size) a.pool) [
          | none ↦ err device_full
          | some p ↦ ok (add_blocks n p a)
        ]

    -- A failed call leaves the allocator as it was.
    pub allocate : Allocator Pool → Result (ℕ × Allocator Pool)
    allocate a = elim a.free_list [
      | [] ↦ elim (grow a) [ err e ↦ err e | ok g ↦ pop_block g.free_list g ]
      | b ∷ rest ↦ pop_block (b ∷ rest) a
    ]

    -- `segment` and the first `grow`, which is skipped for an empty pool.
    pub growing : ℕ → ℕ → ℕ → Pool → Result (Allocator Pool)
    growing max_blocks segment_blocks block_size empty =
        let this : Allocator Pool = record {
          pool = empty;
          free_list = [];
          ref_counts = [];
          num_blocks = 0;
          max_blocks = max_blocks;
          segment_blocks = clamp_segment segment_blocks max_blocks;
          block_size = block_size;
          sliding_window = none;
        } in
        if ltb 0 max_blocks then grow this else ok this

-- `Scheduler::num_free_blocks`: the blocks free in the allocator of layer 0.
unfoldable pub num_free_blocks {ℓ} : {Pool : Type ℓ} → List (Allocator Pool) → ℕ
num_free_blocks [] = 0
num_free_blocks (a ∷ allocators) = num_free a
