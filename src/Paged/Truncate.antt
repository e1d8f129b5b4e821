-- ===== src/Paged/Truncate.antt =====
-- src/common/paged.rs, `truncate_to`: rolling a table back gives back the blocks past the tokens kept.
use mathlib.Core.List.{append-nil}
use native.Mathlib.Nat.{le-div_iff_mul-le, mul-div-le, mul_comm}
use native.Mathlib.Omega.{div_any}
use oxydllm.Base.{
  ℕ, ◌+◌, ◌*◌, ◌/◌, ◌%◌, ◌≤◌, ◌<◌, ◌≡◌, refl, sym, ap, inl, inr, min, List, [], ◌++◌, some, arith,
  ltb, leb, ◌==◌, length, count, count-append, u32_mod, take, drop, take-append-drop, length-take,
  Bool-cases,
}
use oxydllm.Paged.Allocator.{Allocator, num_free}
use oxydllm.Paged.Allocator.Invariant.{Inv, refs}
use oxydllm.Paged.Allocator.Counts.{take_all}
use oxydllm.Paged.Release.{free_blocks_lem}
use oxydllm.Paged.Cache.{KvCache, div_ceil, set_num_tokens, truncate_to}

-- A table has a slot for each token and the blocks that its tokens need.
pub record TableOk (c : KvCache) : Type 0 where
  pub block_pos : 0 < c.block_size
  pub slots : length c.cached_slots ≡ c.num_tokens
  pub blocks : length c.block_ids ≡ div_ceil c.num_tokens c.block_size

quotient-le : (n m b : ℕ) → 0 < b → n ≤ m → n / b ≤ m / b
quotient-le n m b pos h =
    (le-div_iff_mul-le pos).1 (omega (arith, mul-div-le n b, mul_comm (n / b) b))

-- A remainder needs a quotient more, unless there was one before.
quotient-lt : (n m b : ℕ) → 0 < b → n ≤ m → 0 < n % b → m % b ≡ 0 → n / b < m / b
quotient-lt n m b pos h rest even = elim (Bool-cases (ltb (n / b) (m / b))) [
  | inl less ↦ ground (arith, less)
  | inr not_less ↦
      let same : m / b ≡ n / b = ground (arith, not_less, quotient-le n m b pos h) in
      let products : b * (m / b) ≡ b * (n / b) = ap (λ k. b * k) same in
      absurd (omega (arith, products, div_any n b, div_any m b))
]

div_ceil-le : (n m b : ℕ) → 0 < b → n ≤ m → div_ceil n b ≤ div_ceil m b
unfolding div_ceil
div_ceil-le n m b pos h = elim (Bool-cases (n % b == 0)) [
  | inl even ↦ ground (arith, even, quotient-le n m b pos h)
  | inr rest ↦ elim (Bool-cases (m % b == 0)) [
    | inl even ↦
        ground
          (arith, rest, even, quotient-lt n m b pos h (ground (arith, rest)) (ground (arith, even)))
    | inr rest' ↦ ground (arith, rest, rest', quotient-le n m b pos h)
  ]
]

module _ {Pool : Type 0} where
  -- `c'` is `c` with `n` tokens: the table is well formed, its blocks are a first part of those of `c`, the others'
  -- references are counted as before, and the allocator has no fewer free blocks.
  pub record Truncated (g : ℕ → ℕ) (n : ℕ) (c : KvCache) (a : Allocator Pool) (c' : KvCache)
      (a' : Allocator Pool) : Type 0 where
    pub inv : Inv a'
    pub counted : (b : ℕ) → refs a' b ≡ g b + count b c'.block_ids
    pub table : TableOk c'
    pub tokens : c'.num_tokens ≡ min n c.num_tokens
    pub kept : c'.cached_slots ≡ take n c.cached_slots
    pub dropped : List ℕ
    pub blocks : c'.block_ids ++ dropped ≡ c.block_ids
    pub more_free : num_free a ≤ num_free a'

  -- Rolling a well-formed table back to `n` tokens, where the allocator counts its blocks beside the references `g`
  -- of others, cannot panic and leaves a well-formed table of the tokens up to `n`: the blocks that only dropped
  -- tokens used are given back, and no others.
  pub truncate_to-Truncated :
      (g : ℕ → ℕ) (n : ℕ) (c : KvCache) (a : Allocator Pool)
      → TableOk c
      → Inv a
      → ((b : ℕ) → refs a b ≡ g b + count b c.block_ids)
      → ((b : ℕ) → refs a b < u32_mod)
      → (c' : KvCache) × (a' : Allocator Pool) × (truncate_to n c a ≡ some (c', a'))
        × Truncated g n c a c' a'
  unfolding truncate_to set_num_tokens
  truncate_to-Truncated g n c a w v e small = elim (Bool-cases (leb c.num_tokens n)) [
    | inl past ↦ (
      c,
      a,
      rw (truncate_to, past) refl,
      record {
        inv = v;
        counted = e;
        table = w;
        tokens = ground (arith, past);
        kept = sym (take_all c.cached_slots n (ground (arith, past, w.slots)));
        dropped = [];
        blocks = append-nil c.block_ids;
        more_free = omega arith;
      },
    )
    | inr back ↦
        let need = div_ceil n c.block_size in
        let fewer : need ≤ length c.block_ids = omega (
          arith,
          w.blocks,
          div_ceil-le n c.num_tokens c.block_size w.block_pos (ground (arith, back)),
        ) in
        let slots : length (take n c.cached_slots) ≡ n =
          ground (arith, length-take n c.cached_slots, w.slots, back) in
        elim (Bool-cases (ltb need (length c.block_ids))) [
          | inl shorter ↦
              let (a', f, v', done, more) =
                free_blocks_lem (λ b. g b + count b (take need c.block_ids)) (drop need c.block_ids)
                  a v
                  (λ b. omega (
                    arith,
                    e b,
                    count-append b (take need c.block_ids) (drop need c.block_ids),
                    ap (count b) (take-append-drop need c.block_ids),
                  ))
                  small in
              (
                set_num_tokens n
                    (record c { block_ids = take need c.block_ids; pending_writes = [] }),
                a',
                rw (truncate_to, back, shorter, f) refl,
                record {
                  inv = v';
                  counted = done;
                  table = record {
                    block_pos = w.block_pos;
                    slots = slots;
                    blocks = omega (arith, length-take need c.block_ids, fewer);
                  };
                  tokens = ground (arith, back);
                  kept = refl;
                  dropped = drop need c.block_ids;
                  blocks = take-append-drop need c.block_ids;
                  more_free = more;
                },
              )
          | inr same ↦ (
            set_num_tokens n (record c { pending_writes = [] }),
            a,
            rw (truncate_to, back, same) refl,
            record {
              inv = v;
              counted = e;
              table = record {
                block_pos = w.block_pos;
                slots = slots;
                blocks = ground (arith, fewer, same);
              };
              tokens = ground (arith, back);
              kept = refl;
              dropped = [];
              blocks = append-nil c.block_ids;
              more_free = omega arith;
            },
          )
        ]
  ]
