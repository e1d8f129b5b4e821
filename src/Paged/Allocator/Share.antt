-- ===== src/Paged/Allocator/Share.antt =====
-- src/common/paged.rs, `BlockAllocator::share` and `free`: references are counted exactly.
use oxydllm.Base.{
  ℕ, ◌+◌, ◌-◌, ◌%◌, ◌<◌, ◌≡◌, refl, ◌∙◌, ◌∷◌, some, arith, ◌==◌, if◌then◌else◌, length-set, set,
  u32_mod,
}
use oxydllm.Paged.Allocator.Counts.{
  zeros-set, get_elem?-lt, get_elem?-set, get_or-set, get_elem?-get_or,
}
use oxydllm.Paged.Allocator.{Allocator, share, free, num_free}
use oxydllm.Paged.Allocator.Invariant.{Inv, refs}

module _ {ℓ} {Pool : Type ℓ} where
  -- `a'` is `a` with one more reference to `b`.
  pub record Shared (a : Allocator Pool) (b : ℕ) (a' : Allocator Pool) : Type 0 where
    pub inv : Inv a'
    pub refs_after : (j : ℕ) → refs a' j ≡ refs a j + (if j == b then 1 else 0)
    pub same_free : num_free a' ≡ num_free a
    pub same_ceiling : a'.max_blocks ≡ a.max_blocks

  -- Sharing a block that somebody holds, below the largest count of a `u32`, counts one more reference, and frees or takes nothing.
  pub share-Shared :
      (a : Allocator Pool) (b : ℕ)
      → Inv a
      → 0 < refs a b
      → refs a b + 1 < u32_mod
      → (a' : Allocator Pool) × (share b a ≡ some a') × Shared a b a'
  unfolding share num_free
  share-Shared a b v h fits =
      let e = get_elem?-get_or a.ref_counts b h in
      let c = refs a b + 1 in
      let same : (refs a b + 1) % u32_mod ≡ c = omega arith in
      let moved = zeros-set a.ref_counts b (refs a b) c e in
      (
        record a { ref_counts = set a.ref_counts b c },
        ground (arith, e, same),
        record {
          inv = record {
            counted = length-set a.ref_counts b c ∙ v.counted;
            under_ceiling = v.under_ceiling;
            fits_usize = v.fits_usize;
            segment_pos = v.segment_pos;
            free_length = ground (arith, moved, v.free_length);
            free_exact = λ j. ground (
              arith,
              v.free_exact j,
              get_elem?-set a.ref_counts b c j,
              e,
              get_elem?-lt a.ref_counts b e,
            );
          };
          refs_after = λ j. ground (arith, get_or-set a.ref_counts b c j e);
          same_free = refl;
          same_ceiling = refl;
        },
      )

  -- `a'` is `a` with one reference to `b` less; the last one puts `b` on the free list.
  pub record Freed (a : Allocator Pool) (b : ℕ) (a' : Allocator Pool) : Type 0 where
    pub inv : Inv a'
    pub refs_after : (j : ℕ) → refs a' j + (if j == b then 1 else 0) ≡ refs a j
    pub free_after : num_free a' ≡ num_free a + (if refs a b == 1 then 1 else 0)
    pub same_ceiling : a'.max_blocks ≡ a.max_blocks

  -- Freeing a block that somebody holds, its count a `u32`, drops one reference, and the block is free again exactly when
  -- that was the last.
  pub free-Freed :
      (a : Allocator Pool) (b : ℕ)
      → Inv a
      → 0 < refs a b
      → refs a b < u32_mod
      → (a' : Allocator Pool) × (free b a ≡ some a') × Freed a b a'
  unfolding free num_free
  free-Freed a b v h fits =
      let e = get_elem?-get_or a.ref_counts b h in
      let c = refs a b - 1 in
      let same : (refs a b + u32_mod - 1) % u32_mod ≡ c = omega arith in
      let moved = zeros-set a.ref_counts b (refs a b) c e in
      (
        record a {
          ref_counts = set a.ref_counts b c;
          free_list = if c == 0 then b ∷ a.free_list else a.free_list;
        },
        ground (arith, e, same),
        record {
          inv = record {
            counted = length-set a.ref_counts b c ∙ v.counted;
            under_ceiling = v.under_ceiling;
            fits_usize = v.fits_usize;
            segment_pos = v.segment_pos;
            free_length = ground (arith, moved, v.free_length);
            free_exact = λ j. ground (
              arith,
              v.free_exact j,
              get_elem?-set a.ref_counts b c j,
              e,
              get_elem?-lt a.ref_counts b e,
            );
          };
          refs_after = λ j. ground (arith, get_or-set a.ref_counts b c j e);
          free_after = ground arith;
          same_ceiling = refl;
        },
      )
