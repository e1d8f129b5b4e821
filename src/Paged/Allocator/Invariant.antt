-- ===== src/Paged/Allocator/Invariant.antt =====
-- src/common/paged.rs, `BlockAllocator`: the free list holds the blocks whose count is zero, each
-- once, and every operation keeps it so.
use oxydllm.Base.{
  ℕ, zero, ◌+◌, ◌-◌, ◌≤◌, ◌<◌, ◌≡◌, refl, ap, ◌∙◌, List, ◌∷◌, ◌++◌, some, arith, ◌==◌,
  if◌then◌else◌, length, length-append, length-set, get_elem?, get_or, set, replicate,
  length-replicate, range, count, count-append, length-range, count-range, u64_mod, sub64-eq-sub,
}
use oxydllm.Paged.Allocator.Counts.{
  is_free, zeros, held, held-add-zeros, zeros-set, zeros-append-replicate, is_free-append-replicate,
  get_elem?-lt, get_elem?-set, take_all, is_free-pos, get_or-set, get_or-get_elem?,
}
use oxydllm.Paged.Allocator.{Allocator, add_blocks, resize, num_free}

module _ {ℓ} {Pool : Type ℓ} where
  pub record Inv (a : Allocator Pool) : Type 0 where
    pub counted : length a.ref_counts ≡ a.num_blocks
    pub under_ceiling : a.num_blocks ≤ a.max_blocks
    pub fits_usize : a.max_blocks < u64_mod
    pub segment_pos : 0 < a.segment_blocks
    pub free_length : length a.free_list ≡ zeros a.ref_counts
    pub free_exact : (b : ℕ) → count b a.free_list ≡ is_free (get_elem? a.ref_counts b)

  -- Blocks that somebody holds.
  pub in_use : Allocator Pool → ℕ
  in_use a = held a.ref_counts

  pub resize-grow :
      (a : Allocator Pool) (n : ℕ)
      → Inv a
      → resize a.ref_counts (a.num_blocks + n) 0 ≡ a.ref_counts ++ replicate n 0
  resize-grow a n v =
      ap (λ l. l ++ replicate (a.num_blocks + n - length a.ref_counts) 0)
        (take_all a.ref_counts (a.num_blocks + n) (omega (arith, v.counted)))
      ∙ ap (λ k. a.ref_counts ++ replicate k 0) (omega (arith, v.counted))

  pub add_blocks-Inv :
      (n : ℕ) (p : Pool) (a : Allocator Pool)
      → Inv a
      → a.num_blocks + n ≤ a.max_blocks
      → Inv (add_blocks n p a)
  unfolding add_blocks
  add_blocks-Inv n p a v h = record {
    counted =
        ap length (resize-grow a n v)
        ∙ omega (
          arith,
          length-append a.ref_counts (replicate n 0),
          length-replicate n (zero),
          v.counted,
        );
    under_ceiling = h;
    fits_usize = v.fits_usize;
    segment_pos = v.segment_pos;
    free_length = rw (resize-grow a n v) (
        omega (
          arith,
          length-append (range a.num_blocks n) a.free_list,
          length-range a.num_blocks n,
          zeros-append-replicate a.ref_counts n,
          v.free_length,
        ));
    free_exact = λ b. rw (resize-grow a n v) (
        ground (
          arith,
          count-append b (range a.num_blocks n) a.free_list,
          count-range b a.num_blocks n,
          is_free-append-replicate a.ref_counts n b,
          v.counted,
          v.free_exact b,
        ));
  }

  -- How many hold block `b`.
  abbrev pub refs : Allocator Pool → ℕ → ℕ
  refs a b = get_or a.ref_counts b 0

  -- In a well-formed pool the free blocks and those that somebody holds make up the ceiling.
  pub num_free-in_use : (a : Allocator Pool) → Inv a → num_free a + in_use a ≡ a.max_blocks
  unfolding num_free in_use
  num_free-in_use a v = omega (
    arith,
    sub64-eq-sub a.max_blocks a.num_blocks v.under_ceiling v.fits_usize,
    held-add-zeros a.ref_counts,
    v.free_length,
    v.counted,
    v.under_ceiling,
  )

  -- `a'` is `a` with block `b` handed out: `b` was free, its count is one, and no other changed.
  pub record Taken (a : Allocator Pool) (b : ℕ) (a' : Allocator Pool) : Type 0 where
    pub inv : Inv a'
    pub in_range : b < a.max_blocks
    pub was_free : refs a b ≡ 0
    pub refs_after : (j : ℕ) → refs a' j ≡ (if j == b then 1 else refs a j)
    pub one_less : num_free a' + 1 ≡ num_free a
    pub same_ceiling : a'.max_blocks ≡ a.max_blocks

  free_head :
      (a : Allocator Pool) (b : ℕ) (rest : List ℕ)
      → Inv a
      → a.free_list ≡ b ∷ rest
      → get_elem? a.ref_counts b ≡ some 0
  free_head a b rest v e = is_free-pos (get_elem? a.ref_counts b) (ground (arith, v.free_exact b))

  pub pop_block-Taken :
      (a : Allocator Pool) (b : ℕ) (rest : List ℕ)
      → Inv a
      → a.free_list ≡ b ∷ rest
      → Taken a b (record a { free_list = rest; ref_counts = set a.ref_counts b 1 })
  unfolding num_free
  pop_block-Taken a b rest v e =
      let zero_count = free_head a b rest v e in
      let gone = zeros-set a.ref_counts b 0 1 zero_count in
      record {
        inv = record {
          counted = length-set a.ref_counts b 1 ∙ v.counted;
          under_ceiling = v.under_ceiling;
          fits_usize = v.fits_usize;
          segment_pos = v.segment_pos;
          free_length = ground (arith, gone, v.free_length);
          free_exact = λ j. ground (
            arith,
            v.free_exact j,
            get_elem?-set a.ref_counts b 1 j,
            get_elem?-lt a.ref_counts b zero_count,
          );
        };
        in_range =
            omega (arith, get_elem?-lt a.ref_counts b zero_count, v.counted, v.under_ceiling);
        was_free = get_or-get_elem? a.ref_counts b zero_count;
        refs_after = λ j. get_or-set a.ref_counts b 1 j zero_count;
        one_less = omega (arith, ap length e);
        same_ceiling = refl;
      }
