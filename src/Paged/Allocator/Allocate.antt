-- ===== src/Paged/Allocator/Allocate.antt =====
-- src/common/paged.rs, `BlockAllocator::allocate`: it serves every block below the ceiling, and fails
-- for want of blocks only when none is left.
use oxydllm.Base.{
  lt→ltb, ℕ, zero, suc, ◌+◌, ◌-◌, ◌*◌, ◌≤◌, ◌<◌, ◌≡◌, refl, sym, ap, ◌∙◌, min, List, [], ◌∷◌,
  Option, none, some, arith, length, length-append, get_or, set, range, length-range, u64_mod,
  sub64-eq-sub,
}
use oxydllm.Paged.Allocator.Counts.{get_or-append-replicate}
use oxydllm.Paged.Allocator.{
  Allocator, Result, ok, err, exhausted, add_blocks, num_free, pop_block, grow, allocate, growing,
  clamp_segment,
}
use oxydllm.Paged.Allocator.Invariant.{
  Inv, refs, Taken, pop_block-Taken, add_blocks-Inv, resize-grow,
}

module _ {ℓ} {Pool : Type ℓ} where
  -- `g` is `a` with blocks added: the same to whoever counts references or free blocks.
  pub record Grown (a g : Allocator Pool) : Type 0 where
    pub inv : Inv g
    pub refs_same : (j : ℕ) → refs g j ≡ refs a j
    pub free_same : num_free g ≡ num_free a
    pub same_ceiling : g.max_blocks ≡ a.max_blocks
    pub non_empty : 0 < length g.free_list

  add_blocks-Grown :
      (n : ℕ) (p : Pool) (a : Allocator Pool)
      → Inv a
      → a.num_blocks + n ≤ a.max_blocks
      → 0 < n
      → Grown a (add_blocks n p a)
  unfolding num_free add_blocks
  add_blocks-Grown n p a v h pos = record {
    inv = add_blocks-Inv n p a v h;
    refs_same =
        λ j. ap (λ l. get_or l j 0) (resize-grow a n v) ∙ get_or-append-replicate a.ref_counts n j;
    free_same = omega (
      arith,
      length-append (range a.num_blocks n) a.free_list,
      length-range a.num_blocks n,
      sub64-eq-sub a.max_blocks a.num_blocks v.under_ceiling v.fits_usize,
      sub64-eq-sub a.max_blocks (a.num_blocks + n) h v.fits_usize,
    );
    same_ceiling = refl;
    non_empty =
        omega
          (arith, length-append (range a.num_blocks n) a.free_list, length-range a.num_blocks n);
  }

  Taken-of_Grown :
      (a g : Allocator Pool) (b : ℕ) (a' : Allocator Pool) → Grown a g → Taken g b a' → Taken a b a'
  Taken-of_Grown a g b a' w t = record {
    inv = t.inv;
    in_range = ground (arith, t.in_range, w.same_ceiling);
    was_free = sym (w.refs_same b) ∙ t.was_free;
    refs_after = λ j. ground (arith, t.refs_after j, w.refs_same j);
    one_less = t.one_less ∙ w.free_same;
    same_ceiling = t.same_ceiling ∙ w.same_ceiling;
  }

  -- What a successful call promises.
  abbrev pub Served : Allocator Pool → Result (ℕ × Allocator Pool) → Type ℓ
  Served a r = (b : ℕ) × (a' : Allocator Pool) × (r ≡ ok (b, a')) × Taken a b a'

  pop_block-Served :
      (a : Allocator Pool) (l : List ℕ)
      → a.free_list ≡ l
      → Inv a
      → 0 < length l
      → Served a (pop_block l a)
  unfolding pop_block
  pop_block-Served a [] e v h = absurd (omega arith)
  pop_block-Served a (b ∷ rest) e v h = (
    b,
    record a { free_list = rest; ref_counts = set a.ref_counts b 1 },
    refl,
    pop_block-Taken a b rest v e,
  )

  Served-of_Grown :
      (a g : Allocator Pool) (r : Result (ℕ × Allocator Pool)) → Grown a g → Served g r → Served a r
  Served-of_Grown a g r w (b, a', e, t) = (b, a', e, Taken-of_Grown a g b a' w t)

  module _ (extend : ℕ → Pool → Option Pool) where
    grow_full :
        (a : Allocator Pool) → Inv a → a.num_blocks ≡ a.max_blocks → grow extend a ≡ err exhausted
    unfolding grow
    grow_full a v e =
        ground (arith, sub64-eq-sub a.max_blocks a.num_blocks v.under_ceiling v.fits_usize)

    -- The device gives the slots of every segment that `grow` asks for.
    abbrev pub Gives : Type ℓ
    Gives = (slots : ℕ) (p : Pool) → (q : Pool) × (extend slots p ≡ some q)

    grow-Grown :
        Gives
        → (a : Allocator Pool) → Inv a
        → a.num_blocks < a.max_blocks
        → (g : Allocator Pool) × (grow extend a ≡ ok g) × Grown a g
    unfolding grow
    grow-Grown gives a v h =
        let room = sub64-eq-sub a.max_blocks a.num_blocks v.under_ceiling v.fits_usize in
        let n = min a.segment_blocks (a.max_blocks - a.num_blocks) in
        let pos : 0 < n = omega (arith, v.segment_pos) in
        let (q, e) = gives (n * a.block_size) a.pool in
        (add_blocks n q a, rw room (ground (arith, e)), add_blocks-Grown n q a v (omega arith) pos)

    refill :
        (a g : Allocator Pool)
        → a.free_list ≡ []
        → grow extend a ≡ ok g
        → allocate extend a ≡ pop_block g.free_list g
    unfolding allocate
    refill a g e s = ground (arith, e, s)

    take_free :
        (a : Allocator Pool) (b : ℕ) (rest : List ℕ)
        → a.free_list ≡ b ∷ rest
        → allocate extend a
          ≡ ok (b, record a { free_list = rest; ref_counts = set a.ref_counts b 1 })
    unfolding allocate pop_block
    take_free a b rest e = ground (arith, e)

    allocate_empty :
        Gives
        → (a : Allocator Pool) → Inv a
        → a.free_list ≡ []
        → a.num_blocks < a.max_blocks
        → Served a (allocate extend a)
    allocate_empty gives a v e h =
        let (g, s, w) = grow-Grown gives a v h in
        rw (refill a g e s) (
          Served-of_Grown a g (pop_block g.free_list g) w
            (pop_block-Served g g.free_list refl w.inv w.non_empty))

    allocate_split :
        Gives
        → (a : Allocator Pool) (l : List ℕ) → a.free_list ≡ l
        → Inv a
        → 0 < num_free a
        → Served a (allocate extend a)
    unfolding num_free
    allocate_split gives a [] e v h = allocate_empty gives a v e (
        omega (
          arith,
          ap length e,
          sub64-eq-sub a.max_blocks a.num_blocks v.under_ceiling v.fits_usize,
          v.under_ceiling,
        ))
    allocate_split gives a (b ∷ rest) e v h = (
      b,
      record a { free_list = rest; ref_counts = set a.ref_counts b 1 },
      take_free a b rest e,
      pop_block-Taken a b rest v e,
    )

    -- Where the device holds the segments, a call is served as long as a block is free below the
    -- ceiling: it hands out a block that nobody held, at count one, and changes no other count.
    pub allocate-Served :
        Gives → (a : Allocator Pool) → Inv a → 0 < num_free a → Served a (allocate extend a)
    allocate-Served gives a = allocate_split gives a a.free_list refl

    none_left :
        (a : Allocator Pool) (l : List ℕ)
        → a.free_list ≡ l
        → Inv a
        → num_free a ≡ 0
        → allocate extend a ≡ err exhausted
    unfolding allocate num_free pop_block
    none_left a [] e v h =
        let room = sub64-eq-sub a.max_blocks a.num_blocks v.under_ceiling v.fits_usize in
        ground (arith, e, grow_full a v (omega (arith, room, v.under_ceiling)))
    none_left a (b ∷ rest) e v h = absurd (omega (arith, ap length e))

    -- With no block free the call reports exhaustion, whatever the device would give.
    pub allocate_exhausted :
        (a : Allocator Pool) → Inv a → num_free a ≡ 0 → allocate extend a ≡ err exhausted
    allocate_exhausted a = none_left a a.free_list refl

    -- The empty pool of `growing`, before the first segment.
    growing-Inv_start :
        (max_blocks segment_blocks block_size : ℕ) (p : Pool)
        → max_blocks < u64_mod
        → Inv (record {
          pool = p;
          free_list = [];
          ref_counts = [];
          num_blocks = 0;
          max_blocks = max_blocks;
          segment_blocks = clamp_segment segment_blocks max_blocks;
          block_size = block_size;
          sliding_window = none;
        })
    unfolding clamp_segment
    growing-Inv_start m s bs p h = record {
      counted = refl;
      under_ceiling = omega arith;
      fits_usize = h;
      segment_pos = omega arith;
      free_length = refl;
      free_exact = λ b. refl;
    }

    -- A new pool is well formed and all its blocks are free, where the device gives the first segment.
    pub growing-Inv :
        Gives
        → (max_blocks segment_blocks block_size : ℕ) (p : Pool) → max_blocks < u64_mod
        → (a : Allocator Pool) × (growing extend max_blocks segment_blocks block_size p ≡ ok a)
          × Inv a
          × (num_free a ≡ max_blocks)
          × ((j : ℕ) → refs a j ≡ 0)
    unfolding growing num_free
    growing-Inv gives zero s bs p h =
        (_, refl, growing-Inv_start 0 s bs p h, omega (arith, sub64-eq-sub 0 0), λ j. refl)
    growing-Inv gives (suc m) s bs p h =
        let start = growing-Inv_start (suc m) s bs p h in
        let (g, e, w) = grow-Grown gives _ start (omega arith) in
        (
          g,
          rw (lt→ltb 0 (suc m) (omega arith)) e,
          w.inv,
          omega (arith, w.free_same, sub64-eq-sub (suc m) 0),
          w.refs_same,
        )
