-- ===== src/Paged/Append/Blocks.antt =====
-- src/common/paged.rs, `append`: where the blocks are there, every token gets its slot, and the staged runs write
-- each row of the batch to the slot under which the cache finds it.
use mathlib.Core.List.{append-nil}
use native.Mathlib.Nat.{mod-lt}
use oxydllm.Base.{
  ℕ, zero, suc, ◌+◌, ◌-◌, ◌*◌, ◌%◌, ◌≤◌, ◌<◌, ◌≡◌, refl, sym, ap, subst, ◌∙◌, inl, inr, min, true,
  List, [], ◌∷◌, ◌++◌, arith, ◌==◌, ltb, if◌then◌else◌, length, count, u32_mod, lt→ltb, Bool-cases,
  Option, some,
}
use oxydllm.Paged.Allocator.{Allocator, Result, ok, num_free}
use oxydllm.Paged.Allocator.Invariant.{Inv, refs}
use oxydllm.Paged.Allocator.Allocate.{Gives, allocate-Served}
use oxydllm.Paged.Cache.{KvCache, PendingRun}
use oxydllm.Paged.Append.{
  filled, add_run, slots_from, last_of, block_for, place, fill_block, append_loop, stage,
  append_tokens,
}
use oxydllm.Paged.Append.Runs.{
  rows_of, expand-add_run, slots-rows_of, sources-rows_of, last_of-snoc,
}
use oxydllm.Paged.Append.Room.{some_block, next_room, below_end}
use oxydllm.Paged.Append.Table.{Table, round-InPlace, round-Table}
use oxydllm.Paged.Append.Placed.{Placed, Placed-refl, Placed-trans}

module _ {Pool : Type 0} where
  -- A block is there for the next token: it comes last in the table.
  record Got (offset : ℕ) (c : KvCache) (a : Allocator Pool) (id : ℕ) (taken : List ℕ)
      (a' : Allocator Pool) : Type 0 where
    inv : Inv a'
    last : last_of (c.block_ids ++ taken) ≡ some id
    in_range : id < a.max_blocks
    one : length taken ≡ (if offset == 0 then 1 else 0)
    refs_after : (j : ℕ) → refs a' j ≡ refs a j + count j taken
    free_after : num_free a' + length taken ≡ num_free a
    same_ceiling : a'.max_blocks ≡ a.max_blocks

  -- What the loop needs with `left` tokens to go: a table with the blocks of its tokens, block numbers that fit in slots, the last block of the table
  -- where it is not full, and free blocks for the rest.
  pub record Ready (left : ℕ) (c : KvCache) (a : Allocator Pool) : Type 0 where
    pub inv : Inv a
    pub block_pos : 0 < c.block_size
    pub table : Table c.num_tokens c.block_size c.block_ids
    pub slots_fit : a.max_blocks * c.block_size ≤ u32_mod
    pub tail :
        ¬ c.num_tokens % c.block_size ≡ 0
        → (id : ℕ) × (last_of c.block_ids ≡ some id) × (id < a.max_blocks)
    pub space :
        left
        ≤ c.block_size * num_free a
          + (if c.num_tokens % c.block_size == 0
              then 0
              else c.block_size - c.num_tokens % c.block_size)

  module _ (extend : ℕ → Pool → Option Pool) (gives : Gives extend) where
    block_for-Got :
        (left : ℕ) (c : KvCache) (a : Allocator Pool)
        → Ready (suc left) c a
        → (id : ℕ) × (taken : List ℕ) × (a' : Allocator Pool) × (block_for extend
              (c.num_tokens % c.block_size)
              c
              a
            ≡ ok (some id, record c { block_ids = c.block_ids ++ taken }, a'))
          × Got (c.num_tokens % c.block_size) c a id taken a'
    unfolding block_for
    block_for-Got left c a w = elim (Bool-cases (c.num_tokens % c.block_size == 0)) [
      | inl at_end ↦
          let some_free : 0 < num_free a =
            some_block c.block_size (num_free a) left (ground (arith, w.space, at_end)) in
          let (id, a', e, t) = allocate-Served extend gives a w.inv some_free in
          (
            id,
            id ∷ [],
            a',
            rw (at_end, e) refl,
            record {
              inv = t.inv;
              last = last_of-snoc c.block_ids id;
              in_range = t.in_range;
              one = rw at_end refl;
              refs_after = λ j. ground (arith, t.refs_after j, t.was_free);
              free_after = omega (arith, t.one_less);
              same_ceiling = t.same_ceiling;
            },
          )
      | inr inside ↦
          let (id, last, in_range) = w.tail (ground (arith, inside)) in
          (
            id,
            [],
            a,
            rw inside (rw (append-nil c.block_ids, last) refl),
            record {
              inv = w.inv;
              last = rw (append-nil c.block_ids) last;
              in_range = in_range;
              one = rw inside refl;
              refs_after = λ j. omega arith;
              free_after = omega arith;
              same_ceiling = refl;
            },
          )
    ]

    slots_in_range :
        (id : ℕ) (c : KvCache) (a : Allocator Pool)
        → id < a.max_blocks
        → 0 < c.block_size
        → a.max_blocks * c.block_size ≤ u32_mod
        → ltb (id * c.block_size) u32_mod ≡ true
    slots_in_range id c a h pos fits =
        lt→ltb (id * c.block_size) u32_mod (below_end id c.block_size a.max_blocks h pos fits)

    place-some :
        (id offset written n : ℕ) (c : KvCache) (runs : List PendingRun)
        → ltb (id * c.block_size) u32_mod ≡ true
        → place id offset written n c runs
          ≡ some (
            record c {
              cached_slots = c.cached_slots ++ slots_from (id * c.block_size + offset) n;
              num_tokens = c.num_tokens + n;
            },
            if c.pool_writes then add_run (id * c.block_size + offset) written n runs else runs,
          )
    unfolding place
    place-some id offset written n c runs fits = rw fits refl

    fill_block-filled :
        (id offset written n : ℕ) (c c1 c2 : KvCache) (a a1 : Allocator Pool)
        (runs runs2 : List PendingRun) (r : Result (Option ℕ × KvCache × Allocator Pool))
        → r ≡ ok (some id, c1, a1)
        → place id offset written n c1 runs ≡ some (c2, runs2)
        → fill_block offset n written c a runs r ≡ filled c2 a1 runs2
    unfolding fill_block
    fill_block-filled id offset written n c c1 c2 a a1 runs runs2 r e p =
        ap (λ x. fill_block offset n written c a runs x) e ∙ rw (fill_block, p) refl

    -- One round: `n` tokens are in place, and the rest can follow.
    round :
        (left written : ℕ) (c : KvCache) (a : Allocator Pool) (runs : List PendingRun)
        → Ready (suc left) c a
        → (n : ℕ) × (c' : KvCache) × (a' : Allocator Pool) × (runs' : List PendingRun) × (n
            ≡ min (suc left) (c.block_size - c.num_tokens % c.block_size))
          × (fill_block
                (c.num_tokens % c.block_size)
                n
                written
                c
                a
                runs
                (block_for extend (c.num_tokens % c.block_size) c a)
              ≡ filled c' a' runs')
          × (0 < n)
          × (n ≤ suc left)
          × Placed written n c a runs c' a' runs'
          × Ready (suc left - n) c' a'
    round left written c a runs w =
        let offset = c.num_tokens % c.block_size in
        let n = min (suc left) (c.block_size - offset) in
        let (id, taken, a', e, g) = block_for-Got left c a w in
        let dst = id * c.block_size + offset in
        let fits = slots_in_range id c a g.in_range w.block_pos w.slots_fit in
        let below : offset < c.block_size = mod-lt c.num_tokens w.block_pos in
        (
          n,
          record c {
            block_ids = c.block_ids ++ taken;
            cached_slots = c.cached_slots ++ slots_from dst n;
            num_tokens = c.num_tokens + n;
          },
          a',
          if c.pool_writes then add_run dst written n runs else runs,
          refl,
          fill_block-filled id offset written n c (record c { block_ids = c.block_ids ++ taken }) _
              a a' runs _ _ e
              (place-some id offset written n (record c { block_ids = c.block_ids ++ taken }) runs
                fits),
          ground (arith, below),
          ground arith,
          record {
            inv = g.inv;
            taken = taken;
            blocks = refl;
            refs_after = g.refs_after;
            free_after = g.free_after;
            rows = rows_of dst written n;
            slots = ap (λ l. c.cached_slots ++ l) (sym (slots-rows_of dst written n));
            sources = sources-rows_of dst written n;
            placed =
                round-InPlace c.num_tokens c.block_size left c.block_ids taken w.table g.one id
                  written g.last;
            staged = λ on. rw on (expand-add_run dst written n runs);
            tokens = refl;
            same_size = refl;
            same_writes = refl;
            same_ceiling = g.same_ceiling;
            same_pending = refl;
          },
          record {
            inv = g.inv;
            block_pos = w.block_pos;
            table = round-Table c.num_tokens c.block_size left c.block_ids taken w.table g.one;
            slots_fit = rw g.same_ceiling w.slots_fit;
            tail = λ inside. (id, g.last, rw g.same_ceiling g.in_range);
            space =
                next_room c.block_size c.num_tokens left (num_free a) (num_free a') (length taken)
                  w.block_pos w.space g.free_after g.one;
          },
        )

    loop_on :
        (fuel left n written : ℕ) (c c1 c2 : KvCache) (a a1 a2 : Allocator Pool)
        (runs runs1 runs2 : List PendingRun)
        → n ≡ min (suc left) (c.block_size - c.num_tokens % c.block_size)
        → fill_block
            (c.num_tokens % c.block_size)
            n
            written
            c
            a
            runs
            (block_for extend (c.num_tokens % c.block_size) c a)
          ≡ filled c1 a1 runs1
        → append_loop extend fuel (suc left - n) (written + n) c1 a1 runs1 ≡ filled c2 a2 runs2
        → append_loop extend (suc fuel) (suc left) written c a runs ≡ filled c2 a2 runs2
    unfolding append_loop
    loop_on fuel left n written c c1 c2 a a1 a2 runs runs1 runs2 small e f =
        subst
          (λ k.
            fill_block (c.num_tokens % c.block_size) k written c a runs
                (block_for extend (c.num_tokens % c.block_size) c a)
              ≡ filled c1 a1 runs1
            → append_loop extend fuel (suc left - k) (written + k) c1 a1 runs1 ≡ filled c2 a2 runs2
            → append_loop extend (suc fuel) (suc left) written c a runs ≡ filled c2 a2 runs2)
          (sym small) (λ d g. rw (append_loop, d) g) e f

    append_loop-Placed :
        (fuel left written : ℕ) (c : KvCache) (a : Allocator Pool) (runs : List PendingRun)
        → left ≤ fuel
        → Ready left c a
        → (c' : KvCache) × (a' : Allocator Pool) × (runs' : List PendingRun) × (append_loop extend
              fuel left written c a runs
            ≡ filled c' a' runs')
          × Placed written left c a runs c' a' runs'
    unfolding append_loop
    append_loop-Placed fuel zero written c a runs enough w =
        (c, a, runs, refl, Placed-refl written c a runs w.inv)
    append_loop-Placed zero (suc left) written c a runs enough w = absurd (omega arith)
    append_loop-Placed (suc fuel) (suc left) written c a runs enough w =
        let (n, c1, a1, runs1, small, e, pos, le, p, next) = round left written c a runs w in
        let (c2, a2, runs2, f, q) =
          append_loop-Placed fuel (suc left - n) (written + n) c1 a1 runs1 (omega arith) next in
        let all : n + (suc left - n) ≡ suc left = omega arith in
        (
          c2,
          a2,
          runs2,
          loop_on fuel left n written c c1 c2 a a1 a2 runs runs1 runs2 small e f,
          subst (λ k. Placed written k c a runs c2 a2 runs2) all
              (Placed-trans written n (suc left - n) c c1 c2 a a1 a2 runs runs1 runs2 p q),
        )

    staged_end :
        (new_seq : ℕ) (c c' : KvCache) (a a' : Allocator Pool) (runs : List PendingRun)
        → append_loop extend new_seq new_seq 0 c a [] ≡ filled c' a' runs
        → append_tokens extend new_seq c a ≡ filled (stage runs c') a' runs
    unfolding append_tokens stage
    staged_end new_seq c c' a a' runs e = rw (append_tokens, e) refl

    -- Where the device gives its slots, the table holds the blocks of its tokens, the free blocks and the rest of the last
    -- block hold the batch, and block numbers fit in slots, the loop ends with every token in place: it takes new blocks,
    -- each counted once, and keeps a slot for each row of the batch in order, which is the slot of its token: with `t`
    -- tokens before it, slot `t % block_size` of the block at place `t / block_size` of the table. The runs to be written,
    -- staged after the earlier batches, put each row at the slot that the cache keeps for it.
    pub append_tokens-Placed :
        (new_seq : ℕ) (c : KvCache) (a : Allocator Pool)
        → Ready new_seq c a
        → (c' : KvCache) × (a' : Allocator Pool) × (runs : List PendingRun) × (append_tokens extend
              new_seq c a
            ≡ filled (stage runs c') a' runs)
          × Placed 0 new_seq c a [] c' a' runs
    unfolding append_tokens
    append_tokens-Placed new_seq c a w =
        let (c', a', runs, e, p) = append_loop-Placed new_seq new_seq 0 c a [] (omega arith) w in
        (c', a', runs, staged_end new_seq c c' a a' runs e, p)
