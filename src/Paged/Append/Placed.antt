-- ===== src/Paged/Append/Placed.antt =====
-- src/common/paged.rs, `append`: what it means that rows of the batch are in place, and that this adds up.
use mathlib.Core.List.{append_assoc, append-nil, map-append}
use oxydllm.Base.{
  ℕ, zero, suc, ◌+◌, ◌*◌, ◌%◌, ◌<◌, ◌≡◌, refl, sym, ap, subst, ◌∙◌, true, some, List, [], ◌∷◌, ◌++◌,
  map, get_elem?, length-map, length-range, arith, range, length, length-append, count,
  count-append, u32_mod,
}
use oxydllm.Paged.Allocator.{Allocator, num_free}
use oxydllm.Paged.Allocator.Invariant.{Inv, refs}
use oxydllm.Paged.Cache.{KvCache, PendingRun}
use oxydllm.Paged.Append.Runs.{expand, range-add}

-- The slot of a row, as the cache keeps it.
abbrev slot_of_row : ℕ × ℕ → ℕ
slot_of_row r = r.0 % u32_mod

abbrev source_of_row : ℕ × ℕ → ℕ
source_of_row r = r.1

-- Token `t` has `slot`: it is token `offset` of the block that the table holds at place `full`.
pub record InSlot (blocks : List ℕ) (size t slot : ℕ) : Type 0 where
  pub full : ℕ
  pub offset : ℕ
  pub id : ℕ
  pub at : t ≡ full * size + offset
  pub below : offset < size
  pub block : get_elem? blocks full ≡ some id
  pub slot_is : slot ≡ id * size + offset

-- The rows go to the slots of tokens `t`, `t + 1`, ...
abbrev pub InPlace : List ℕ → ℕ → ℕ → List (ℕ × ℕ) → Type 0
InPlace blocks size t [] = Unit
InPlace blocks size t (r ∷ rows) = InSlot blocks size t r.0 × InPlace blocks size (t + 1) rows

get_elem?-append :
    (xs ys : List ℕ) (i x : ℕ) → get_elem? xs i ≡ some x → get_elem? (xs ++ ys) i ≡ some x
get_elem?-append [] ys i x e = absurd cc
get_elem?-append (y ∷ xs) ys zero x e = e
get_elem?-append (y ∷ xs) ys (suc i) x e = get_elem?-append xs ys i x e

-- More blocks behind the table change no slot.
InPlace-more :
    (blocks more : List ℕ) (size t : ℕ) (rows : List (ℕ × ℕ))
    → InPlace blocks size t rows
    → InPlace (blocks ++ more) size t rows
InPlace-more blocks more size t [] h = tt
InPlace-more blocks more size t (r ∷ rows) h = (
  record {
    full = h.0.full;
    offset = h.0.offset;
    id = h.0.id;
    at = h.0.at;
    below = h.0.below;
    block = get_elem?-append blocks more h.0.full h.0.id h.0.block;
    slot_is = h.0.slot_is;
  },
  InPlace-more blocks more size (t + 1) rows h.1,
)

InPlace-append :
    (blocks : List ℕ) (size t : ℕ) (xs ys : List (ℕ × ℕ))
    → InPlace blocks size t xs
    → InPlace blocks size (t + length xs) ys
    → InPlace blocks size t (xs ++ ys)
InPlace-append blocks size t [] ys h k = subst (λ n. InPlace blocks size n ys) (omega arith) k
InPlace-append blocks size t (x ∷ xs) ys h k = (
  h.0,
  InPlace-append blocks size (t + 1) xs ys h.1
      (subst (λ n. InPlace blocks size n ys) (omega arith) k),
)

length-sources :
    (rows : List (ℕ × ℕ)) (w n : ℕ) → map source_of_row rows ≡ range w n → length rows ≡ n
length-sources rows w n e = sym (length-map rows source_of_row) ∙ ap length e ∙ length-range w n

module _ {Pool : Type 0} where
  -- `c'`, `a'` and `runs'` are `c`, `a` and `runs` with rows `written`, `written + 1`, ..., `left` of them, in place.
  pub record Placed (written left : ℕ) (c : KvCache) (a : Allocator Pool) (runs : List PendingRun)
      (c' : KvCache) (a' : Allocator Pool) (runs' : List PendingRun) : Type 0 where
    pub inv : Inv a'
    pub taken : List ℕ
    pub blocks : c'.block_ids ≡ c.block_ids ++ taken
    pub refs_after : (j : ℕ) → refs a' j ≡ refs a j + count j taken
    pub free_after : num_free a' + length taken ≡ num_free a
    pub rows : List (ℕ × ℕ)
    pub slots : c'.cached_slots ≡ c.cached_slots ++ map slot_of_row rows
    pub sources : map source_of_row rows ≡ range written left
    pub placed : InPlace c'.block_ids c.block_size c.num_tokens rows
    pub staged : c.pool_writes ≡ true → expand runs' ≡ expand runs ++ rows
    pub tokens : c'.num_tokens ≡ c.num_tokens + left
    pub same_size : c'.block_size ≡ c.block_size
    pub same_writes : c'.pool_writes ≡ c.pool_writes
    pub same_ceiling : a'.max_blocks ≡ a.max_blocks
    pub same_pending : c'.pending_writes ≡ c.pending_writes

  pub Placed-refl :
      (written : ℕ) (c : KvCache) (a : Allocator Pool) (runs : List PendingRun)
      → Inv a
      → Placed written 0 c a runs c a runs
  unfolding range
  Placed-refl written c a runs v = record {
    inv = v;
    taken = [];
    blocks = sym (append-nil _);
    refs_after = λ j. omega arith;
    free_after = omega arith;
    rows = [];
    slots = sym (append-nil _);
    sources = refl;
    placed = tt;
    staged = λ w. sym (append-nil _);
    tokens = omega arith;
    same_size = refl;
    same_writes = refl;
    same_ceiling = refl;
    same_pending = refl;
  }

  pub Placed-trans :
      (written m n : ℕ) (c c1 c2 : KvCache) (a a1 a2 : Allocator Pool)
      (runs runs1 runs2 : List PendingRun)
      → Placed written m c a runs c1 a1 runs1
      → Placed (written + m) n c1 a1 runs1 c2 a2 runs2
      → Placed written (m + n) c a runs c2 a2 runs2
  Placed-trans written m n c c1 c2 a a1 a2 runs runs1 runs2 p q = record {
    inv = q.inv;
    taken = p.taken ++ q.taken;
    blocks = q.blocks ∙ ap (λ l. l ++ q.taken) p.blocks ∙ append_assoc c.block_ids p.taken q.taken;
    refs_after = λ j. omega (arith, p.refs_after j, q.refs_after j, count-append j p.taken q.taken);
    free_after = omega (arith, p.free_after, q.free_after, length-append p.taken q.taken);
    rows = p.rows ++ q.rows;
    slots =
        q.slots
        ∙ ap (λ l. l ++ map slot_of_row q.rows) p.slots
        ∙ append_assoc c.cached_slots (map slot_of_row p.rows) (map slot_of_row q.rows)
        ∙ ap (λ l. c.cached_slots ++ l) (sym (map-append slot_of_row p.rows q.rows));
    sources =
        map-append source_of_row p.rows q.rows
        ∙ ap (λ l. l ++ map source_of_row q.rows) p.sources
        ∙ ap (λ l. range written m ++ l) q.sources
        ∙ sym (range-add written m n);
    placed =
        let first : InPlace c2.block_ids c.block_size c.num_tokens p.rows =
          subst (λ l. InPlace l c.block_size c.num_tokens p.rows) (sym q.blocks)
            (InPlace-more c1.block_ids q.taken c.block_size c.num_tokens p.rows p.placed) in
        let as_many : c1.num_tokens ≡ c.num_tokens + length p.rows =
          omega (arith, p.tokens, length-sources p.rows written m p.sources) in
        let second : InPlace c2.block_ids c.block_size (c.num_tokens + length p.rows) q.rows =
          subst (λ k. InPlace c2.block_ids c.block_size k q.rows) as_many
            (subst (λ k. InPlace c2.block_ids k c1.num_tokens q.rows) p.same_size q.placed) in
        InPlace-append c2.block_ids c.block_size c.num_tokens p.rows q.rows first second;
    staged = λ w.
        q.staged (p.same_writes ∙ w)
        ∙ ap (λ l. l ++ q.rows) (p.staged w)
        ∙ append_assoc (expand runs) p.rows q.rows;
    tokens = omega (arith, p.tokens, q.tokens);
    same_size = q.same_size ∙ p.same_size;
    same_writes = q.same_writes ∙ p.same_writes;
    same_ceiling = q.same_ceiling ∙ p.same_ceiling;
    same_pending = q.same_pending ∙ p.same_pending;
  }
