-- ===== src/Paged/Append/Table.antt =====
-- src/common/paged.rs, `append`: the block table holds the blocks of its tokens, and where the tokens of a round go.
use native.Mathlib.Nat.{mod-eq_of_lt, mul-add-mod_self_right}
use oxydllm.Base.{
  ℕ, zero, suc, ◌+◌, ◌-◌, ◌*◌, ◌%◌, ◌≤◌, ◌<◌, ◌≡◌, refl, sym, ap, subst, ◌∙◌, inl, inr, min, List,
  [], ◌∷◌, ◌++◌, some, arith, ◌==◌, if◌then◌else◌, length, length-append, get_elem?, Bool-cases,
}
use oxydllm.Paged.Append.{last_of}
use oxydllm.Paged.Append.Runs.{rows_of}
use oxydllm.Paged.Append.Placed.{InPlace}

-- `num` tokens fill the blocks of a table but the last, which they fill in part or wholly.
pub record Table (num size : ℕ) (blocks : List ℕ) : Type 0 where
  pub full : ℕ
  pub offset : ℕ
  pub tokens : num ≡ full * size + offset
  pub below : offset < size
  pub as_many : length blocks ≡ full + (if offset == 0 then 0 else 1)

pub Table-offset :
    (num size : ℕ) (blocks : List ℕ) (t : Table num size blocks) → num % size ≡ t.offset
Table-offset num size blocks t =
    ap (λ k. k % size) t.tokens ∙ mul-add-mod_self_right t.full size t.offset ∙ mod-eq_of_lt t.below

last_of-get_elem? :
    (xs : List ℕ) (k x : ℕ) → last_of xs ≡ some x → length xs ≡ suc k → get_elem? xs k ≡ some x
unfolding last_of
last_of-get_elem? [] k x e n = absurd (omega (arith, n))
last_of-get_elem? (y ∷ []) zero x e n = e
last_of-get_elem? (y ∷ []) (suc k) x e n = absurd (omega (arith, n))
last_of-get_elem? (y ∷ z ∷ xs) zero x e n = absurd (omega (arith, n))
last_of-get_elem? (y ∷ z ∷ xs) (suc k) x e n = last_of-get_elem? (z ∷ xs) k x e (omega (arith, n))

rows_of-InPlace :
    (blocks : List ℕ) (size full id offset written n : ℕ)
    → get_elem? blocks full ≡ some id
    → offset + n ≤ size
    → InPlace blocks size (full * size + offset) (rows_of (id * size + offset) written n)
rows_of-InPlace blocks size full id offset written zero here fits = tt
rows_of-InPlace blocks size full id offset written (suc n) here fits = (
  record {
    full = full;
    offset = offset;
    id = id;
    at = refl;
    below = omega (arith, fits);
    block = here;
    slot_is = refl;
  },
  let token : full * size + offset + 1 ≡ full * size + (offset + 1) = omega arith in
      let slot : id * size + offset + 1 ≡ id * size + (offset + 1) = omega arith in
      rw (token, slot)
        (rows_of-InPlace blocks size full id (offset + 1) (written + 1) n here
          (omega (arith, fits))),
)

module _ (num size left : ℕ) (blocks taken : List ℕ) (t : Table num size blocks)
    (one : length taken ≡ (if num % size == 0 then 1 else 0)) where
  blocks_after : length (blocks ++ taken) ≡ suc t.full
  blocks_after =
      let same : num % size ≡ t.offset = Table-offset num size blocks t in
      let tail : length taken ≡ (if t.offset == 0 then 1 else 0) =
        subst (λ k. length taken ≡ (if k == 0 then 1 else 0)) same one in
      ground (arith, tail, t.as_many, length-append blocks taken)

  -- The tokens of a round stand in the last block.
  pub round-InPlace :
      (id written : ℕ)
      → last_of (blocks ++ taken) ≡ some id
      → InPlace
          (blocks ++ taken)
          size
          num
          (rows_of (id * size + num % size) written (min (suc left) (size - num % size)))
  round-InPlace id written last =
      let same : num % size ≡ t.offset = Table-offset num size blocks t in
      let here = last_of-get_elem? (blocks ++ taken) t.full id last blocks_after in
      subst
        (λ k.
          InPlace (blocks ++ taken) size num
            (rows_of (id * size + k) written (min (suc left) (size - k))))
        (sym same)
        (subst
          (λ k.
            InPlace (blocks ++ taken) size k
              (rows_of (id * size + t.offset) written (min (suc left) (size - t.offset))))
          (sym t.tokens)
          (rows_of-InPlace (blocks ++ taken) size t.full id t.offset written
            (min (suc left) (size - t.offset)) here (omega (arith, t.below))))

  -- The table holds the blocks of the tokens after the round.
  pub round-Table : Table (num + min (suc left) (size - num % size)) size (blocks ++ taken)
  round-Table =
      let same : num % size ≡ t.offset = Table-offset num size blocks t in
      elim (Bool-cases (t.offset + min (suc left) (size - num % size) == size)) [
        | inl whole ↦
            let up : t.offset + min (suc left) (size - num % size) ≡ size = ground (arith, whole) in
            let next : (t.full + 1) * size ≡ t.full * size + size = omega arith in
            record {
              full = t.full + 1;
              offset = 0;
              tokens = omega (arith, t.tokens, up, next);
              below = omega (arith, t.below);
              as_many = omega (arith, blocks_after);
            }
        | inr part ↦
            let under : t.offset + min (suc left) (size - num % size) < size =
              ground (arith, part, same, t.below) in
            let some_more : 0 < t.offset + min (suc left) (size - num % size) =
              omega (arith, same, t.below) in
            record {
              full = t.full;
              offset = t.offset + min (suc left) (size - num % size);
              tokens = omega (arith, t.tokens);
              below = under;
              as_many = ground (arith, some_more, blocks_after);
            }
      ]
