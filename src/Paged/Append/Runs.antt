-- ===== src/Paged/Append/Runs.antt =====
-- src/common/paged.rs, `append`: the rows that the staged runs write, one by one.
use mathlib.Core.List.{append_assoc, append-nil}
use oxydllm.Base.{
  ℕ, zero, suc, ◌+◌, ◌%◌, ◌≡◌, refl, sym, ap, ◌∙◌, inl, inr, ◌&&◌, List, [], ◌∷◌, ◌++◌, map, arith,
  ◌==◌, range, u32_mod, Bool-cases, some,
}
use oxydllm.Paged.Cache.{PendingRun}
use oxydllm.Paged.Append.{add_run, slots_from, last_of}

-- Row `row + i` of the batch goes to slot `slot + i`.
abbrev pub rows_of : ℕ → ℕ → ℕ → List (ℕ × ℕ)
rows_of slot row zero = []
rows_of slot row (suc n) = (slot, row) ∷ rows_of (slot + 1) (row + 1) n

-- The rows that a list of runs writes.
abbrev pub expand : List PendingRun → List (ℕ × ℕ)
expand [] = []
expand (r ∷ runs) = rows_of r.dst_slot r.src_offset r.n_tokens ++ expand runs

rows_of-add :
    (slot row a b : ℕ)
    → rows_of slot row (a + b) ≡ rows_of slot row a ++ rows_of (slot + a) (row + a) b
rows_of-add slot row zero b = ground arith
rows_of-add slot row (suc a) b =
    let n : suc a + b ≡ suc (a + b) = omega arith in
    let at : slot + suc a ≡ slot + 1 + a = omega arith in
    let from : row + suc a ≡ row + 1 + a = omega arith in
    rw (n, at, from) (ap (λ l. (slot, row) ∷ l) (rows_of-add (slot + 1) (row + 1) a b))

-- Whether or not the last run grows, the new rows come after the others.
pub expand-add_run :
    (dst written n : ℕ) (runs : List PendingRun)
    → expand (add_run dst written n runs) ≡ expand runs ++ rows_of dst written n
unfolding add_run
expand-add_run dst written n [] = append-nil _
expand-add_run dst written n (r ∷ []) =
    elim (Bool-cases (r.dst_slot + r.n_tokens == dst && r.src_offset + r.n_tokens == written)) [
      | inl goes_on ↦ ground (
        arith,
        goes_on,
        rows_of-add r.dst_slot r.src_offset r.n_tokens n,
        append-nil (rows_of r.dst_slot r.src_offset (r.n_tokens + n)),
        append-nil (rows_of r.dst_slot r.src_offset r.n_tokens),
      )
      | inr jumps ↦ rw jumps (
          ground (
            arith,
            append-nil (rows_of dst written n),
            append-nil (rows_of r.dst_slot r.src_offset r.n_tokens),
          ))
    ]
expand-add_run dst written n (r ∷ s ∷ runs) =
    ap (λ l. rows_of r.dst_slot r.src_offset r.n_tokens ++ l)
      (expand-add_run dst written n (s ∷ runs))
    ∙ sym (
        append_assoc (rows_of r.dst_slot r.src_offset r.n_tokens) (expand (s ∷ runs))
          (rows_of dst written n))

pub slots-rows_of :
    (slot row n : ℕ) → map (λ (r : ℕ × ℕ). r.0 % u32_mod) (rows_of slot row n) ≡ slots_from slot n
unfolding slots_from
slots-rows_of slot row zero = refl
slots-rows_of slot row (suc n) =
    ap (λ l. (slot % u32_mod) ∷ l) (slots-rows_of (slot + 1) (row + 1) n)

pub sources-rows_of : (slot row n : ℕ) → map (λ (r : ℕ × ℕ). r.1) (rows_of slot row n) ≡ range row n
unfolding range
sources-rows_of slot row zero = refl
sources-rows_of slot row (suc n) = ap (λ l. row ∷ l) (sources-rows_of (slot + 1) (row + 1) n)

pub range-add : (i a b : ℕ) → range i (a + b) ≡ range i a ++ range (i + a) b
unfolding range
range-add i zero b = ground arith
range-add i (suc a) b =
    let n : suc a + b ≡ suc (a + b) = omega arith in
    let at : i + suc a ≡ i + 1 + a = omega arith in
    rw (n, at) (ap (λ l. i ∷ l) (range-add (i + 1) a b))

pub last_of-snoc : (xs : List ℕ) (x : ℕ) → last_of (xs ++ x ∷ []) ≡ some x
unfolding last_of
last_of-snoc [] x = refl
last_of-snoc (y ∷ []) x = refl
last_of-snoc (y ∷ z ∷ xs) x = last_of-snoc (z ∷ xs) x
