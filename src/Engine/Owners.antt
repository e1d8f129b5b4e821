-- ===== src/Engine/Owners.antt =====
-- src/engine.rs: a batch as the list of its tokens' owners, each token as the index of its sequence.
use mathlib.Core.List.{append_assoc, append-nil}
use oxydllm.Base.{
  ℕ, zero, suc, ◌+◌, ◌-◌, ◌≤◌, ◌≡◌, refl, sym, ap, ◌∙◌, List, [], ◌∷◌, ◌++◌, none, some, length,
  length-append, length-replicate, get_elem?, drop, replicate, arith,
}
use oxydllm.Engine.{sum}

abbrev pub owners : ℕ → List ℕ → List ℕ
owners base [] = []
owners base (c ∷ counts) = replicate c base ++ owners (base + 1) counts

-- The tokens that are left, from the sequence `seq` on, of which `done` are done.
abbrev pub left : List ℕ → ℕ → ℕ → List ℕ
left counts seq done = drop done (owners seq (drop seq counts))

pub length-owners : (base : ℕ) (counts : List ℕ) → length (owners base counts) ≡ sum counts
length-owners base [] = refl
length-owners base (c ∷ counts) = omega (
  arith,
  length-append (replicate c base) (owners (base + 1) counts),
  length-replicate c base,
  length-owners (base + 1) counts,
)

pub owners-append_one :
    (base : ℕ) (counts : List ℕ) (t : ℕ)
    → owners base (counts ++ t ∷ []) ≡ owners base counts ++ replicate t (base + length counts)
owners-append_one base [] t = append-nil (replicate t base) ∙ ap (replicate t) (omega arith)
owners-append_one base (c ∷ counts) t =
    ap (λ l. replicate c base ++ l)
      (owners-append_one (base + 1) counts t
        ∙ ap (λ k. owners (base + 1) counts ++ replicate t k) (omega arith))
    ∙ sym (
        append_assoc (replicate c base) (owners (base + 1) counts)
          (replicate t (base + suc (length counts))))

pub get_elem?-none-le {ℓ} :
    {A : Type ℓ} (xs : List A) (i : ℕ) → get_elem? xs i ≡ none → length xs ≤ i
get_elem?-none-le [] i e = omega arith
get_elem?-none-le (x ∷ xs) zero e = absurd cc
get_elem?-none-le (x ∷ xs) (suc i) e = omega (arith, get_elem?-none-le xs i e)

drop-get_elem? {ℓ} :
    {A : Type ℓ} (xs : List A) (i : ℕ) (x : A)
    → get_elem? xs i ≡ some x
    → drop i xs ≡ x ∷ drop (i + 1) xs
drop-get_elem? [] i x e = absurd cc
drop-get_elem? (y ∷ xs) zero x e = ap (λ o. elim o [ none ↦ x | some z ↦ z ] ∷ xs) e
drop-get_elem? (y ∷ xs) (suc i) x e =
    drop-get_elem? xs i x e ∙ ap (λ k. x ∷ drop k (y ∷ xs)) (next i)
  where
    next : (i : ℕ) → suc (i + 1) ≡ suc i + 1
    next i = omega arith

drop-replicate :
    (d c a : ℕ) (l : List ℕ) → d ≤ c → drop d (replicate c a ++ l) ≡ replicate (c - d) a ++ l
drop-replicate zero c a l h = ap (λ n. replicate n a ++ l) (omega arith)
drop-replicate (suc d) zero a l h = absurd (omega arith)
drop-replicate (suc d) (suc c) a l h =
    drop-replicate d c a l (omega arith) ∙ ap (λ n. replicate n a ++ l) (less c d)
  where
    less : (c d : ℕ) → c - d ≡ suc c - suc d
    less c d = omega arith

replicate-add : (n k a : ℕ) → replicate (n + k) a ≡ replicate n a ++ replicate k a
replicate-add zero k a = ap (λ j. replicate j a) (omega arith)
replicate-add (suc n) k a =
    let next : suc n + k ≡ suc (n + k) = omega arith in
    ap (λ j. replicate j a) next ∙ ap (λ l. a ∷ l) (replicate-add n k a)

module _ (counts : List ℕ) (seq c : ℕ) (here : get_elem? counts seq ≡ some c) where
  left_here :
      (done : ℕ)
      → done ≤ c
      → left counts seq done ≡ replicate (c - done) seq ++ owners (seq + 1) (drop (seq + 1) counts)
  left_here done h =
      ap (λ l. drop done (owners seq l)) (drop-get_elem? counts seq c here)
      ∙ drop-replicate done c seq (owners (seq + 1) (drop (seq + 1) counts)) h

  -- Some tokens of a sequence come first of what is left.
  pub left-add :
      (done t : ℕ)
      → done + t ≤ c
      → left counts seq done ≡ replicate t seq ++ left counts seq (done + t)
  left-add done t h =
      let rest : List ℕ = owners (seq + 1) (drop (seq + 1) counts) in
      left_here done (omega (arith, h))
      ∙ ap (λ n. replicate n seq ++ rest) (omega (arith, h))
      ∙ ap (λ l. l ++ rest) (replicate-add t (c - (done + t)) seq)
      ∙ append_assoc (replicate t seq) (replicate (c - (done + t)) seq) rest
      ∙ ap (λ l. replicate t seq ++ l) (sym (left_here (done + t) h))

  -- Behind a whole sequence stands the next.
  pub left-whole : left counts seq c ≡ left counts (seq + 1) 0
  left-whole =
      let all : c - c ≡ 0 = omega arith in
      left_here c (omega arith)
      ∙ ap (λ n. replicate n seq ++ owners (seq + 1) (drop (seq + 1) counts)) all
