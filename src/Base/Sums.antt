-- ===== src/Base/Sums.antt =====
-- A weight summed over a list, and reads of a list after it was changed.
use Prim.Native.Nat.{ℕ, zero, suc, ◌+◌, ◌<◌}
use mathlib.Core.Path.{◌≡◌, refl}
use mathlib.Core.Bool.{true}
use mathlib.Core.List.{List, [], ◌∷◌, ◌++◌}
use mathlib.Core.Option.{some}
use mathlib.Core.Logic.{◌⊎◌, inl, inr}
use native.Mathlib.Omega.{arith}
use oxydllm.Base.Lists.{length, get_elem?, set}
use oxydllm.Base.Tests.{◌==◌, ltb, if◌then◌else◌}

abbrev pub sum_by {ℓ} : {A : Type ℓ} → (A → ℕ) → List A → ℕ
sum_by f [] = 0
sum_by f (x ∷ xs) = f x + sum_by f xs

module _ {A : Type 0} where
  pub sum_by-append : (f : A → ℕ) (xs ys : List A) → sum_by f (xs ++ ys) ≡ sum_by f xs + sum_by f ys
  sum_by-append f [] ys = omega arith
  sum_by-append f (x ∷ xs) ys = omega (arith, sum_by-append f xs ys)

  pub sum_by-one : (xs : List A) → sum_by (λ x. 1) xs ≡ length xs
  sum_by-one [] = refl
  sum_by-one (x ∷ xs) = omega (arith, sum_by-one xs)

  pub sum_by-set :
      (f : A → ℕ) (xs : List A) (i : ℕ) (y : A) {x : A}
      → get_elem? xs i ≡ some x
      → sum_by f (set xs i y) + f x ≡ sum_by f xs + f y
  sum_by-set f [] i y h = ground arith
  sum_by-set f (z ∷ xs) zero y h = ground arith
  sum_by-set f (z ∷ xs) (suc i) y h = omega (arith, sum_by-set f xs i y h)

  pub get_elem?-append_one :
      (xs : List A) (x : A) (j : ℕ)
      → get_elem? (xs ++ x ∷ []) j ≡ (if j == length xs then some x else get_elem? xs j)
  get_elem?-append_one [] x zero = ground arith
  get_elem?-append_one [] x (suc j) = ground arith
  get_elem?-append_one (y ∷ xs) x zero = ground arith
  get_elem?-append_one (y ∷ xs) x (suc j) = ground (arith, get_elem?-append_one xs x j)

  pub get_elem?-set_lem :
      (xs : List A) (i : ℕ) (y : A) (j : ℕ) {x : A}
      → get_elem? xs i ≡ some x
      → get_elem? (set xs i y) j ≡ (if j == i then some y else get_elem? xs j)
  get_elem?-set_lem [] i y j h = ground arith
  get_elem?-set_lem (z ∷ xs) zero y zero h = ground arith
  get_elem?-set_lem (z ∷ xs) zero y (suc j) h = ground arith
  get_elem?-set_lem (z ∷ xs) (suc i) y zero h = ground arith
  get_elem?-set_lem (z ∷ xs) (suc i) y (suc j) h = ground (arith, get_elem?-set_lem xs i y j h)

  pub get_elem?-some-lt :
      (xs : List A) (i : ℕ) {x : A} → get_elem? xs i ≡ some x → (ltb i (length xs)) ≡ true
  get_elem?-some-lt [] i h = ground arith
  get_elem?-some-lt (y ∷ xs) zero h = ground arith
  get_elem?-some-lt (y ∷ xs) (suc i) h = ground (arith, get_elem?-some-lt xs i h)

  pub get_elem?_last : (x : A) (xs : List A) → (l : A) × (get_elem? (x ∷ xs) (length xs) ≡ some l)
  get_elem?_last x [] = (x, refl)
  get_elem?_last x (y ∷ xs) = get_elem?_last y xs

pub get_elem?-some {ℓ} :
    {A : Type ℓ} (xs : List A) (i : ℕ) → i < length xs → (x : A) × (get_elem? xs i ≡ some x)
get_elem?-some [] i h = absurd (omega arith)
get_elem?-some (x ∷ xs) zero h = (x, refl)
get_elem?-some (x ∷ xs) (suc i) h = get_elem?-some xs i (omega arith)

pub get_elem?-set-cases {ℓ} :
    {A : Type ℓ} (xs : List A) (i j : ℕ) (y x : A)
    → get_elem? (set xs i y) j ≡ some x
    → (x ≡ y) ⊎ (get_elem? xs j ≡ some x)
get_elem?-set-cases [] i j y x e = inr e
get_elem?-set-cases (z ∷ xs) zero zero y x e = inl cc
get_elem?-set-cases (z ∷ xs) zero (suc j) y x e = inr e
get_elem?-set-cases (z ∷ xs) (suc i) zero y x e = inr e
get_elem?-set-cases (z ∷ xs) (suc i) (suc j) y x e = get_elem?-set-cases xs i j y x e
