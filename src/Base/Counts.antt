-- ===== src/Base/Counts.antt =====
-- How often a number stands in a list, and the lists of consecutive numbers.
use Prim.Native.Nat.{ℕ, zero, suc, ◌+◌}
use mathlib.Core.Path.{◌≡◌, refl}
use mathlib.Core.Bool.{◌&&◌}
use mathlib.Core.List.{List, [], ◌∷◌, ◌++◌}
use native.Mathlib.Omega.{arith}
use oxydllm.Base.Lists.{length}
use oxydllm.Base.Tests.{◌==◌, leb, ltb, if◌then◌else◌}

abbrev pub count : ℕ → List ℕ → ℕ
count a [] = 0
count a (x ∷ xs) = (if x == a then 1 else 0) + count a xs

-- `(i..i + n)`.
unfoldable pub range : ℕ → ℕ → List ℕ
range i zero = []
range i (suc n) = i ∷ range (i + 1) n

pub count-append : (a : ℕ) (xs ys : List ℕ) → count a (xs ++ ys) ≡ count a xs + count a ys
count-append a [] ys = omega arith
count-append a (x ∷ xs) ys = ground (arith, count-append a xs ys)

pub length-range : (i n : ℕ) → length (range i n) ≡ n
unfolding range
length-range i zero = refl
length-range i (suc n) = omega (arith, length-range (i + 1) n)

pub count-range : (a i n : ℕ) → count a (range i n) ≡ (if leb i a && ltb a (i + n) then 1 else 0)
unfolding range
count-range a i zero = ground arith
count-range a i (suc n) = ground (arith, count-range a (i + 1) n)
