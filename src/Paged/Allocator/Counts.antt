-- ===== src/Paged/Allocator/Counts.antt =====
-- The reference counts as a table: which blocks are free, and how many.
use oxydllm.Base.{
  ℕ, zero, suc, ◌+◌, ◌≤◌, ◌<◌, ◌≡◌, refl, ap, ◌&&◌, List, [], ◌∷◌, ◌++◌, Option, none, some, arith,
  ltb, leb, ◌==◌, if◌then◌else◌, length, get_elem?, set, take, replicate, get_or,
}

-- One where the block exists and nobody holds it.
abbrev pub is_free : Option ℕ → ℕ
is_free none = 0
is_free (some zero) = 1
is_free (some (suc c)) = 0

abbrev pub zeros : List ℕ → ℕ
zeros [] = 0
zeros (c ∷ cs) = is_free (some c) + zeros cs

-- How many blocks somebody holds.
abbrev pub held : List ℕ → ℕ
held [] = 0
held (zero ∷ cs) = held cs
held (suc c ∷ cs) = suc (held cs)

pub held-add-zeros : (cs : List ℕ) → held cs + zeros cs ≡ length cs
held-add-zeros [] = refl
held-add-zeros (zero ∷ cs) = omega (arith, held-add-zeros cs)
held-add-zeros (suc c ∷ cs) = omega (arith, held-add-zeros cs)

pub zeros-set :
    (cs : List ℕ) (b c v : ℕ)
    → get_elem? cs b ≡ some c
    → zeros (set cs b v) + is_free (some c) ≡ zeros cs + is_free (some v)
zeros-set [] b c v h = ground arith
zeros-set (x ∷ cs) zero c v h = ground arith
zeros-set (x ∷ cs) (suc b) c v h = omega (arith, zeros-set cs b c v h)

pub zeros-append-replicate : (cs : List ℕ) (n : ℕ) → zeros (cs ++ replicate n 0) ≡ zeros cs + n
zeros-append-replicate [] zero = refl
zeros-append-replicate [] (suc n) = omega (arith, zeros-append-replicate [] n)
zeros-append-replicate (c ∷ cs) n = omega (arith, zeros-append-replicate cs n)

pub is_free-append-replicate :
    (cs : List ℕ) (n b : ℕ)
    → is_free (get_elem? (cs ++ replicate n 0) b)
      ≡ is_free (get_elem? cs b) + (if leb (length cs) b && ltb b (length cs + n) then 1 else 0)
is_free-append-replicate [] zero b = ground arith
is_free-append-replicate [] (suc n) zero = ground arith
is_free-append-replicate [] (suc n) (suc b) = ground (arith, is_free-append-replicate [] n b)
is_free-append-replicate (c ∷ cs) n zero = ground arith
is_free-append-replicate (c ∷ cs) n (suc b) = ground (arith, is_free-append-replicate cs n b)

pub get_elem?-lt : (cs : List ℕ) (b : ℕ) {c : ℕ} → get_elem? cs b ≡ some c → b < length cs
get_elem?-lt [] b h = ground arith
get_elem?-lt (x ∷ cs) zero h = omega arith
get_elem?-lt (x ∷ cs) (suc b) h = omega (arith, get_elem?-lt cs b h)

pub get_elem?-set :
    (cs : List ℕ) (b v j : ℕ)
    → get_elem? (set cs b v) j
      ≡ (if j == b then (if ltb b (length cs) then some v else none) else get_elem? cs j)
get_elem?-set [] b v j = ground arith
get_elem?-set (x ∷ cs) zero v zero = ground arith
get_elem?-set (x ∷ cs) zero v (suc j) = ground arith
get_elem?-set (x ∷ cs) (suc b) v zero = ground arith
get_elem?-set (x ∷ cs) (suc b) v (suc j) = ground (arith, get_elem?-set cs b v j)

pub take_all : (cs : List ℕ) (n : ℕ) → length cs ≤ n → take n cs ≡ cs
take_all [] zero h = refl
take_all [] (suc n) h = refl
take_all (c ∷ cs) zero h = absurd (omega arith)
take_all (c ∷ cs) (suc n) h = ap (◌∷◌ c) (take_all cs n (omega arith))

pub is_free-pos : (o : Option ℕ) → 0 < is_free o → o ≡ some 0
is_free-pos none h = absurd (omega arith)
is_free-pos (some zero) h = refl
is_free-pos (some (suc c)) h = absurd (omega arith)

pub get_or-append-replicate :
    (cs : List ℕ) (n b : ℕ) → get_or (cs ++ replicate n 0) b 0 ≡ get_or cs b 0
get_or-append-replicate [] zero b = refl
get_or-append-replicate [] (suc n) zero = refl
get_or-append-replicate [] (suc n) (suc b) = get_or-append-replicate [] n b
get_or-append-replicate (c ∷ cs) n zero = refl
get_or-append-replicate (c ∷ cs) n (suc b) = get_or-append-replicate cs n b

pub get_or-set :
    (cs : List ℕ) (b v j : ℕ) {c : ℕ}
    → get_elem? cs b ≡ some c
    → get_or (set cs b v) j 0 ≡ (if j == b then v else get_or cs j 0)
get_or-set [] b v j h = ground arith
get_or-set (x ∷ cs) zero v zero h = ground arith
get_or-set (x ∷ cs) zero v (suc j) h = ground arith
get_or-set (x ∷ cs) (suc b) v zero h = ground arith
get_or-set (x ∷ cs) (suc b) v (suc j) h = ground (arith, get_or-set cs b v j h)

pub get_or-get_elem? : (cs : List ℕ) (b : ℕ) {c : ℕ} → get_elem? cs b ≡ some c → get_or cs b 0 ≡ c
get_or-get_elem? [] b h = ground arith
get_or-get_elem? (x ∷ cs) zero h = ground arith
get_or-get_elem? (x ∷ cs) (suc b) h = get_or-get_elem? cs b h

-- A count above zero is the count of a block that exists.
pub get_elem?-get_or :
    (cs : List ℕ) (b : ℕ) → 0 < get_or cs b 0 → get_elem? cs b ≡ some (get_or cs b 0)
get_elem?-get_or [] b h = absurd (omega arith)
get_elem?-get_or (x ∷ cs) zero h = refl
get_elem?-get_or (x ∷ cs) (suc b) h = get_elem?-get_or cs b h
