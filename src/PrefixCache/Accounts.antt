-- ===== src/PrefixCache/Accounts.antt =====
-- Whose references the counts of the layers' allocators are.
use oxydllm.Base.{
  ℕ, zero, suc, ◌+◌, ◌≤◌, ◌<◌, ◌≡◌, refl, List, [], ◌∷◌, some, arith, ◌==◌, if◌then◌else◌, length,
  u32_mod,
}
use oxydllm.Paged.Allocator.{Allocator, num_free_blocks}
use oxydllm.Paged.Allocator.Invariant.{Inv, refs}
use oxydllm.Paged.Allocator.Share.{share-Shared, free-Freed}
use oxydllm.PrefixCache.{free_ids, share_ids}

-- One where `ids` names block `b` at layer `l`.
abbrev pub holds : List ℕ → ℕ → ℕ → ℕ
holds [] l b = 0
holds (x ∷ xs) zero b = if x == b then 1 else 0
holds (x ∷ xs) (suc l) b = holds xs l b

-- Every layer's allocator is well formed, and block `b` of layer `l` has `f l b` references.
abbrev pub Accounts {ℓ} : {Pool : Type ℓ} → (ℕ → ℕ → ℕ) → List (Allocator Pool) → Type 0
Accounts f [] = Unit
Accounts f (a ∷ ls) = Inv a × ((b : ℕ) → refs a b ≡ f 0 b) × Accounts (λ l. f (suc l)) ls

-- Each id names a block that somebody else holds too.
abbrev pub HeldBy : (ℕ → ℕ → ℕ) → List ℕ → Type 0
HeldBy g [] = Unit
HeldBy g (x ∷ ids) = (0 < g 0 x) × HeldBy (λ l. g (suc l)) ids

module _ {ℓ} {Pool : Type ℓ} where
  pub Accounts-eq :
      (f g : ℕ → ℕ → ℕ) (ls : List (Allocator Pool))
      → ((l b : ℕ) → f l b ≡ g l b)
      → Accounts f ls
      → Accounts g ls
  Accounts-eq f g [] e acc = tt
  Accounts-eq f g (a ∷ ls) e (v, c, acc) = (
    v,
    λ b. omega (arith, c b, e 0 b),
    Accounts-eq (λ l. f (suc l)) (λ l. g (suc l)) ls (λ l. e (suc l)) acc,
  )

  -- Giving back `ids` drops one reference to each of its blocks, and cannot fail while they are counted.
  pub free_ids-Accounts :
      (f g : ℕ → ℕ → ℕ) (ids : List ℕ) (ls : List (Allocator Pool))
      → ((l b : ℕ) → f l b ≡ g l b + holds ids l b)
      → ((l b : ℕ) → f l b < u32_mod)
      → Accounts f ls
      → (ls' : List (Allocator Pool)) × (free_ids ids ls ≡ some ls')
        × Accounts g ls'
        × (length ls' ≡ length ls)
        × (num_free_blocks ls ≤ num_free_blocks ls')
  unfolding free_ids num_free_blocks
  free_ids-Accounts f g [] ls split small acc =
      (ls, refl, Accounts-eq f g ls (λ l b. omega (arith, split l b)) acc, refl, omega arith)
  free_ids-Accounts f g (b ∷ ids) [] split small acc = ([], refl, tt, refl, omega arith)
  free_ids-Accounts f g (x ∷ ids) (a ∷ ls) split small (v, e, acc) =
      let (ls', r, acc', n, _) =
        free_ids-Accounts (λ l. f (suc l)) (λ l. g (suc l)) ids ls (λ l b. split (suc l) b)
          (λ l b. small (suc l) b) acc in
      let (a', s, w) =
        free-Freed a x v (ground (arith, e x, split 0 x)) (omega (arith, e x, small 0 x)) in
      (
        a' ∷ ls',
        rw (s, r),
        (w.inv, λ b. ground (arith, e b, split 0 b, w.refs_after b), acc'),
        omega (arith, n),
        omega (arith, w.free_after),
      )

  -- Sharing blocks that are held counts one more reference to each; there must be a layer for each id.
  pub share_ids-Accounts :
      (f g : ℕ → ℕ → ℕ) (ids : List ℕ) (ls : List (Allocator Pool))
      → ((l b : ℕ) → g l b ≡ f l b + holds ids l b)
      → ((l b : ℕ) → g l b < u32_mod)
      → length ids ≤ length ls
      → HeldBy f ids
      → Accounts f ls
      → (ls' : List (Allocator Pool)) × (share_ids ids ls ≡ some ls')
        × Accounts g ls'
        × (length ls' ≡ length ls)
  unfolding share_ids
  share_ids-Accounts f g [] ls split small fit held acc =
      (ls, refl, Accounts-eq f g ls (λ l b. omega (arith, split l b)) acc, refl)
  share_ids-Accounts f g (x ∷ ids) [] split small fit held acc = absurd (omega arith)
  share_ids-Accounts f g (x ∷ ids) (a ∷ ls) split small fit (pos, held) (v, e, acc) =
      let (ls', r, acc', n) =
        share_ids-Accounts (λ l. f (suc l)) (λ l. g (suc l)) ids ls (λ l b. split (suc l) b)
          (λ l b. small (suc l) b) (omega arith) held acc in
      let (a', s, w) =
        share-Shared a x v (omega (arith, e x)) (ground (arith, e x, split 0 x, small 0 x)) in
      (
        a' ∷ ls',
        rw (s, r),
        (w.inv, λ b. ground (arith, e b, split 0 b, w.refs_after b), acc'),
        omega (arith, n),
      )
