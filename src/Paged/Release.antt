-- ===== src/Paged/Release.antt =====
-- src/common/paged.rs: giving back the blocks of a table.
use oxydllm.Base.{ℕ, ◌+◌, ◌≤◌, ◌<◌, ◌≡◌, refl, List, [], ◌∷◌, some, arith, count, u32_mod}
use oxydllm.Paged.Allocator.{Allocator, num_free}
use oxydllm.Paged.Allocator.Invariant.{Inv, refs}
use oxydllm.Paged.Allocator.Share.{free-Freed}
use oxydllm.Paged.Cache.{free_blocks}

module _ {ℓ} {Pool : Type ℓ} where
  -- Blocks that are counted can be freed, and the references of the other owners `g` are left.
  pub free_blocks_lem :
      (g : ℕ → ℕ) (ids : List ℕ) (a : Allocator Pool)
      → Inv a
      → ((b : ℕ) → refs a b ≡ g b + count b ids)
      → ((b : ℕ) → refs a b < u32_mod)
      → (a' : Allocator Pool) × (free_blocks ids a ≡ some a')
        × Inv a'
        × ((b : ℕ) → refs a' b ≡ g b)
        × (num_free a ≤ num_free a')
  unfolding free_blocks
  free_blocks_lem g [] a v e small = (a, refl, v, λ b. omega (arith, e b), omega arith)
  free_blocks_lem g (x ∷ ids) a v e small =
      let (a1, s, w) = free-Freed a x v (ground (arith, e x)) (small x) in
      let (a', r, v', done, more) =
        free_blocks_lem g ids a1 w.inv (λ b. ground (arith, e b, w.refs_after b))
          (λ b. ground (arith, small b, w.refs_after b)) in
      (a', rw s r, v', done, omega (arith, w.free_after, more))
