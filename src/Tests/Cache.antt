-- ===== src/Tests/Cache.antt =====
-- src/common/prefix_cache.rs and src/scheduler/sequence.rs: the theorems at a pool with one block held.
use oxydllm.Base.{
  ℕ, zero, suc, ◌+◌, ◌≤◌, ◌<◌, ◌≡◌, refl, Bool, false, List, [], ◌∷◌, some, arith, length, u32_mod,
}
use oxydllm.Paged.Allocator.{Allocator}
use oxydllm.Paged.Allocator.Invariant.{refs}
use oxydllm.PrefixCache.Accounts.{holds, Accounts}
use oxydllm.PrefixCache.Evict.{cached, size, Evicted, evict_lru-Accounts}
use oxydllm.PrefixCache.Register.{register-Accounts}
use oxydllm.PrefixCache.Lookup.{Longest, blocks, count-lookup, lookup-Longest, touch-lookup}
use oxydllm.PrefixCache.Update.{evict_lru, register}
use oxydllm.PrefixCache.{PrefixCache, chain_hash, count_cached_blocks, lookup, touch}
use oxydllm.Sequence.Clear.{caches_hold, Cleared, clear_caches-Cleared}
use oxydllm.Tests.Data.{lru, hasher, held_pool, held_pool-Inv, runner, empty_cache}

-- Block 0 of layer 0 has one owner.
abbrev owner : ℕ → ℕ → ℕ
owner l b = holds (0 ∷ []) l b

owner-le : (l b : ℕ) → owner l b ≤ 1
owner-le zero b = ground arith
owner-le (suc l) b = ground arith

one_ref : (b : ℕ) → refs held_pool b ≡ owner 0 b
one_ref zero = refl
one_ref (suc zero) = refl
one_ref (suc (suc b)) = ground arith

-- A cache with one entry, the block of the tokens 1 and 2.
abbrev filled : PrefixCache hasher lru
filled = record {
  entries = record {
    cap = 2;
    items =
        (chain_hash hasher (1 ∷ 2 ∷ []) 0, record { block_ids = 0 ∷ []; block_tokens = 1 ∷ 2 ∷ [] })
        ∷ [];
  };
  disabled = false;
}

evict_lru-Accounts_example :
    (dropped : Bool) × (pc : PrefixCache hasher lru) × (ls : List (Allocator ℕ)) × (evict_lru hasher
        lru filled
        (held_pool ∷ [])
      ≡ some (dropped, pc, ls))
    × Evicted hasher lru (λ l b. 0) filled (held_pool ∷ []) dropped pc ls
evict_lru-Accounts_example =
    evict_lru-Accounts hasher lru (λ l b. 0) filled (held_pool ∷ [])
      (λ l b. omega (arith, owner-le l b)) (held_pool-Inv, λ b. omega (arith, one_ref b), tt)

register-Accounts_example :
    (pc : PrefixCache hasher lru) × (ls : List (Allocator ℕ)) × (register hasher lru
        (1 ∷ 2 ∷ 3 ∷ [])
        0
        ((0 ∷ []) ∷ [])
        2
        empty_cache
        (held_pool ∷ [])
      ≡ some (pc, ls))
    × Accounts (λ l b. owner l b + cached hasher lru pc l b) ls
    × (length ls ≡ 1)
    × (size hasher lru pc ≤ 1)
register-Accounts_example =
    register-Accounts hasher lru owner (1 ∷ 2 ∷ 3 ∷ []) 0 ((0 ∷ []) ∷ []) 2 empty_cache
      (held_pool ∷ []) ((omega arith, tt), refl, tt) (omega arith)
      (λ l b. omega (arith, owner-le l b)) (held_pool-Inv, λ b. omega (arith, one_ref b), tt)

count-lookup_example :
    (count_cached_blocks hasher lru (1 ∷ 2 ∷ 3 ∷ 4 ∷ []) 2 filled
      ≡ (lookup hasher lru (1 ∷ 2 ∷ 3 ∷ 4 ∷ []) 2 filled).0.0)
    × ((lookup hasher lru (1 ∷ 2 ∷ 3 ∷ 4 ∷ []) 2 filled).0.0
        ≡ length (lookup hasher lru (1 ∷ 2 ∷ 3 ∷ 4 ∷ []) 2 filled).0.1)
count-lookup_example = count-lookup hasher lru (1 ∷ 2 ∷ 3 ∷ 4 ∷ []) 2 filled

lookup-Longest_example :
    Longest hasher lru
      (λ k. lru.peek k filled.entries)
      (blocks hasher lru (1 ∷ 2 ∷ 3 ∷ 4 ∷ []) 2)
      0
      (lookup hasher lru (1 ∷ 2 ∷ 3 ∷ 4 ∷ []) 2 filled).0.1
lookup-Longest_example = lookup-Longest hasher lru (1 ∷ 2 ∷ 3 ∷ 4 ∷ []) 2 filled refl

touch-lookup_example :
    touch hasher lru (1 ∷ 2 ∷ 3 ∷ 4 ∷ []) 2 filled
    ≡ (lookup hasher lru (1 ∷ 2 ∷ 3 ∷ 4 ∷ []) 2 filled).1
touch-lookup_example = touch-lookup hasher lru (1 ∷ 2 ∷ 3 ∷ 4 ∷ []) 2 filled

clear_caches-Cleared_example : Cleared runner (λ l b. 0) (λ l b. 0) (held_pool ∷ []) []
clear_caches-Cleared_example =
    clear_caches-Cleared runner (λ l b. 0) (λ l b. 0) (held_pool ∷ []) [] (omega arith)
      (omega arith) runner_small (λ l b. omega arith)
      (held_pool-Inv, λ b. omega (arith, one_ref b), tt) tt
  where
    runner_small : (l b : ℕ) → 0 + caches_hold runner.caches l b < u32_mod
    runner_small zero b = ground arith
    runner_small (suc l) b = ground arith
