-- ===== src/PrefixCache/Update.antt =====
-- src/common/prefix_cache.rs, `evict_lru` and `register`: the operations that hold and give up blocks.
-- The allocators are a state that is passed through, and `none` is a panic.
use oxydllm.Base.{
  ℕ, zero, suc, ◌+◌, Bool, true, false, not, ◌||◌, List, [], ◌∷◌, Option, none, some, ◌==◌,
  if◌then◌else◌, ◌>>=◌, length,
}
use oxydllm.Lru.{LruCache}
use oxydllm.Paged.Allocator.{Allocator}
use oxydllm.PrefixCache.{
  Hasher, chain_hash, PrefixEntry, PrefixCache, block_at, free_ids, share_ids,
}

-- What an eviction gives back.
unfoldable pub release {ℓ} :
    {Pool : Type ℓ}
    → Option (ℕ × PrefixEntry)
    → List (Allocator Pool)
    → Option (List (Allocator Pool))
release none allocators = some allocators
release (some (k, e)) allocators = free_ids e.block_ids allocators

-- `new_block_ids.iter().any(|ids| ids.len() != allocators.len())`.
unfoldable pub any_mismatch : List (List ℕ) → ℕ → Bool
any_mismatch [] layers = false
any_mismatch (ids ∷ rest) layers = not (length ids == layers) || any_mismatch rest layers

-- The hash of the blocks before `start_block`.
unfoldable pub prefix_hash : Hasher → List ℕ → ℕ → ℕ → ℕ → ℕ → Option ℕ
prefix_hash h tokens block_size zero i prev_hash = some prev_hash
prefix_hash h tokens block_size (suc n) i prev_hash = do
  b ← block_at tokens block_size i
  prefix_hash h tokens block_size n (i + 1) (chain_hash h b prev_hash)

module _ (h : Hasher) (L : LruCache PrefixEntry) {Pool : Type 0} where
  -- `evict_lru` returns whether there was an entry to drop.
  unfoldable pub evict_lru :
      PrefixCache h L
      → List (Allocator Pool)
      → Option (Bool × PrefixCache h L × List (Allocator Pool))
  unfolding release
  evict_lru pc allocators =
      if pc.disabled
      then some (false, pc, allocators)
      else (let r = L.pop_lru pc.entries in
          elim r.0 [
            | none ↦ some (false, record pc { entries = r.1 }, allocators)
            | some e ↦ do
              freed ← release (some e) allocators
              some (true, record pc { entries = r.1 }, freed)
          ])

  -- One round of `register`'s loop: the block is shared and cached unless its hash is there already.
  unfoldable pub register_block :
      ℕ
      → List ℕ
      → List ℕ
      → L.Cache × List (Allocator Pool)
      → Option (L.Cache × List (Allocator Pool))
  unfolding release
  register_block k block_ids block_tokens (c, allocators) =
      if L.contains k c then some (c, allocators) else do
        shared ← share_ids block_ids allocators
        let r = L.push k (record { block_ids = block_ids; block_tokens = block_tokens }) c
        freed ← release r.0 shared
        some (r.1, freed)

  unfoldable pub register_from :
      List ℕ
      → ℕ
      → List (List ℕ)
      → ℕ
      → ℕ
      → L.Cache × List (Allocator Pool)
      → Option (L.Cache × List (Allocator Pool))
  register_from tokens block_size [] i prev_hash s = some s
  register_from tokens block_size (ids ∷ rest) i prev_hash s = do
    b ← block_at tokens block_size i
    s' ← register_block (chain_hash h b prev_hash) ids b s
    register_from tokens block_size rest (i + 1) (chain_hash h b prev_hash) s'

  unfoldable pub register :
      List ℕ
      → ℕ
      → List (List ℕ)
      → ℕ
      → PrefixCache h L
      → List (Allocator Pool)
      → Option (PrefixCache h L × List (Allocator Pool))
  unfolding prefix_hash register_from
  register tokens start_block new_block_ids block_size pc allocators =
      if pc.disabled
      then some (pc, allocators)
      else if any_mismatch new_block_ids (length allocators)
      then some (pc, allocators)
      else do
        prev_hash ← prefix_hash h tokens block_size start_block 0 0
        s ←
            register_from tokens block_size new_block_ids start_block prev_hash
              (pc.entries, allocators)
        some (record pc { entries = s.0 }, s.1)
