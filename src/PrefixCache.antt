-- ===== src/PrefixCache.antt =====
-- src/common/prefix_cache.rs: prompts cut into blocks of tokens, keyed by a chain of hashes. The LRU
-- map and the hasher are other crates': parameters. A block size is positive; `tokens.len() / 0`
-- is a panic in the code.
pub mod Update
pub mod Accounts
pub mod Evict
pub mod Register
pub mod Lookup
use oxydllm.Base.{
  ℕ, zero, suc, ◌+◌, ◌*◌, ◌/◌, ◌≡◌, max, Bool, true, false, ◌&&◌, List, [], ◌∷◌, ◌++◌, Option, none,
  some, ltb, leb, ◌==◌, if◌then◌else◌, ◌>>=◌, length, take, drop,
}
use oxydllm.Lru.{LruCache}
use oxydllm.Paged.Allocator.{Allocator, share, free}

-- `rustc_hash::FxHasher` as the code uses it.
pub record Hasher : Type 1 where
  pub State : Type 0
  pub default : State
  pub write_u64 : ℕ → State → State
  pub write_tokens : List ℕ → State → State
  pub finish : State → ℕ

pub chain_hash : Hasher → List ℕ → ℕ → ℕ
chain_hash h block_tokens prev = h.finish (h.write_tokens block_tokens (h.write_u64 prev h.default))

pub record PrefixEntry : Type 0 where
  pub block_ids : List ℕ
  pub block_tokens : List ℕ

-- `==` of token slices.
unfoldable pub tokens_eq : List ℕ → List ℕ → Bool
tokens_eq [] [] = true
tokens_eq (x ∷ xs) (y ∷ ys) = x == y && tokens_eq xs ys
tokens_eq _ _ = false

-- `&tokens[i * block_size..(i + 1) * block_size]` where that is in range.
abbrev pub block : List ℕ → ℕ → ℕ → List ℕ
block tokens block_size i = take block_size (drop (i * block_size) tokens)

-- The same slice with its panic.
unfoldable pub block_at : List ℕ → ℕ → ℕ → Option (List ℕ)
block_at tokens block_size i =
    if leb ((i + 1) * block_size) (length tokens) then some (block tokens block_size i) else none

-- `chunks_exact`, by the number of chunks left.
unfoldable pub chunks_exact : ℕ → ℕ → List ℕ → List (List ℕ)
chunks_exact zero block_size tokens = []
chunks_exact (suc n) block_size tokens =
    take block_size tokens ∷ chunks_exact n block_size (drop block_size tokens)

-- `evicted.block_ids.iter().enumerate()`: each layer's id goes back to that layer's allocator.
pub free_ids {ℓ} : {Pool : Type ℓ} → List ℕ → List (Allocator Pool) → Option (List (Allocator Pool))
free_ids [] allocators = some allocators
free_ids (b ∷ ids) [] = some []
free_ids (b ∷ ids) (a ∷ allocators) = do
  a' ← free b a
  rest ← free_ids ids allocators
  some (a' ∷ rest)

-- `allocators[layer_idx].share(bid)`, where a missing layer is a panic.
pub share_ids {ℓ} :
    {Pool : Type ℓ} → List ℕ → List (Allocator Pool) → Option (List (Allocator Pool))
share_ids [] allocators = some allocators
share_ids (b ∷ ids) [] = none
share_ids (b ∷ ids) (a ∷ allocators) = do
  a' ← share b a
  rest ← share_ids ids allocators
  some (a' ∷ rest)

module _ (h : Hasher) (L : LruCache PrefixEntry) where
  pub record PrefixCache : Type 0 where
    pub entries : L.Cache
    pub disabled : Bool

  pub new : ℕ → PrefixCache
  new capacity = record { entries = L.new (max capacity 1); disabled = false }

  pub disabled_cache : PrefixCache
  disabled_cache = record { entries = L.new 1; disabled = true }

  -- The loop of `count_cached_blocks`, with the rounds left and the block index.
  count_from : List ℕ → ℕ → ℕ → ℕ → ℕ → ℕ → L.Cache → ℕ
  count_from tokens block_size zero i prev_hash count c = count
  count_from tokens block_size (suc n) i prev_hash count c =
      let block_tokens = block tokens block_size i in
      let k = chain_hash h block_tokens prev_hash in
      let rest = count_from tokens block_size n (i + 1) k (count + 1) c in
      elim (L.peek k c) [
        | none ↦ count
        | some entry ↦ if tokens_eq entry.block_tokens block_tokens then rest else count
      ]

  pub count_cached_blocks : List ℕ → ℕ → PrefixCache → ℕ
  unfolding count_from
  count_cached_blocks tokens block_size pc =
      if pc.disabled
      then 0
      else count_from tokens block_size (length tokens / block_size) 0 0 0 pc.entries

  -- The loop of `lookup`: what was matched, and the cache after the hits were refreshed.
  lookup_from : List ℕ → ℕ → ℕ → ℕ → ℕ → List (List ℕ) → L.Cache → List (List ℕ) × L.Cache
  lookup_from tokens block_size zero i prev_hash matched c = (matched, c)
  lookup_from tokens block_size (suc n) i prev_hash matched c =
      let block_tokens = block tokens block_size i in
      let k = chain_hash h block_tokens prev_hash in
      let r = L.get k c in
      elim r.0 [
        | none ↦ (matched, r.1)
        | some entry ↦
            let rest =
              lookup_from tokens block_size n (i + 1) k (matched ++ entry.block_ids ∷ []) r.1 in
            if tokens_eq entry.block_tokens block_tokens then rest else (matched, r.1)
      ]

  pub lookup : List ℕ → ℕ → PrefixCache → (ℕ × List (List ℕ)) × PrefixCache
  unfolding lookup_from
  lookup tokens block_size pc =
      if pc.disabled
      then ((0, []), pc)
      else (let r = lookup_from tokens block_size (length tokens / block_size) 0 0 [] pc.entries in
          ((length r.0, r.0), record pc { entries = r.1 }))

  -- The loop of `touch`, over the chunks.
  touch_chunks : List (List ℕ) → ℕ → L.Cache → L.Cache
  touch_chunks [] prev_hash c = c
  touch_chunks (block_tokens ∷ chunks) prev_hash c =
      let k = chain_hash h block_tokens prev_hash in
      let r = L.get k c in
      let rest = touch_chunks chunks k r.1 in
      elim r.0 [
        | none ↦ r.1
        | some entry ↦ if tokens_eq entry.block_tokens block_tokens then rest else r.1
      ]

  pub touch : List ℕ → ℕ → PrefixCache → PrefixCache
  unfolding touch_chunks
  touch tokens block_size pc = if pc.disabled then pc else record pc {
    entries =
        touch_chunks (chunks_exact (length tokens / block_size) block_size tokens) 0 pc.entries;
  }
