-- ===== src/PrefixCache/Lookup.antt =====
-- src/common/prefix_cache.rs: what a lookup finds, that counting agrees with it, and that `touch` refreshes
-- the same entries.
use oxydllm.Base.{
  ℕ, zero, suc, ◌+◌, ◌*◌, ◌/◌, ◌≡◌, ◌≢◌, ◌↔◌, refl, sym, ap, ◌∙◌, inl, inr, true, false, List, [],
  ◌∷◌, ◌++◌, Option, none, some, arith, if◌then◌else◌, length, drop, Bool-cases, Option-cases,
}
use mathlib.Core.List.{append-nil, append_assoc}
use mathlib.Core.Path.{fun_ext}
use oxydllm.Lru.{LruCache}
use oxydllm.Lru.Spec.{find, find-promote, total, total-promote}
use oxydllm.PrefixCache.{
  Hasher, chain_hash, PrefixEntry, PrefixCache, tokens_eq, block, chunks_exact, count_cached_blocks,
  lookup, touch,
}
use oxydllm.PrefixCache.{count_from, lookup_from, touch_chunks}

pub tokens_eq_iff : (xs ys : List ℕ) → (tokens_eq xs ys ≡ true) ↔ (xs ≡ ys)
unfolding tokens_eq
tokens_eq_iff [] [] = ground arith
tokens_eq_iff [] (y ∷ ys) = ground arith
tokens_eq_iff (x ∷ xs) [] = ground arith
tokens_eq_iff (x ∷ xs) (y ∷ ys) = ground (arith, tokens_eq_iff xs ys)

drop_nil : (n : ℕ) → drop {A = ℕ} n [] ≡ []
drop_nil zero = refl
drop_nil (suc n) = refl

drop-drop : (a b : ℕ) (xs : List ℕ) → drop a (drop b xs) ≡ drop (b + a) xs
drop-drop a zero xs = ap (λ k. drop k xs) (omega arith)
drop-drop a (suc b) [] = drop_nil a ∙ sym (drop_nil (suc b + a))
drop-drop a (suc b) (x ∷ xs) =
    drop-drop a b xs ∙ ap (λ k. drop k (x ∷ xs)) {x = suc (b + a)} {y = suc b + a} (omega arith)

module _ (h : Hasher) (L : LruCache PrefixEntry) where
  -- The independent description: the ids of the leading blocks that the entries hold, each under the hash
  -- of its prefix and with its own tokens.
  abbrev pub hit : Option PrefixEntry → List ℕ → Option (List ℕ)
  hit none b = none
  hit (some e) b = if tokens_eq e.block_tokens b then some e.block_ids else none

  -- `ids` are the block ids of the longest cached prefix of the blocks: each block in it has an entry under
  -- the chain hash with exactly its tokens, and the block after it has none.
  pub data Longest (at : ℕ → Option PrefixEntry) : List (List ℕ) → ℕ → List (List ℕ) → Type 0 where
    end : {prev : ℕ} → Longest at [] prev []
    miss :
        {b : List ℕ} {bs : List (List ℕ)} {prev : ℕ}
        → ((e : PrefixEntry) → at (chain_hash h b prev) ≡ some e → e.block_tokens ≢ b)
        → Longest at (b ∷ bs) prev []
    more :
        {b : List ℕ} {bs ids : List (List ℕ)} {prev : ℕ} (e : PrefixEntry)
        → at (chain_hash h b prev) ≡ some e
        → e.block_tokens ≡ b
        → Longest at bs (chain_hash h b prev) ids
        → Longest at (b ∷ bs) prev (e.block_ids ∷ ids)

  unfoldable pub prefix_ids : (ℕ → Option PrefixEntry) → List (List ℕ) → ℕ → List (List ℕ)
  prefix_ids at [] prev = []
  prefix_ids at (b ∷ bs) prev =
      let k = chain_hash h b prev in
      let rest = prefix_ids at bs k in elim (hit (at k) b) [ none ↦ [] | some ids ↦ ids ∷ rest ]

  abbrev blocks_from : List ℕ → ℕ → ℕ → ℕ → List (List ℕ)
  blocks_from tokens bs zero i = []
  blocks_from tokens bs (suc n) i = block tokens bs i ∷ blocks_from tokens bs n (i + 1)

  count_from-prefix_ids :
      (tokens : List ℕ) (bs n i prev count : ℕ) (c : L.Cache)
      → count_from h L tokens bs n i prev count c
        ≡ count + length (prefix_ids (λ k. L.peek k c) (blocks_from tokens bs n i) prev)
  unfolding count_from prefix_ids
  count_from-prefix_ids tokens bs zero i prev count c = omega arith
  count_from-prefix_ids tokens bs (suc n) i prev count c = ground (
    arith,
    count_from-prefix_ids tokens bs n (i + 1) (chain_hash h (block tokens bs i) prev) (count + 1) c,
  )

  peek-get : (j k : ℕ) (c : L.Cache) → L.peek j (L.get k c).1 ≡ L.peek j c
  peek-get j k c =
      L.peek-view j (L.get k c).1
      ∙ ap (find j) (L.view-get k c)
      ∙ find-promote j k (L.view c)
      ∙ sym (L.peek-view j c)

  get-peek : (k : ℕ) (c : L.Cache) → (L.get k c).0 ≡ L.peek k c
  get-peek k c = L.get-view k c ∙ sym (L.peek-view k c)

  prefix_ids-get :
      (k : ℕ) (c : L.Cache) (bs : List (List ℕ)) (prev : ℕ)
      → prefix_ids (λ j. L.peek j (L.get k c).1) bs prev ≡ prefix_ids (λ j. L.peek j c) bs prev
  prefix_ids-get k c bs prev = ap (λ f. prefix_ids f bs prev) (fun_ext (λ j. peek-get j k c))

  lookup_from-prefix_ids :
      (tokens : List ℕ) (bs n i prev : ℕ) (matched : List (List ℕ)) (c : L.Cache)
      → (lookup_from h L tokens bs n i prev matched c).0
        ≡ matched ++ prefix_ids (λ k. L.peek k c) (blocks_from tokens bs n i) prev
  unfolding lookup_from prefix_ids
  lookup_from-prefix_ids tokens bs zero i prev matched c = sym (append-nil matched)
  lookup_from-prefix_ids tokens bs (suc n) i prev matched c =
      let b = block tokens bs i in
      let k = chain_hash h b prev in
      let next = λ (ids : List ℕ).
        lookup_from-prefix_ids tokens bs n (i + 1) k (matched ++ ids ∷ []) (L.get k c).1
        ∙ ap (◌++◌ (matched ++ ids ∷ [])) (prefix_ids-get k c (blocks_from tokens bs n (i + 1)) k)
        ∙ append_assoc matched (ids ∷ []) _ in
      elim (Option-cases (L.peek k c)) [
        | inl e ↦ ground (arith, get-peek k c, e, append-nil matched)
        | inr (found, e) ↦ ground (arith, get-peek k c, e, next found.block_ids, append-nil matched)
      ]

  prefix_ids-Longest :
      (at : ℕ → Option PrefixEntry) (bs : List (List ℕ)) (prev : ℕ)
      → Longest at bs prev (prefix_ids at bs prev)
  unfolding prefix_ids
  prefix_ids-Longest at [] prev = end
  prefix_ids-Longest at (b ∷ bs) prev =
      let k = chain_hash h b prev in
      let rest = prefix_ids-Longest at bs k in
      elim (Option-cases (at k)) [
        | inl e ↦
            let stop : prefix_ids at (b ∷ bs) prev ≡ [] = ground (arith, e) in
            rw stop (miss (λ x f. cc))
        | inr (found, e) ↦ elim (Bool-cases (tokens_eq found.block_tokens b)) [
          | inl same ↦
              let go : prefix_ids at (b ∷ bs) prev ≡ found.block_ids ∷ prefix_ids at bs k =
                ground (arith, e, same) in
              rw go (more found e ((tokens_eq_iff found.block_tokens b).0 same) rest)
          | inr differ ↦
              let stop : prefix_ids at (b ∷ bs) prev ≡ [] = ground (arith, e, differ) in
              rw stop (miss (λ x f. ground (arith, e, differ, tokens_eq_iff found.block_tokens b)))
        ]
      ]

  chunks_exact-blocks_from :
      (tokens : List ℕ) (bs n i : ℕ)
      → chunks_exact n bs (drop (i * bs) tokens) ≡ blocks_from tokens bs n i
  unfolding chunks_exact
  chunks_exact-blocks_from tokens bs zero i = refl
  chunks_exact-blocks_from tokens bs (suc n) i = ap (◌∷◌ (block tokens bs i)) (
      ap (chunks_exact n bs) (drop-drop bs (i * bs) tokens ∙ ap (λ m. drop m tokens) (grind arith))
      ∙ chunks_exact-blocks_from tokens bs n (i + 1))

  touch_chunks-lookup_from :
      (tokens : List ℕ) (bs n i prev : ℕ) (matched : List (List ℕ)) (c : L.Cache)
      → touch_chunks h L (blocks_from tokens bs n i) prev c
        ≡ (lookup_from h L tokens bs n i prev matched c).1
  unfolding touch_chunks lookup_from
  touch_chunks-lookup_from tokens bs zero i prev matched c = refl
  touch_chunks-lookup_from tokens bs (suc n) i prev matched c =
      let k = chain_hash h (block tokens bs i) prev in
      let next = λ (ids : List ℕ).
        touch_chunks-lookup_from tokens bs n (i + 1) k (matched ++ ids ∷ []) (L.get k c).1 in
      elim (Option-cases (L.get k c).0) [
        | inl e ↦ ground (arith, e)
        | inr (found, e) ↦ ground (arith, e, next found.block_ids)
      ]

  total-touch_chunks :
      (f : ℕ × PrefixEntry → ℕ) (bs : List (List ℕ)) (prev : ℕ) (c : L.Cache)
      → total f (L.view (touch_chunks h L bs prev c)) ≡ total f (L.view c)
  unfolding touch_chunks
  total-touch_chunks f [] prev c = refl
  total-touch_chunks f (b ∷ bs) prev c =
      let k = chain_hash h b prev in
      let kept = ap (total f) (L.view-get k c) ∙ total-promote f k (L.view c) in
      let rest = total-touch_chunks f bs k (L.get k c).1 in
      elim (Option-cases (L.get k c).0) [
        | inl e ↦ ground (arith, e, kept)
        | inr (found, e) ↦ ground (arith, e, kept, rest)
      ]

  -- `touch` only reorders the entries: it changes no sum over them.
  pub total-touch :
      (f : ℕ × PrefixEntry → ℕ) (tokens : List ℕ) (bs : ℕ) (pc : PrefixCache h L)
      → total f (L.view (touch h L tokens bs pc).entries) ≡ total f (L.view pc.entries)
  unfolding touch
  total-touch f tokens bs pc =
      ground
        (arith, total-touch_chunks f (chunks_exact (length tokens / bs) bs tokens) 0 pc.entries)

  -- The blocks of a prompt, as `lookup` cuts them.
  abbrev pub blocks : List ℕ → ℕ → List (List ℕ)
  blocks tokens bs = blocks_from tokens bs (length tokens / bs) 0

  -- Counting the cached blocks of a prompt, which looks without touching, gives the number that a lookup
  -- returns, and that is the number of id lists it returns.
  pub count-lookup :
      (tokens : List ℕ) (bs : ℕ) (pc : PrefixCache h L)
      → (count_cached_blocks h L tokens bs pc ≡ (lookup h L tokens bs pc).0.0)
        × ((lookup h L tokens bs pc).0.0 ≡ length (lookup h L tokens bs pc).0.1)
  unfolding count_cached_blocks lookup
  count-lookup tokens bs pc =
      let n = length tokens / bs in
      let same = ap length (lookup_from-prefix_ids tokens bs n 0 0 [] pc.entries) in
      (ground (arith, same, count_from-prefix_ids tokens bs n 0 0 0 pc.entries), ground arith)

  -- A lookup in an enabled cache returns the block ids of the longest cached prefix of the prompt's blocks.
  pub lookup-Longest :
      (tokens : List ℕ) (bs : ℕ) (pc : PrefixCache h L)
      → pc.disabled ≡ false
      → Longest (λ k. L.peek k pc.entries) (blocks tokens bs) 0 (lookup h L tokens bs pc).0.1
  unfolding lookup
  lookup-Longest tokens bs pc on =
      let found = lookup_from-prefix_ids tokens bs (length tokens / bs) 0 0 [] pc.entries in
      let same : (lookup h L tokens bs pc).0.1
          ≡ prefix_ids (λ k. L.peek k pc.entries) (blocks tokens bs) 0 =
        ground (arith, on, found) in
      rw same (prefix_ids-Longest (λ k. L.peek k pc.entries) (blocks tokens bs) 0)

  -- `touch` leaves the cache exactly as a lookup of the same prompt does.
  pub touch-lookup :
      (tokens : List ℕ) (bs : ℕ) (pc : PrefixCache h L)
      → touch h L tokens bs pc ≡ (lookup h L tokens bs pc).1
  unfolding touch lookup
  touch-lookup tokens bs pc =
      let n = length tokens / bs in
      ground (
        arith,
        chunks_exact-blocks_from tokens bs n 0,
        touch_chunks-lookup_from tokens bs n 0 0 [] pc.entries,
      )
