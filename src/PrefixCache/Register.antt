-- ===== src/PrefixCache/Register.antt =====
-- src/common/prefix_cache.rs, `register`: each newly cached block is shared, and each entry pushed out is
-- given back.
use oxydllm.Base.{
  ℕ, zero, suc, ◌+◌, ◌*◌, ◌≤◌, ◌<◌, ◌≡◌, refl, ap, ◌∙◌, inl, inr, false, List, [], ◌∷◌, Option,
  some, arith, le→leb, length, u32_mod, Bool-cases,
}
use oxydllm.Lru.{LruCache}
use oxydllm.Lru.Spec.{total, weight, push_front, total-push_front}
use oxydllm.Paged.Allocator.{Allocator}
use oxydllm.PrefixCache.Accounts.{holds, Accounts, HeldBy, share_ids-Accounts}
use oxydllm.PrefixCache.Update.{any_mismatch, prefix_hash, register_block, register_from, register}
use oxydllm.PrefixCache.Evict.{entry_holds, one, release-Accounts, cached, size}
use oxydllm.PrefixCache.{Hasher, chain_hash, PrefixEntry, PrefixCache, block, block_at}

abbrev entry : List ℕ → List ℕ → PrefixEntry
entry ids b = record { block_ids = ids; block_tokens = b }

holds-HeldBy :
    (f : ℕ → ℕ → ℕ) (c : ℕ → ℕ → ℕ) (ids : List ℕ)
    → HeldBy f ids
    → HeldBy (λ l b. f l b + c l b) ids
holds-HeldBy f c [] p = tt
holds-HeldBy f c (x ∷ ids) (p, q) =
    (omega arith, holds-HeldBy (λ l. f (suc l)) (λ l. c (suc l)) ids q)

holds-le-one : (ids : List ℕ) (l b : ℕ) → holds ids l b ≤ 1
holds-le-one [] l b = omega arith
holds-le-one (x ∷ ids) zero b = ground arith
holds-le-one (x ∷ ids) (suc l) b = holds-le-one ids l b

total-holds-le : (l b : ℕ) (v : List (ℕ × PrefixEntry)) → total (entry_holds l b) v ≤ total one v
total-holds-le l b [] = omega arith
total-holds-le l b ((k, e) ∷ v) = omega (arith, holds-le-one e.block_ids l b, total-holds-le l b v)

module _ (L : LruCache PrefixEntry) where
  abbrev refs_of : L.Cache → ℕ → ℕ → ℕ
  refs_of c l b = total (entry_holds l b) (L.view c)

  abbrev number : L.Cache → ℕ
  number c = total one (L.view c)

  total-push :
      (f : ℕ × PrefixEntry → ℕ) (k : ℕ) (e : PrefixEntry) (c : L.Cache)
      → L.contains k c ≡ false
      → weight f (L.push k e c).0 + total f (L.view (L.push k e c).1)
        ≡ f (k, e) + total f (L.view c)
  total-push f k e c new =
      ap (λ o. weight f o + total f (L.view (L.push k e c).1)) (L.push-view k e c new)
      ∙ ap (λ v. weight f (push_front (L.cap c) (k, e) (L.view c)).0 + total f v)
          (L.view-push k e c new)
      ∙ total-push_front f (L.cap c) (k, e) (L.view c)

-- The new blocks are held by the owners `g`, and name a block of every layer.
abbrev pub AllHeld : (ℕ → ℕ → ℕ) → ℕ → List (List ℕ) → Type 0
AllHeld g layers [] = Unit
AllHeld g layers (ids ∷ rest) = HeldBy g ids × (length ids ≡ layers) × AllHeld g layers rest

block_at-some :
    (tokens : List ℕ) (block_size i : ℕ)
    → (i + 1) * block_size ≤ length tokens
    → block_at tokens block_size i ≡ some (block tokens block_size i)
unfolding block_at
block_at-some tokens block_size i room = rw (le→leb _ _ room)

prefix_hash-some :
    (h : Hasher) (tokens : List ℕ) (block_size n i prev : ℕ)
    → (i + n) * block_size ≤ length tokens
    → (k : ℕ) × (prefix_hash h tokens block_size n i prev ≡ some k)
unfolding prefix_hash
prefix_hash-some h tokens bs zero i prev room = (prev, refl)
prefix_hash-some h tokens bs (suc n) i prev room =
    let e = block_at-some tokens bs i (grind arith) in
    let (k, r) =
      prefix_hash-some h tokens bs n (i + 1) (chain_hash h (block tokens bs i) prev)
        (grind arith) in
    (k, rw e r)

any_mismatch-false :
    (g : ℕ → ℕ → ℕ) (new : List (List ℕ)) (layers : ℕ)
    → AllHeld g layers new
    → any_mismatch new layers ≡ false
unfolding any_mismatch
any_mismatch-false g [] layers p = refl
any_mismatch-false g (ids ∷ new) layers (own, fit, rest) =
    ground (arith, any_mismatch-false g new layers rest)

module _ (h : Hasher) (L : LruCache PrefixEntry) {Pool : Type 0} (g : ℕ → ℕ → ℕ) where
  -- The counts are those of the owners `g` and of the cache's entries.
  abbrev Fits : L.Cache → List (Allocator Pool) → Type 0
  Fits c ls = Accounts (λ l b. g l b + refs_of L c l b) ls

  abbrev Registered :
      L.Cache → List (Allocator Pool) → Option (L.Cache × List (Allocator Pool)) → ℕ → Type 0
  Registered c ls r n =
      (c' : L.Cache) × (ls' : List (Allocator Pool)) × (r ≡ some (c', ls'))
      × Fits c' ls'
      × (length ls' ≡ length ls)
      × (number L c' ≤ number L c + n)

  register_block-Registered :
      (k : ℕ) (ids b : List ℕ) (c : L.Cache) (ls : List (Allocator Pool))
      → HeldBy g ids
      → length ids ≡ length ls
      → ((l j : ℕ) → g l j + number L c + 1 < u32_mod)
      → Fits c ls
      → Registered c ls (register_block h L k ids b (c, ls)) 1
  unfolding register_block
  register_block-Registered k ids b c ls held fit small acc = elim (Bool-cases (L.contains k c)) [
    | inl old ↦ (c, ls, ground (arith, old), acc, refl, omega arith)
    | inr new ↦
        let gain = λ (f : ℕ × PrefixEntry → ℕ). total-push L f k (entry ids b) c new in
        let c' = (L.push k (entry ids b) c).1 in
        let mid : ℕ → ℕ → ℕ = λ l j. g l j + refs_of L c l j + holds ids l j in
        let (ls1, s, acc1, n1) =
          share_ids-Accounts (λ l j. g l j + refs_of L c l j) mid ids ls (λ l j. refl)
            (λ l j. omega (arith, small l j, total-holds-le l j (L.view c), holds-le-one ids l j))
            (omega arith) (holds-HeldBy g (refs_of L c) ids held) acc in
        let (ls2, r, acc2, n2, _) =
          release-Accounts mid (λ l j. g l j + refs_of L c' l j) (L.push k (entry ids b) c).0 ls1
            (λ l j. omega (arith, gain (entry_holds l j)))
            (λ l j. omega (arith, small l j, total-holds-le l j (L.view c), holds-le-one ids l j))
            acc1 in
        (c', ls2, ground (arith, new, s, r), acc2, n2 ∙ n1, omega (arith, gain one))
  ]

  register_from-Registered :
      (tokens : List ℕ) (block_size : ℕ) (new : List (List ℕ)) (i prev : ℕ) (c : L.Cache)
      (ls : List (Allocator Pool))
      → AllHeld g (length ls) new
      → (i + length new) * block_size ≤ length tokens
      → ((l j : ℕ) → g l j + number L c + length new < u32_mod)
      → Fits c ls
      → Registered c ls (register_from h L tokens block_size new i prev (c, ls)) (length new)
  unfolding register_from
  register_from-Registered tokens bs [] i prev c ls held room small acc =
      (c, ls, refl, acc, refl, omega arith)
  register_from-Registered tokens bs (ids ∷ new) i prev c ls (own, fit, held) room small acc =
      let b = block tokens bs i in
      let k = chain_hash h b prev in
      let e = block_at-some tokens bs i (grind arith) in
      let (c1, ls1, r1, acc1, n1, m1) =
        register_block-Registered k ids b c ls own fit (λ l j. omega (arith, small l j)) acc in
      let (c2, ls2, r2, acc2, n2, m2) =
        register_from-Registered tokens bs new (i + 1) k c1 ls1 (rw n1 held) (grind arith)
          (λ l j. omega (arith, small l j)) acc1 in
      (c2, ls2, rw (e, r1) r2, acc2, n2 ∙ n1, omega arith)

  -- With the counts those of the running owners `g` and of the cache, and new blocks that an owner holds and
  -- that lie inside the prompt, `register` cannot fail, and the counts are again those of `g` and of the cache.
  pub register-Accounts :
      (tokens : List ℕ) (start_block : ℕ) (new : List (List ℕ)) (block_size : ℕ)
      (pc : PrefixCache h L) (ls : List (Allocator Pool))
      → AllHeld g (length ls) new
      → (start_block + length new) * block_size ≤ length tokens
      → ((l j : ℕ) → g l j + size h L pc + length new < u32_mod)
      → Accounts (λ l j. g l j + cached h L pc l j) ls
      → (pc' : PrefixCache h L) × (ls' : List (Allocator Pool)) × (register h L tokens start_block
            new block_size pc ls
          ≡ some (pc', ls'))
        × Accounts (λ l j. g l j + cached h L pc' l j) ls'
        × (length ls' ≡ length ls)
        × (size h L pc' ≤ size h L pc + length new)
  unfolding register
  register-Accounts tokens start new bs pc ls held room small acc = elim (Bool-cases pc.disabled) [
    | inl off ↦ (pc, ls, ground (arith, off), acc, refl, omega arith)
    | inr on ↦
        let fits = any_mismatch-false g new (length ls) held in
        let (k, e) = prefix_hash-some h tokens bs start 0 0 (grind arith) in
        let (c', ls', r, acc', n, m) =
          register_from-Registered tokens bs new start k pc.entries ls held room small acc in
        (record pc { entries = c' }, ls', rw (on, fits, e, r) refl, acc', n, m)
  ]
