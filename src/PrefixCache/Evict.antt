-- ===== src/PrefixCache/Evict.antt =====
-- src/common/prefix_cache.rs, `evict_lru`: the references that the cache holds, and what giving up an
-- entry does to them.
use oxydllm.Base.{
  ℕ, ◌+◌, ◌≤◌, ◌<◌, ◌≡◌, ◌⊎◌, refl, sym, ap, ◌∙◌, inl, inr, Bool, true, false, List, Option, none,
  some, arith, if◌then◌else◌, length, u32_mod, Bool-cases, Option-cases,
}
use oxydllm.Lru.{LruCache}
use oxydllm.Lru.Spec.{total, weight, pop_last, pop_last-none, total-pop_last}
use oxydllm.Paged.Allocator.{Allocator, num_free_blocks}
use oxydllm.PrefixCache.Accounts.{holds, Accounts, free_ids-Accounts, Accounts-eq}
use oxydllm.PrefixCache.Update.{release, evict_lru}
use oxydllm.PrefixCache.{Hasher, PrefixEntry, PrefixCache}

abbrev pub entry_holds : ℕ → ℕ → ℕ × PrefixEntry → ℕ
entry_holds l b (k, e) = holds e.block_ids l b

abbrev pub one {ℓ} : {A : Type ℓ} → A → ℕ
one a = 1

-- Giving back an optional entry drops its references.
pub release-Accounts {ℓ} :
    {Pool : Type ℓ} (f g : ℕ → ℕ → ℕ) (o : Option (ℕ × PrefixEntry)) (ls : List (Allocator Pool))
    → ((l b : ℕ) → f l b ≡ g l b + weight (entry_holds l b) o)
    → ((l b : ℕ) → f l b < u32_mod)
    → Accounts f ls
    → (ls' : List (Allocator Pool)) × (release o ls ≡ some ls')
      × Accounts g ls'
      × (length ls' ≡ length ls)
      × (num_free_blocks ls ≤ num_free_blocks ls')
unfolding release
release-Accounts f g none ls split small acc =
    (ls, refl, Accounts-eq f g ls (λ l b. omega (arith, split l b)) acc, refl, omega arith)
release-Accounts f g (some (k, e)) ls split small acc =
    free_ids-Accounts f g e.block_ids ls split small acc

module _ (h : Hasher) (L : LruCache PrefixEntry) where
  -- References that the cache holds to block `b` of layer `l`.
  abbrev pub cached : PrefixCache h L → ℕ → ℕ → ℕ
  cached pc l b = total (entry_holds l b) (L.view pc.entries)

  abbrev pub size : PrefixCache h L → ℕ
  size pc = total one (L.view pc.entries)

  -- The outcome of `evict_lru`: the counts follow the entries, and it says whether one was dropped.
  pub record Evicted {Pool : Type 0} (g : ℕ → ℕ → ℕ) (pc : PrefixCache h L)
      (ls : List (Allocator Pool)) (dropped : Bool) (pc' : PrefixCache h L)
      (ls' : List (Allocator Pool)) : Type 0 where
    pub accounts : Accounts (λ l b. g l b + cached pc' l b) ls'
    pub fewer : (l b : ℕ) → cached pc' l b ≤ cached pc l b
    pub layers : length ls' ≡ length ls
    pub more_free : num_free_blocks ls ≤ num_free_blocks ls'
    pub size_after : size pc' + (if dropped then 1 else 0) ≡ size pc
    pub kept : pc'.disabled ≡ pc.disabled
    pub stops : dropped ≡ false → (pc.disabled ≡ true) ⊎ (size pc ≡ 0)

  module _ {Pool : Type 0} (g : ℕ → ℕ → ℕ) (pc : PrefixCache h L) (ls : List (Allocator Pool)) where
    abbrev popped : PrefixCache h L
    popped = record pc { entries = (L.pop_lru pc.entries).1 }

    total-popped :
        (f : ℕ × PrefixEntry → ℕ)
        → weight f (L.pop_lru pc.entries).0 + total f (L.view popped.entries)
          ≡ total f (L.view pc.entries)
    total-popped f =
        ap (λ o. weight f o + total f (L.view (L.pop_lru pc.entries).1)) (L.pop_lru-view pc.entries)
        ∙ ap (λ v. weight f (pop_last (L.view pc.entries)).0 + total f v)
            (L.view-pop_lru pc.entries)
        ∙ total-pop_last f (L.view pc.entries)

    abbrev Outcome : Option (Bool × PrefixCache h L × List (Allocator Pool)) → Type 0
    Outcome r =
        (dropped : Bool) × (pc' : PrefixCache h L) × (ls' : List (Allocator Pool)) × (r
          ≡ some (dropped, pc', ls'))
        × Evicted g pc ls dropped pc' ls'

    nothing :
        (pc' : PrefixCache h L)
        → ((f : ℕ × PrefixEntry → ℕ) → total f (L.view pc'.entries) ≡ total f (L.view pc.entries))
        → pc'.disabled ≡ pc.disabled
        → (pc.disabled ≡ true) ⊎ (size pc ≡ 0)
        → Accounts (λ l b. g l b + cached pc l b) ls
        → Evicted g pc ls false pc' ls
    nothing pc' same kept why acc = record {
      accounts =
          Accounts-eq (λ l b. g l b + cached pc l b) (λ l b. g l b + cached pc' l b) ls
            (λ l b. omega (arith, same (entry_holds l b))) acc;
      fewer = λ l b. omega (arith, same (entry_holds l b));
      layers = refl;
      more_free = omega arith;
      size_after = omega (arith, same one);
      kept = kept;
      stops = λ _. why;
    }

    evict_one :
        (e : ℕ × PrefixEntry)
        → pc.disabled ≡ false
        → (L.pop_lru pc.entries).0 ≡ some e
        → ((l b : ℕ) → g l b + cached pc l b < u32_mod)
        → Accounts (λ l b. g l b + cached pc l b) ls
        → Outcome (evict_lru h L pc ls)
    unfolding evict_lru
    evict_one e on found small acc =
        let lost = λ (f : ℕ × PrefixEntry → ℕ). rw found at (total-popped f) in
        let (ls', r, acc', n, more) =
          release-Accounts (λ l b. g l b + cached pc l b) (λ l b. g l b + cached popped l b)
            (some e) ls (λ l b. omega (arith, lost (entry_holds l b))) small acc in
        (
          true,
          popped,
          ls',
          ground (arith, on, found, r),
          record {
            accounts = acc';
            fewer = λ l b. omega (arith, lost (entry_holds l b));
            layers = n;
            more_free = more;
            size_after = omega (arith, lost one);
            kept = refl;
            stops = λ x. cc;
          },
        )

    -- With the counts those of the running owners `g` and of the cache, `evict_lru` cannot fail: it gives
    -- up exactly the references of the entry that it drops, and drops one unless it has none or is disabled.
    pub evict_lru-Accounts :
        ((l b : ℕ) → g l b + cached pc l b < u32_mod)
        → Accounts (λ l b. g l b + cached pc l b) ls
        → Outcome (evict_lru h L pc ls)
    unfolding evict_lru
    evict_lru-Accounts small acc = elim (Bool-cases pc.disabled) [
      | inl off ↦ (false, pc, ls, ground (arith, off), nothing pc (λ f. refl) refl (inl off) acc)
      | inr on ↦ elim (Option-cases (L.pop_lru pc.entries).0) [
        | inl none_left ↦
            let empty =
              pop_last-none (L.view pc.entries) (sym (L.pop_lru-view pc.entries) ∙ none_left) in
            (
              false,
              popped,
              ls,
              ground (arith, on, none_left),
              nothing popped (λ f. omega (arith, rw none_left at (total-popped f))) refl
                  (inr (ap (total one) empty)) acc,
            )
        | inr (e, found) ↦ evict_one e on found small acc
      ]
    ]
