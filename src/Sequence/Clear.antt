-- ===== src/Sequence/Clear.antt =====
-- src/scheduler/sequence.rs, `clear_caches`: a cleared sequence gives back every reference it holds.
use oxydllm.Base.{
  none, ℕ, zero, suc, ◌+◌, ◌≤◌, ◌<◌, ◌≡◌, refl, List, [], ◌∷◌, some, arith, length, count, u32_mod,
}
use oxydllm.Paged.Allocator.{Allocator, num_free_blocks}
use oxydllm.Paged.Release.{free_blocks_lem}
use oxydllm.Paged.Cache.{KvCache, clear}
use oxydllm.PrefixCache.Accounts.{Accounts, Accounts-eq}
use oxydllm.Sequence.{SequenceState, clear_layers, clear_caches}

-- References that the tables of a sequence's layers hold.
abbrev pub caches_hold : List KvCache → ℕ → ℕ → ℕ
caches_hold [] l b = 0
caches_hold (c ∷ cs) zero b = count b c.block_ids
caches_hold (c ∷ cs) (suc l) b = caches_hold cs l b

module _ {ℓ} {Pool : Type ℓ} where
  -- Clearing the layers' tables cannot fail while their references are counted, and leaves exactly the
  -- references of the other owners `g`; the tables are empty after it.
  pub clear_layers-Accounts :
      (g : ℕ → ℕ → ℕ) (caches : List KvCache) (ls : List (Allocator Pool))
      → length caches ≤ length ls
      → ((l b : ℕ) → g l b + caches_hold caches l b < u32_mod)
      → Accounts (λ l b. g l b + caches_hold caches l b) ls
      → (caches' : List KvCache) × (ls' : List (Allocator Pool)) × (clear_layers caches ls
          ≡ some (caches', ls'))
        × Accounts g ls'
        × (length ls' ≡ length ls)
        × (length caches' ≡ length caches)
        × ((l b : ℕ) → caches_hold caches' l b ≡ 0)
        × (num_free_blocks ls ≤ num_free_blocks ls')
  unfolding clear_layers clear num_free_blocks
  clear_layers-Accounts g [] ls fit small acc = (
    [],
    ls,
    refl,
    Accounts-eq (λ l b. g l b + 0) g ls (λ l b. omega arith) acc,
    refl,
    refl,
    (λ l b. refl),
    omega arith,
  )
  clear_layers-Accounts g (c ∷ caches) [] fit small acc = absurd (omega arith)
  clear_layers-Accounts g (c ∷ caches) (a ∷ ls) fit small (v, e, acc) =
      let (a', r, v', done, more) =
        free_blocks_lem (g 0) c.block_ids a v e (λ b. omega (arith, e b, small 0 b)) in
      let (caches', ls', r', acc', n, m, gone, _) =
        clear_layers-Accounts (λ l. g (suc l)) caches ls (omega arith) (λ l. small (suc l)) acc in
      (
        record c {
          block_ids = [];
          num_tokens = 0;
          cached_slots = [];
          contig_len = 0;
          contig_start = 0;
          contig_cap = none;
          pending_writes = [];
        }
            ∷ caches',
        a' ∷ ls',
        rw (r, r') refl,
        (v', done, acc'),
        omega (arith, n),
        omega (arith, m),
        (λ l.
            elim l
              as (λ k.
                (b : ℕ)
                → caches_hold
                    (record c {
                      block_ids = [];
                      num_tokens = 0;
                      cached_slots = [];
                      contig_len = 0;
                      contig_start = 0;
                      contig_cap = none;
                      pending_writes = [];
                    }
                      ∷ caches')
                    k b
                  ≡ 0) [ zero ↦ λ b. refl | suc k ↦ gone k ]),
        more,
      )

module _ {P C Pool : Type 0} where
  -- `q` cleared into the allocators: the tables are empty and only the references of `g` and `d` are left.
  pub record Cleared (q : SequenceState P C) (g d : ℕ → ℕ → ℕ) (ls ds : List (Allocator Pool))
      : Type 0 where
    pub caches : List KvCache
    pub drafts : List KvCache
    pub ls' : List (Allocator Pool)
    pub ds' : List (Allocator Pool)
    pub cleared :
        clear_caches q ls ds ≡ some (record q { caches = caches; draft_caches = drafts }, ls', ds')
    pub accounts : Accounts g ls'
    pub draft_accounts : Accounts d ds'
    pub layers : length ls' ≡ length ls
    pub more_free : num_free_blocks ls ≤ num_free_blocks ls'
    pub draft_layers : length ds' ≡ length ds
    pub tables : length caches ≡ length q.caches
    pub draft_tables : length drafts ≡ length q.draft_caches
    pub empty : (l b : ℕ) → caches_hold caches l b ≡ 0
    pub draft_empty : (l b : ℕ) → caches_hold drafts l b ≡ 0

  -- Clearing a sequence cannot fail while its references are counted, and gives back exactly those.
  pub clear_caches-Cleared :
      (q : SequenceState P C) (g d : ℕ → ℕ → ℕ) (ls ds : List (Allocator Pool))
      → length q.caches ≤ length ls
      → length q.draft_caches ≤ length ds
      → ((l b : ℕ) → g l b + caches_hold q.caches l b < u32_mod)
      → ((l b : ℕ) → d l b + caches_hold q.draft_caches l b < u32_mod)
      → Accounts (λ l b. g l b + caches_hold q.caches l b) ls
      → Accounts (λ l b. d l b + caches_hold q.draft_caches l b) ds
      → Cleared q g d ls ds
  unfolding clear_caches
  clear_caches-Cleared q g d ls ds fit dfit small dsmall acc dacc =
      let (caches, ls', r, a, n, m, e, more) = clear_layers-Accounts g q.caches ls fit small acc in
      let (drafts, ds', dr, da, dn, dm, de, _) =
        clear_layers-Accounts d q.draft_caches ds dfit dsmall dacc in
      record {
        caches = caches;
        drafts = drafts;
        ls' = ls';
        ds' = ds';
        cleared = rw (r, dr) refl;
        accounts = a;
        draft_accounts = da;
        layers = n;
        more_free = more;
        draft_layers = dn;
        tables = m;
        draft_tables = dm;
        empty = e;
        draft_empty = de;
      }
