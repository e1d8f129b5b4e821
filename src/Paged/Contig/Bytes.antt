-- ===== src/Paged/Contig/Bytes.antt =====
-- src/common/paged.rs, `ContigBufferPool`: the shared budget holds exactly the bytes of the pools' buffers, within
-- its limit.
use oxydllm.Base.{
  ℕ, ◌+◌, ◌-◌, ◌≤◌, ◌<◌, ◌≡◌, refl, inl, inr, ◌∙◌, min, Bool, false, List, [], ◌∷◌, arith, ltb,
  ◌==◌, if◌then◌else◌, length, sum_by, u64_mod, sub64-eq-sub, Bool-cases,
}
use oxydllm.Paged.Contig.{
  ContigBudget, ContigBufferPool, try_add, sub, buffer_bytes, make_space, insert_cap, drop_smallest,
  trim, put, pool_bytes,
}

-- The budget holds the bytes of this pool and those of the others, within its limit, and the pool has no more
-- buffers than it may.
pub record Budgeted (others : ℕ) (g : ContigBudget) (p : ContigBufferPool) : Type 0 where
  pub exact : g.held ≡ others + pool_bytes p
  pub under : g.held ≤ g.limit
  pub few : length p.buffers ≤ p.max_buffers

-- After the loop of `put`.
record Spaced (bytes others : ℕ) (size : ℕ → ℕ) (bs : List ℕ) (g : ContigBudget)
    (r : Bool × List ℕ × ContigBudget) : Type 0 where
  exact : r.2.held ≡ others + sum_by size r.1 + (if r.0 then bytes else 0)
  under : r.2.held ≤ r.2.limit
  same_limit : r.2.limit ≡ g.limit
  fewer : length r.1 ≤ length bs

fits :
    (bytes : ℕ) (g : ContigBudget)
    → g.limit + 1 < u64_mod
    → ltb g.limit (min (g.held + bytes) (u64_mod - 1)) ≡ false
    → g.held + bytes ≤ g.limit
fits bytes g small e = ground (arith, e)

sub-held :
    (n : ℕ) (g : ContigBudget)
    → n ≤ g.held
    → g.held < u64_mod
    → ((sub n g).held ≡ g.held - n) × ((sub n g).limit ≡ g.limit)
unfolding sub
sub-held n g le lt = (sub64-eq-sub g.held n le lt, refl)

make_space-Spaced :
    (bytes others : ℕ) (size : ℕ → ℕ) (bs : List ℕ) (g : ContigBudget)
    → g.limit + 1 < u64_mod
    → g.held ≡ others + sum_by size bs
    → g.held ≤ g.limit
    → Spaced bytes others size bs g (make_space bytes size bs g)
unfolding make_space try_add
make_space-Spaced bytes o size [] g small e u =
    elim (Bool-cases (ltb g.limit (min (g.held + bytes) (u64_mod - 1)))) [
      | inl over ↦
          rw (over, make_space)
            (record { exact = omega (arith, e); under = u; same_limit = refl; fewer = omega arith })
      | inr inside ↦
          let room = fits bytes g small inside in
          rw (inside, make_space)
            (record {
              exact = omega (arith, e, room);
              under = omega (arith, room);
              same_limit = refl;
              fewer = omega arith;
            })
    ]
make_space-Spaced bytes o size (b ∷ bs) g small e u =
    elim (Bool-cases (ltb g.limit (min (g.held + bytes) (u64_mod - 1)))) [
      | inl over ↦
          let r = sub-held (size b) g (omega (arith, e)) (omega arith) in
          let w =
            make_space-Spaced bytes o size bs (sub (size b) g) (omega (arith, small, r.1))
              (omega (arith, r.0, e)) (omega (arith, r.0, r.1)) in
          rw (over, make_space)
            (record {
              exact = w.exact;
              under = w.under;
              same_limit = w.same_limit ∙ r.1;
              fewer = omega (arith, w.fewer);
            })
      | inr inside ↦
          let room = fits bytes g small inside in
          rw (inside, make_space)
            (record {
              exact = omega (arith, e, room);
              under = omega (arith, room);
              same_limit = refl;
              fewer = omega arith;
            })
    ]

sum_by-insert_cap :
    (f : ℕ → ℕ) (tokens : ℕ) (bs : List ℕ)
    → (sum_by f (insert_cap tokens bs) ≡ f tokens + sum_by f bs)
      × (length (insert_cap tokens bs) ≡ length bs + 1)
unfolding insert_cap
sum_by-insert_cap f tokens [] = (omega arith, refl)
sum_by-insert_cap f tokens (b ∷ bs) =
    let (s, n) = sum_by-insert_cap f tokens bs in (ground (arith, s), ground (arith, n))

sum_by-drop_smallest :
    (f : ℕ → ℕ) (b : ℕ) (bs : List ℕ)
    → (f (drop_smallest b bs).0 + sum_by f (drop_smallest b bs).1 ≡ f b + sum_by f bs)
      × (length (drop_smallest b bs).1 ≡ length bs)
unfolding drop_smallest
sum_by-drop_smallest f b [] = (omega arith, refl)
sum_by-drop_smallest f b (c ∷ bs) =
    let (s, n) = sum_by-drop_smallest f c bs in (omega (arith, s), omega (arith, n))

trim-Budgeted :
    (others : ℕ) (bs : List ℕ) (g : ContigBudget) (p : ContigBufferPool)
    → g.limit < u64_mod
    → g.held ≡ others + sum_by (buffer_bytes p) bs
    → g.held ≤ g.limit
    → length bs ≤ p.max_buffers + 1
    → Budgeted others (trim bs g p).0 (trim bs g p).1
unfolding trim sub
trim-Budgeted o [] g p small e u n = record { exact = e; under = u; few = omega arith }
trim-Budgeted o (b ∷ bs) g p small e u n =
    let (s, m) = sum_by-drop_smallest (buffer_bytes p) b bs in
    let less =
      sub64-eq-sub g.held (buffer_bytes p (drop_smallest b bs).0) (omega (arith, s, e))
        (omega arith) in
    elim (Bool-cases (ltb p.max_buffers (length (b ∷ bs)))) [
      | inl over ↦ rw over (record {
        exact = omega (arith, less, s, e);
        under = omega (arith, less);
        few = omega (arith, m);
      })
      | inr within ↦ rw within (record { exact = e; under = u; few = ground (arith, within) })
    ]

-- Giving a buffer back keeps the budget exact and within its limit and the pool within its number of buffers, for
-- any limit below the largest `usize`.
pub put-Budgeted :
    (others tokens : ℕ) (g : ContigBudget) (p : ContigBufferPool)
    → g.limit + 1 < u64_mod
    → Budgeted others g p
    → Budgeted others (put tokens g p).0 (put tokens g p).1
unfolding put
put-Budgeted o tokens g p small v =
    let r = make_space (buffer_bytes p tokens) (buffer_bytes p) p.buffers g in
    let w =
      make_space-Spaced (buffer_bytes p tokens) o (buffer_bytes p) p.buffers g small v.exact
        v.under in
    elim (Bool-cases (p.max_buffers == 0)) [
      | inl off ↦ rw off v
      | inr on ↦ elim (Bool-cases r.0) [
        | inl roomy ↦
            let (s, n) = sum_by-insert_cap (buffer_bytes p) tokens r.1 in
            rw (on, roomy)
              (trim-Budgeted o (insert_cap tokens r.1) r.2 p (omega (arith, w.same_limit))
                (ground (arith, s, w.exact, roomy)) w.under (omega (arith, n, w.fewer, v.few)))
        | inr crowded ↦
            rw (on, crowded)
              (record {
                exact = ground (arith, w.exact, crowded);
                under = w.under;
                few = omega (arith, w.fewer, v.few);
              })
      ]
    ]
