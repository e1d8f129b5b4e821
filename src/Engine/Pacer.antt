-- ===== src/Engine/Pacer.antt =====
-- src/engine.rs: the cap of `PrefillPacer` stays between 16 and 1024 tokens.
use oxydllm.Base.{
  ℕ, ◌≤◌, ◌<◌, ◌≡◌, Bool, ◌||◌, inl, inr, Option, some, ltb, leb, Bool-cases, Option-cases, arith,
}
use oxydllm.Engine.{PrefillPacer, default_pacer, climb, shrink, observe}

module _ {Rate : Type 0} where
  -- The cap and the best size seen are between 16 and 1024 tokens.
  pub record PacerOk (p : PrefillPacer Rate) : Type 0 where
    pub least : 16 ≤ p.cap
    pub most : p.cap ≤ 1024
    pub best : (t : ℕ) (r : Rate) → p.best ≡ some (t, r) → (16 ≤ t) × (t ≤ 1024)

  pub default_pacer-PacerOk : PacerOk default_pacer
  default_pacer-PacerOk = record {
    least = omega arith;
    most = omega arith;
    best = λ t r e. absurd cc;
  }

  pub shrink-PacerOk : (p : PrefillPacer Rate) → PacerOk p → PacerOk (shrink p).1
  unfolding shrink
  shrink-PacerOk p h = elim (Bool-cases (leb p.cap 32)) [
    | inl e ↦ rw e h
    | inr e ↦
        let more : 32 < p.cap = ground (arith, e) in
        rw e (record {
          least = omega (arith, more);
          most = omega (arith, h.most);
          best = λ t r e. absurd cc;
        })
  ]

  some_first :
      {t t' : ℕ} {r r' : Rate} → ◌≡◌ {A = Option (ℕ × Rate)} (some (t, r)) (some (t', r')) → t ≡ t'
  some_first e = cc

  climb-PacerOk :
      (tokens elapsed : ℕ) (rate : Rate) (p : PrefillPacer Rate)
      → PacerOk p
      → tokens ≡ p.cap
      → PacerOk (climb tokens elapsed rate p)
  unfolding climb
  climb-PacerOk tokens elapsed rate p h full =
      let range : (t : ℕ) (r : Rate)
          → ◌≡◌ {A = Option (ℕ × Rate)} (some (tokens, rate)) (some (t, r))
          → (16 ≤ t) × (t ≤ 1024) =
        λ t r e.
          let same : tokens ≡ t = some_first e in
          (omega (arith, same, full, h.least), omega (arith, same, full, h.most)) in
      elim (Bool-cases (leb 3000000000 elapsed || leb 1024 p.cap)) [
        | inl e ↦ rw e (record { least = h.least; most = h.most; best = range })
        | inr e ↦ rw e (record { least = omega (arith, h.least); most = omega arith; best = range })
      ]

  module _ (rate_of : ℕ → ℕ → Rate) (no_better : Rate → Rate → Bool) where
    pub observe-PacerOk :
        (tokens elapsed : ℕ) (p : PrefillPacer Rate)
        → PacerOk p
        → tokens ≤ p.cap
        → PacerOk (observe rate_of no_better tokens elapsed p)
    unfolding observe
    observe-PacerOk tokens elapsed p h few = elim (Bool-cases (ltb tokens p.cap || p.settled)) [
      | inl e ↦ rw (observe, e) h
      | inr e ↦
          let full : tokens ≡ p.cap = ground (arith, e, few) in
          let climbs : PacerOk (climb tokens elapsed (rate_of tokens elapsed) p) =
            climb-PacerOk tokens elapsed (rate_of tokens elapsed) p h full in
          elim (Option-cases p.best) [
            | inl b ↦ rw (observe, e, b) climbs
            | inr ((t, r), b) ↦ elim (Bool-cases (no_better (rate_of tokens elapsed) r)) [
              | inl worse ↦
                  rw (observe, e, b, worse)
                    (record { least = (h.best t r b).0; most = (h.best t r b).1; best = h.best })
              | inr better ↦ rw (observe, e, b, better) climbs
            ]
          ]
    ]
