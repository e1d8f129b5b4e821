-- ===== src/Lru/Spec.antt =====
-- An LRU cache seen as a list of entries, the most recently used first.
use oxydllm.Base.{
  ℕ, ◌+◌, ◌≡◌, refl, Bool, true, false, List, [], ◌∷◌, Option, none, some, arith, ltb, ◌==◌, ◌≢◌,
  inl, inr, Option-cases, if◌then◌else◌, length,
}

module _ {V : Type 0} where
  abbrev pub is_some : Option V → Bool
  is_some none = false
  is_some (some v) = true

  abbrev pub find : ℕ → List (ℕ × V) → Option V
  find k [] = none
  find k ((j, v) ∷ l) = if j == k then some v else find k l

  abbrev pub without : ℕ → List (ℕ × V) → List (ℕ × V)
  without k [] = []
  without k ((j, v) ∷ l) = if j == k then l else (j, v) ∷ without k l

  abbrev pub to_front : ℕ → Option V → List (ℕ × V) → List (ℕ × V)
  to_front k none l = l
  to_front k (some v) l = (k, v) ∷ without k l

  -- A hit becomes the most recently used entry.
  abbrev pub promote : ℕ → List (ℕ × V) → List (ℕ × V)
  promote k l = to_front k (find k l) l

  -- The least recently used entry, and the others.
  unfoldable pub pop_last : List (ℕ × V) → Option (ℕ × V) × List (ℕ × V)
  pop_last [] = (none, [])
  pop_last (e ∷ []) = (some e, [])
  pop_last (e ∷ d ∷ l) = let r = pop_last (d ∷ l) in (r.0, e ∷ r.1)

  -- A new entry goes first; a full cache gives up its last.
  unfoldable pub push_front : ℕ → ℕ × V → List (ℕ × V) → Option (ℕ × V) × List (ℕ × V)
  unfolding pop_last
  push_front cap e l =
      if ltb (length l) cap then (none, e ∷ l) else (let r = pop_last l in (r.0, e ∷ r.1))

  -- A weight summed over the entries.
  abbrev pub total : (ℕ × V → ℕ) → List (ℕ × V) → ℕ
  total f [] = 0
  total f (e ∷ l) = f e + total f l

  abbrev pub weight : (ℕ × V → ℕ) → Option (ℕ × V) → ℕ
  weight f none = 0
  weight f (some e) = f e

  total-without :
      (f : ℕ × V → ℕ) (k : ℕ) (v : V) (l : List (ℕ × V))
      → find k l ≡ some v
      → f (k, v) + total f (without k l) ≡ total f l
  total-without f k v [] h = ground arith
  total-without f k v ((j, w) ∷ l) h = ground (arith, total-without f k v l)

  -- Looking an entry up keeps the entries, up to their order.
  pub total-promote : (f : ℕ × V → ℕ) (k : ℕ) (l : List (ℕ × V)) → total f (promote k l) ≡ total f l
  total-promote f k l = elim (Option-cases (find k l)) [
    | inl e ↦ rw (e, to_front) refl
    | inr (v, e) ↦ rw (e, to_front) (total-without f k v l e)
  ]

  find-without : (j k : ℕ) (l : List (ℕ × V)) → j ≢ k → find j (without k l) ≡ find j l
  find-without j k [] h = refl
  find-without j k ((i, w) ∷ l) h = ground (arith, find-without j k l)

  pub find-promote : (j k : ℕ) (l : List (ℕ × V)) → find j (promote k l) ≡ find j l
  find-promote j k l = elim (Option-cases (find k l)) [
    | inl e ↦ rw (e, to_front) refl
    | inr (v, e) ↦ rw (e, to_front) (ground (arith, e, find-without j k l))
  ]

  pub total-pop_last :
      (f : ℕ × V → ℕ) (l : List (ℕ × V))
      → weight f (pop_last l).0 + total f (pop_last l).1 ≡ total f l
  unfolding pop_last
  total-pop_last f [] = refl
  total-pop_last f (e ∷ []) = omega arith
  total-pop_last f (e ∷ d ∷ l) = omega (arith, total-pop_last f (d ∷ l))

  pub pop_last-none : (l : List (ℕ × V)) → (pop_last l).0 ≡ none → l ≡ []
  unfolding pop_last
  pop_last-none [] h = refl
  pop_last-none (e ∷ []) h = cc
  pop_last-none (e ∷ d ∷ l) h = cc (pop_last-none (d ∷ l) h)

  pub total-push_front :
      (f : ℕ × V → ℕ) (cap : ℕ) (e : ℕ × V) (l : List (ℕ × V))
      → weight f (push_front cap e l).0 + total f (push_front cap e l).1 ≡ f e + total f l
  unfolding push_front
  total-push_front f cap e l = ground (arith, total-pop_last f l)
