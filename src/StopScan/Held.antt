-- ===== src/StopScan/Held.antt =====
-- src/server/routes/stop_scan.rs: the scanner loses no text, cuts at the first stop string, and holds what may begin one.
use mathlib.Core.List.{append-nil}
use oxydllm.Base.{
  ℕ, ◌-◌, ◌≤◌, ◌<◌, ◌≡◌, ◌⊎◌, refl, sym, ap, ◌∙◌, inl, inr, true, List, [], ◌∷◌, ◌++◌, some, length,
  length-drop, length-take, take, drop, take-append-drop, none, arith, Bool-cases, Option-cases,
}
use oxydllm.StopScan.{
  StopScanner, Scan, text, stopped, push, is_empty, earliest_match, match_in, find_in, keep_for,
}
use oxydllm.StopScan.Find.{
  AllOf, AnyOf, AllOf-map, take-front, find_in-some, find_in-first, match_in-some, match_in-none,
  Opens, keep_for-le, Held, keep_for-Held,
}

-- The stop string begins behind `x`.
abbrev pub Occurs : List ℕ → List ℕ → List ℕ → List ℕ → Type 0
Occurs whole stop x y = whole ≡ x ++ (stop ++ y)

-- The stream goes on: the text `t` is handed out and `held` is held. No stop string occurs; an end of the text that may begin a
-- stop string is held; and no more than that is.
pub record Going (whole : List ℕ) (stops : List (List ℕ)) (t held : List ℕ) : Type 0 where
  pub split : t ++ held ≡ whole
  pub clean : AllOf (λ stop. (x y : List ℕ) → ¬ Occurs whole stop x y) stops
  pub tails : AllOf (λ stop. (a : List ℕ) → Opens whole stop a → length a ≤ length held) stops
  pub opening :
      (held ≡ []) ⊎ AnyOf (λ stop. (b : List ℕ) × (0 < length b) × (stop ≡ held ++ b)) stops

-- The stream ends: a stop string begins right behind `t`, and none begins before.
pub record Cut (whole : List ℕ) (stops : List (List ℕ)) (t held : List ℕ) : Type 0 where
  pub nothing_held : held ≡ []
  pub cut : AnyOf (λ stop. (y : List ℕ) × Occurs whole stop t y) stops
  pub first : AllOf (λ stop. (x y : List ℕ) → Occurs whole stop x y → length t ≤ length x) stops

abbrev pub Scanned : List ℕ → List (List ℕ) → Scan × StopScanner → Type 0
Scanned whole stops (text t, s) = (s.stops ≡ stops) × Going whole stops t s.held
Scanned whole stops (stopped t, s) = (s.stops ≡ stops) × Cut whole stops t s.held

no_stops : (P : List ℕ → Type 0) (stops : List (List ℕ)) → is_empty stops ≡ true → AllOf P stops
unfolding is_empty
no_stops P [] e = tt
no_stops P (s ∷ ss) e = absurd cc

AnyOf-map :
    (P Q : List ℕ → Type 0)
    → ((s : List ℕ) → P s → Q s)
    → (ss : List (List ℕ)) → AnyOf P ss
    → AnyOf Q ss
AnyOf-map P Q f [] h = h
AnyOf-map P Q f (s ∷ ss) (inl p) = inl (f s p)
AnyOf-map P Q f (s ∷ ss) (inr h) = inr (AnyOf-map P Q f ss h)

clean_lem :
    (whole : List ℕ) (stops : List (List ℕ))
    → match_in whole stops ≡ none
    → AllOf (λ stop. (x y : List ℕ) → ¬ Occurs whole stop x y) stops
clean_lem whole stops e =
    AllOf-map (λ stop. find_in whole stop ≡ none) (λ stop. (x y : List ℕ) → ¬ Occurs whole stop x y)
      (λ stop nowhere x y o.
        let (i, found, le) = find_in-first x stop y in
        clash i (sym nowhere ∙ ap (λ l. find_in l stop) o ∙ found))
      stops (match_in-none whole stops e)
  where
    clash : (i : ℕ) → ¬ (none ≡ some i)
    clash i e = cc

Going_lem :
    (whole : List ℕ) (stops : List (List ℕ))
    → match_in whole stops ≡ none
    → Going whole stops
        (take (length whole - keep_for whole stops) whole)
        (drop (length whole - keep_for whole stops) whole)
Going_lem whole stops e =
    let k = keep_for whole stops in
    let h : Held whole k stops = keep_for-Held whole stops in
    let within : k ≤ length whole = elim h [ inl z ↦ omega (arith, z) | inr (le, any) ↦ le ] in
    let long : k ≤ length (drop (length whole - k) whole) =
      omega (arith, length-drop (length whole - k) whole, within) in
    record {
      split = take-append-drop (length whole - k) whole;
      clean = clean_lem whole stops e;
      tails =
          AllOf-map (λ stop. (a : List ℕ) → Opens whole stop a → length a ≤ k)
            (λ stop.
              (a : List ℕ) → Opens whole stop a → length a ≤ length (drop (length whole - k) whole))
            (λ stop le a o. omega (arith, le a o, long)) stops (keep_for-le whole stops);
      opening = elim h [
        | inl z ↦ inl (
            nil_of (drop (length whole - k) whole)
              (omega (arith, length-drop (length whole - k) whole, z)))
        | inr (le, any) ↦ inr any
      ];
    }
  where
    nil_of : (xs : List ℕ) → length xs ≡ 0 → xs ≡ []
    nil_of [] e = refl
    nil_of (x ∷ xs) e = absurd (omega (arith, e))

Cut_lem :
    (whole : List ℕ) (stops : List (List ℕ)) (i : ℕ)
    → match_in whole stops ≡ some i
    → Cut whole stops (take i whole) []
Cut_lem whole stops i e =
    let (any, all) = match_in-some whole stops i e in
    record {
      nothing_held = refl;
      cut =
          AnyOf-map (λ stop. find_in whole stop ≡ some i)
            (λ stop. (y : List ℕ) × Occurs whole stop (take i whole) y)
            (λ stop found.
              let (x, y, split, at) = find_in-some whole stop i found in
              let front : take i whole ≡ x =
                ap (λ l. take i l) split
                ∙ ap (λ n. take n (x ++ (stop ++ y))) (sym at)
                ∙ take-front x (stop ++ y) in
              (y, split ∙ ap (λ l. l ++ (stop ++ y)) (sym front)))
            stops any;
      first =
          AllOf-map (λ stop. (j : ℕ) → find_in whole stop ≡ some j → i ≤ j)
            (λ stop. (x y : List ℕ) → Occurs whole stop x y → length (take i whole) ≤ length x)
            (λ stop least x y o.
              let (j, found, le) = find_in-first x stop y in
              omega (arith, length-take i whole, least j (ap (λ l. find_in l stop) o ∙ found), le))
            stops all;
    }

-- A scanner without stop strings holds nothing. Of what was held and the delta, a step either hands out a first part and holds
-- the rest, where no stop string occurs in the whole, every end of it that is a first part of a stop string, up to a
-- character's boundary, is held, and what is held is a first part of a stop string; or it hands out the part before a stop
-- string that occurs, before which no other begins, and holds nothing.
pub push-Scanned :
    (delta : List ℕ) (s : StopScanner)
    → (is_empty s.stops ≡ true → s.held ≡ [])
    → Scanned (s.held ++ delta) s.stops (push delta s)
unfolding push earliest_match
push-Scanned delta s fresh = elim (Bool-cases (is_empty s.stops)) [
  | inl off ↦ rw off (
    refl,
    record {
      split =
          ap (λ l. delta ++ l) (fresh off)
          ∙ append-nil delta
          ∙ ap (λ l. l ++ delta) (sym (fresh off));
      clean = no_stops (λ stop. (x y : List ℕ) → ¬ Occurs (s.held ++ delta) stop x y) s.stops off;
      tails =
          no_stops
            (λ stop. (a : List ℕ) → Opens (s.held ++ delta) stop a → length a ≤ length s.held)
            s.stops off;
      opening = inl (fresh off);
    },
  )
  | inr on ↦
      let whole = s.held ++ delta in
      elim (Option-cases (match_in whole s.stops)) [
        | inl going ↦ rw (on, going) (refl, Going_lem whole s.stops going)
        | inr (i, here) ↦ rw (on, here) (refl, Cut_lem whole s.stops i here)
      ]
]
