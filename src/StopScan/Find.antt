-- ===== src/StopScan/Find.antt =====
-- src/server/routes/stop_scan.rs: where a stop string occurs, and which part of the text may begin one.
use oxydllm.Base.{
  ℕ, zero, suc, ◌+◌, ◌-◌, ◌≤◌, ◌<◌, ◌≡◌, ◌⊎◌, inl, inr, refl, sym, ap, ◌∙◌, subst, min, max, true,
  false, ◌&&◌, List, [], ◌∷◌, ◌++◌, none, some, leb, ◌==◌, length, length-append, length-take,
  get_elem?, take, drop, take-append-drop, arith, Bool-cases, Option-cases,
}
use oxydllm.PrefixCache.{tokens_eq}
use oxydllm.PrefixCache.Lookup.{tokens_eq_iff}
use oxydllm.StopScan.{
  starts_with, ends_with, find_in, earlier, match_in, is_char_boundary, opening_from,
  longest_suffix_opening, keep_for,
}

abbrev pub AllOf : (List ℕ → Type 0) → List (List ℕ) → Type 0
AllOf P [] = Unit
AllOf P (s ∷ ss) = P s × AllOf P ss

abbrev pub AnyOf : (List ℕ → Type 0) → List (List ℕ) → Type 0
AnyOf P [] = ⊥
AnyOf P (s ∷ ss) = P s ⊎ AnyOf P ss

pub take-front : (xs ys : List ℕ) → take (length xs) (xs ++ ys) ≡ xs
take-front [] ys = refl
take-front (x ∷ xs) ys = ap (λ l. x ∷ l) (take-front xs ys)

drop-front : (xs ys : List ℕ) → drop (length xs) (xs ++ ys) ≡ ys
drop-front [] ys = refl
drop-front (x ∷ xs) ys = drop-front xs ys

starts_with-split : (s word : List ℕ) → starts_with s word ≡ true → s ≡ word ++ drop (length word) s
unfolding starts_with
starts_with-split s word e =
    sym (take-append-drop (length word) s)
    ∙ ap (λ l. l ++ drop (length word) s) ((tokens_eq_iff (take (length word) s) word).0 e)

starts_with-front : (word y : List ℕ) → starts_with (word ++ y) word ≡ true
unfolding starts_with
starts_with-front word y =
    ap (λ l. tokens_eq l word) (take-front word y) ∙ (tokens_eq_iff word word).1 refl

-- What is found occurs there.
pub find_in-some :
    (s word : List ℕ) (i : ℕ)
    → find_in s word ≡ some i
    → (x : List ℕ) × (y : List ℕ) × (s ≡ x ++ (word ++ y)) × (length x ≡ i)
unfolding find_in
find_in-some [] word i e = elim (Bool-cases (starts_with [] word)) [
  | inl hit ↦ ([], drop (length word) [], starts_with-split [] word hit, at_zero (rw hit at e))
  | inr miss ↦ absurd (nothing (rw miss at e))
]
  where
    at_zero : some 0 ≡ some i → 0 ≡ i
    at_zero e = cc

    nothing : ¬ (none ≡ some i)
    nothing e = cc
find_in-some (c ∷ s) word i e = elim (Bool-cases (starts_with (c ∷ s) word)) [
  | inl hit ↦
      ([], drop (length word) (c ∷ s), starts_with-split (c ∷ s) word hit, at_zero (rw hit at e))
  | inr miss ↦ elim (Option-cases (find_in s word)) [
    | inl nowhere ↦ absurd (nothing (rw (miss, nowhere) at e))
    | inr (j, found) ↦
        let (x, y, split, at) = find_in-some s word j found in
        (c ∷ x, y, ap (λ l. c ∷ l) split, omega (arith, at, next j (rw (miss, found) at e)))
  ]
]
  where
    at_zero : some 0 ≡ some i → 0 ≡ i
    at_zero e = cc

    nothing : ¬ (none ≡ some i)
    nothing e = cc

    next : (j : ℕ) → some (j + 1) ≡ some i → j + 1 ≡ i
    next j e = cc

here : (s word : List ℕ) → starts_with s word ≡ true → find_in s word ≡ some 0
unfolding find_in
here [] word e = rw (find_in, e) refl
here (c ∷ s) word e = rw (find_in, e) refl

-- What occurs is found, there or before.
pub find_in-first :
    (x word y : List ℕ) → (i : ℕ) × (find_in (x ++ (word ++ y)) word ≡ some i) × (i ≤ length x)
unfolding find_in
find_in-first [] word y = (0, here (word ++ y) word (starts_with-front word y), omega arith)
find_in-first (c ∷ x) word y = elim (Bool-cases (starts_with (c ∷ (x ++ (word ++ y))) word)) [
  | inl hit ↦ (0, rw (find_in, hit) refl, omega arith)
  | inr miss ↦
      let (i, e, le) = find_in-first x word y in
      (i + 1, rw (find_in, miss, e) refl, omega (arith, le))
]

none-some : {i : ℕ} → ¬ (none ≡ some i)
none-some e = cc

pub some_eq : {i j : ℕ} → some i ≡ some j → i ≡ j
some_eq e = cc

-- Without a match no stop string is found.
pub match_in-none :
    (held : List ℕ) (stops : List (List ℕ))
    → match_in held stops ≡ none
    → AllOf (λ stop. find_in held stop ≡ none) stops
unfolding match_in earlier
match_in-none held [] e = tt
match_in-none held (stop ∷ stops) e = elim (Option-cases (find_in held stop)) [
  | inl nowhere ↦ (nowhere, match_in-none held stops (rw (match_in, nowhere) at e))
  | inr (j, found) ↦ elim (Option-cases (match_in held stops)) [
    | inl others ↦ absurd (none-some (sym (rw (match_in, found, others) at e)))
    | inr (k, other) ↦ absurd (none-some (sym (rw (match_in, found, other) at e)))
  ]
]

pub AllOf-map :
    (P Q : List ℕ → Type 0)
    → ((s : List ℕ) → P s → Q s)
    → (ss : List (List ℕ)) → AllOf P ss
    → AllOf Q ss
AllOf-map P Q f [] h = tt
AllOf-map P Q f (s ∷ ss) h = (f s h.0, AllOf-map P Q f ss h.1)

-- The match is that of a stop string, and no stop string is found before it.
pub match_in-some :
    (held : List ℕ) (stops : List (List ℕ)) (i : ℕ)
    → match_in held stops ≡ some i
    → AnyOf (λ stop. find_in held stop ≡ some i) stops
      × AllOf (λ stop. (j : ℕ) → find_in held stop ≡ some j → i ≤ j) stops
unfolding match_in earlier
match_in-some held [] i e = absurd (none-some e)
match_in-some held (stop ∷ stops) i e = elim (Option-cases (find_in held stop)) [
  | inl nowhere ↦
      let (any, all) = match_in-some held stops i (rw (match_in, nowhere) at e) in
      (inr any, ((λ j f. absurd (none-some (sym nowhere ∙ f))), all))
  | inr (j, found) ↦ elim (Option-cases (match_in held stops)) [
    | inl others ↦
        let same : j ≡ i = some_eq (rw (match_in, found, others) at e) in
        (
          inl (found ∙ ap some same),
          (
            (λ k f. omega (arith, same, some_eq (sym found ∙ f))),
            AllOf-map (λ s. find_in held s ≡ none) (λ s. (k : ℕ) → find_in held s ≡ some k → i ≤ k)
                (λ s none_at k f. absurd (none-some (sym none_at ∙ f))) stops
                (match_in-none held stops others),
          ),
        )
    | inr (k, other) ↦
        let least : min j k ≡ i = some_eq (rw (match_in, found, other) at e) in
        let (any, all) = match_in-some held stops k other in
        (
          elim (Bool-cases (leb j k)) [
            | inl le ↦ let same : j ≡ i = ground (arith, le, least) in inl (found ∙ ap some same)
            | inr gt ↦
                let same : k ≡ i = ground (arith, gt, least) in
                inr (subst (λ n. AnyOf (λ s. find_in held s ≡ some n) stops) same any)
          ],
          (
            (λ m f. omega (arith, least, some_eq (sym found ∙ f))),
            AllOf-map (λ s. (m : ℕ) → find_in held s ≡ some m → k ≤ m)
                (λ s. (m : ℕ) → find_in held s ≡ some m → i ≤ m)
                (λ s le m f. omega (arith, le m f, least)) stops all,
          ),
        )
  ]
]

ends_with-split :
    (s word : List ℕ)
    → ends_with s word ≡ true
    → (length word ≤ length s) × (drop (length s - length word) s ≡ word)
unfolding ends_with
ends_with-split s word e =
    let same : tokens_eq (drop (length s - length word) s) word ≡ true = ground (arith, e) in
    (ground (arith, e), (tokens_eq_iff (drop (length s - length word) s) word).0 same)

ends_with-back : (x word : List ℕ) → ends_with (x ++ word) word ≡ true
unfolding ends_with
ends_with-back x word =
    let at : length (x ++ word) - length word ≡ length x = omega (arith, length-append x word) in
    let same : tokens_eq (drop (length (x ++ word) - length word) (x ++ word)) word ≡ true =
      ap (λ n. tokens_eq (drop n (x ++ word)) word) at
      ∙ ap (λ l. tokens_eq l word) (drop-front x word)
      ∙ (tokens_eq_iff word word).1 refl in
    ground (arith, same, length-append x word)

-- The end of the text that may begin the stop string is the longest such end.
opening_from-le :
    (n : ℕ) (s stop : List ℕ) (k : ℕ)
    → 0 < k
    → k ≤ n
    → is_char_boundary stop k ≡ true
    → ends_with s (take k stop) ≡ true
    → k ≤ opening_from n s stop
unfolding opening_from
opening_from-le zero s stop k pos le at fits = absurd (omega arith)
opening_from-le (suc n) s stop k pos le at fits =
    elim (Bool-cases (is_char_boundary stop (n + 1) && ends_with s (take (n + 1) stop))) [
      | inl hit ↦ rw (opening_from, hit) (omega arith)
      | inr miss ↦
          rw (opening_from, miss)
            (opening_from-le n s stop k pos (below (Bool-cases (k == n + 1)) miss) at fits)
    ]
  where
    below :
        ((k == n + 1) ≡ true) ⊎ ((k == n + 1) ≡ false)
        → (is_char_boundary stop (n + 1) && ends_with s (take (n + 1) stop)) ≡ false
        → k ≤ n
    below (inr differs) miss = ground (arith, differs, le)
    below (inl top) miss =
        let same : k ≡ n + 1 = ground (arith, top) in
        let both : (is_char_boundary stop k && ends_with s (take k stop)) ≡ false =
          ap (λ i. is_char_boundary stop i && ends_with s (take i stop)) same ∙ miss in
        absurd (ground (arith, both, at, fits))

opening_from-fits :
    (n : ℕ) (s stop : List ℕ)
    → (opening_from n s stop ≡ 0)
      ⊎ ((opening_from n s stop ≤ n) × (ends_with s (take (opening_from n s stop) stop) ≡ true))
unfolding opening_from
opening_from-fits zero s stop = inl refl
opening_from-fits (suc n) s stop =
    elim (Bool-cases (is_char_boundary stop (n + 1) && ends_with s (take (n + 1) stop))) [
      | inl hit ↦
          let fits : ends_with s (take (n + 1) stop) ≡ true = ground (arith, hit) in
          rw (opening_from, hit) (inr (omega arith, fits))
      | inr miss ↦
          rw (opening_from, miss)
            (elim (opening_from-fits n s stop) [
              | inl z ↦ inl z
              | inr (le, fits) ↦ inr (omega (arith, le), fits)
            ])
    ]

-- A byte that begins a character.
abbrev pub Begins : ℕ → Type 0
Begins c = (c < 0x80) ⊎ (0xc0 ≤ c)

-- The first part `a` of a stop string, up to a character's boundary, is the end of the text.
pub record Opens (s stop a : List ℕ) : Type 0 where
  pub front : List ℕ
  pub ends : s ≡ front ++ a
  pub c : ℕ
  pub rest : List ℕ
  pub begins : Begins c
  pub proper : stop ≡ a ++ c ∷ rest

is_char_boundary-front :
    (a : List ℕ) (c : ℕ) (rest : List ℕ)
    → Begins c
    → is_char_boundary (a ++ c ∷ rest) (length a) ≡ true
unfolding is_char_boundary
is_char_boundary-front a c rest h =
    rw (is_char_boundary, byte a)
      (elim h [ inl low ↦ ground (arith, low) | inr high ↦ ground (arith, high) ])
  where
    byte : (a : List ℕ) → get_elem? (a ++ c ∷ rest) (length a) ≡ some c
    byte [] = refl
    byte (b ∷ a) = byte a

-- No end of the text that opens a stop string is longer than the one kept.
pub longest_suffix_opening-le :
    (s stop a : List ℕ) → Opens s stop a → length a ≤ longest_suffix_opening s stop
unfolding longest_suffix_opening
longest_suffix_opening-le s stop a o = elim (Bool-cases (length a == 0)) [
  | inl nil ↦ ground (arith, nil)
  | inr some_bytes ↦
      let pos : 0 < length a = ground (arith, some_bytes) in
      let fits : ends_with s (take (length a) stop) ≡ true =
        ap (λ l. ends_with l (take (length a) stop)) o.ends
        ∙ ap (ends_with (o.front ++ a))
            (ap (take (length a)) o.proper ∙ take-front a (o.c ∷ o.rest))
        ∙ ends_with-back o.front a in
      let at : is_char_boundary stop (length a) ≡ true =
        ap (λ l. is_char_boundary l (length a)) o.proper
        ∙ is_char_boundary-front a o.c o.rest o.begins in
      opening_from-le (length stop - 1) s stop (length a) pos
        (omega (arith, ap length o.proper, length-append a (o.c ∷ o.rest))) at fits
]

-- What is kept for a stop string is nothing, or an end of the text that is a first part of the stop string, not all of it.
pub longest_suffix_opening-fits :
    (s stop : List ℕ)
    → (longest_suffix_opening s stop ≡ 0)
      ⊎ ((b : List ℕ) × (0 < length b)
          × (longest_suffix_opening s stop ≤ length s)
          × (stop ≡ drop (length s - longest_suffix_opening s stop) s ++ b))
unfolding longest_suffix_opening
longest_suffix_opening-fits s stop = elim (opening_from-fits (length stop - 1) s stop) [
  | inl z ↦ inl z
  | inr (le, fits) ↦ elim (Bool-cases (opening_from (length stop - 1) s stop == 0)) [
    | inl z ↦ inl (ground (arith, z))
    | inr more ↦ inr (begun (opening_from (length stop - 1) s stop) le (ground (arith, more)) fits)
  ]
]
  where
    begun :
        (k : ℕ)
        → k ≤ length stop - 1
        → 0 < k
        → ends_with s (take k stop) ≡ true
        → (b : List ℕ) × (0 < length b) × (k ≤ length s) × (stop ≡ drop (length s - k) s ++ b)
    begun k le pos fits =
        let split = ends_with-split s (take k stop) fits in
        let long : length (take k stop) ≡ k = omega (arith, length-take k stop, le) in
        (
          drop k stop,
          omega (
            arith,
            le,
            pos,
            ap length (take-append-drop k stop),
            length-append (take k stop) (drop k stop),
            long,
          ),
          omega (arith, split.0, long),
          sym (take-append-drop k stop)
              ∙ ap (λ l. l ++ drop k stop)
                  (sym (ap (λ n. drop (length s - n) s) (sym long) ∙ split.1)),
        )

pub keep_for-le :
    (s : List ℕ) (stops : List (List ℕ))
    → AllOf (λ stop. (a : List ℕ) → Opens s stop a → length a ≤ keep_for s stops) stops
unfolding keep_for
keep_for-le s [] = tt
keep_for-le s (stop ∷ stops) = (
  (λ a o. omega (arith, longest_suffix_opening-le s stop a o)),
  AllOf-map (λ t. (a : List ℕ) → Opens s t a → length a ≤ keep_for s stops)
      (λ t.
        (a : List ℕ)
        → Opens s t a
        → length a ≤ max (longest_suffix_opening s stop) (keep_for s stops))
      (λ t h a o. omega (arith, h a o)) stops (keep_for-le s stops),
)

-- What is held is nothing, or a first part of a stop string, not all of it.
abbrev pub Held : List ℕ → ℕ → List (List ℕ) → Type 0
Held s k stops =
    (k ≡ 0)
    ⊎ ((k ≤ length s)
        × AnyOf (λ stop. (b : List ℕ) × (0 < length b) × (stop ≡ drop (length s - k) s ++ b)) stops)

pub keep_for-Held : (s : List ℕ) (stops : List (List ℕ)) → Held s (keep_for s stops) stops
unfolding keep_for
keep_for-Held s [] = inl refl
keep_for-Held s (stop ∷ stops) =
    elim (Bool-cases (leb (keep_for s stops) (longest_suffix_opening s stop))) [
      | inl this ↦
          let top : longest_suffix_opening s stop
              ≡ max (longest_suffix_opening s stop) (keep_for s stops) =
            ground (arith, this) in
          subst (λ k. Held s k (stop ∷ stops)) top
            (elim (longest_suffix_opening-fits s stop) [
              | inl z ↦ inl z
              | inr (b, pos, le, e) ↦ inr (le, inl (b, pos, e))
            ])
      | inr other ↦
          let top : keep_for s stops ≡ max (longest_suffix_opening s stop) (keep_for s stops) =
            ground (arith, other) in
          subst (λ k. Held s k (stop ∷ stops)) top
            (elim (keep_for-Held s stops) [ inl z ↦ inl z | inr (le, any) ↦ inr (le, inr any) ])
    ]
