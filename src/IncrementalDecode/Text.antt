-- ===== src/IncrementalDecode/Text.antt =====
-- src/common/incremental_decode.rs: positions in a text, and its trailing replacement characters.
use oxydllm.Base.{
  ℕ, zero, suc, ◌+◌, ◌-◌, ◌<◌, min, ◌≡◌, refl, ap, inl, inr, true, false, List, [], ◌∷◌, ◌++◌, some,
  ltb, leb, ◌==◌, arith, Bool-cases,
}
use oxydllm.IncrementalDecode.{
  len_utf8, byte_len, is_char_boundary, slice_from, only_replacements, trim_end,
  ends_with_replacement, clamp_down, clamp_to_char_boundary,
}

pub len_utf8_pos : (c : ℕ) → 0 < len_utf8 c
unfolding len_utf8
len_utf8_pos c = ground arith

pub byte_len-append : (p r : List ℕ) → byte_len (p ++ r) ≡ byte_len p + byte_len r
unfolding byte_len
byte_len-append [] r = omega arith
byte_len-append (c ∷ p) r = omega (arith, byte_len-append p r)

boundary_end : (r : List ℕ) → is_char_boundary r 0 ≡ true
unfolding is_char_boundary
boundary_end [] = refl
boundary_end (c ∷ r) = refl

boundary-append : (p r : List ℕ) → is_char_boundary (p ++ r) (byte_len p) ≡ true
unfolding byte_len is_char_boundary
boundary-append [] r = boundary_end r
boundary-append (c ∷ p) r =
    let after : len_utf8 c + byte_len p - len_utf8 c ≡ byte_len p = omega arith in
    let fits : leb (len_utf8 c) (len_utf8 c + byte_len p) ≡ true = ground arith in
    ground (arith, after, fits, boundary-append p r)

slice_from-zero : (r : List ℕ) → slice_from r 0 ≡ some r
unfolding slice_from
slice_from-zero [] = refl
slice_from-zero (c ∷ r) = refl

pub slice_from-append : (p r : List ℕ) → slice_from (p ++ r) (byte_len p) ≡ some r
unfolding byte_len slice_from
slice_from-append [] r = slice_from-zero r
slice_from-append (c ∷ p) r =
    let after : len_utf8 c + byte_len p - len_utf8 c ≡ byte_len p = omega arith in
    let later : len_utf8 c + byte_len p == 0 ≡ false = ground (arith, len_utf8_pos c) in
    let fits : ltb (len_utf8 c + byte_len p) (len_utf8 c) ≡ false = ground arith in
    rw (later, fits, after) (slice_from-append p r)

clamp_down-boundary : (s : List ℕ) (i : ℕ) → is_char_boundary s i ≡ true → clamp_down s i ≡ i
unfolding clamp_down
clamp_down-boundary s zero e = refl
clamp_down-boundary s (suc i) e = rw e refl

-- A position behind a first part of the text is kept.
pub clamp-append : (p r : List ℕ) → clamp_to_char_boundary (p ++ r) (byte_len p) ≡ byte_len p
unfolding clamp_to_char_boundary
clamp-append p r =
    let within : min (byte_len p) (byte_len (p ++ r)) ≡ byte_len p =
      omega (arith, byte_len-append p r) in
    rw within (clamp_down-boundary (p ++ r) (byte_len p) (boundary-append p r))

clamp_down-IsBoundary : (s : List ℕ) (i : ℕ) → is_char_boundary s (clamp_down s i) ≡ true
unfolding clamp_down
clamp_down-IsBoundary s zero = boundary_end s
clamp_down-IsBoundary s (suc i) = elim (Bool-cases (is_char_boundary s (suc i))) [
  | inl e ↦ rw (clamp_down, e) e
  | inr e ↦ rw (clamp_down, e) (clamp_down-IsBoundary s i)
]

slice_at_boundary :
    (s : List ℕ) (i : ℕ) → is_char_boundary s i ≡ true → (r : List ℕ) × (slice_from s i ≡ some r)
unfolding is_char_boundary slice_from
slice_at_boundary [] i e = ([], ground (arith, e))
slice_at_boundary (c ∷ s) i e = elim (Bool-cases (i == 0)) [
  | inl at_start ↦ (c ∷ s, rw at_start refl)
  | inr later ↦
      let (r, f) = slice_at_boundary s (i - len_utf8 c) (ground (arith, e, later)) in
      let fits : ltb i (len_utf8 c) ≡ false = ground (arith, e, later) in (r, rw (later, fits) f)
]

-- A clamped position is no panic.
pub slice-clamp :
    (s : List ℕ) (i : ℕ) → (r : List ℕ) × (slice_from s (clamp_to_char_boundary s i) ≡ some r)
unfolding clamp_to_char_boundary
slice-clamp s i = slice_at_boundary s _ (clamp_down-IsBoundary s (min i (byte_len s)))

-- What is trimmed is a run of replacement characters.
pub trim_end_lem :
    (s : List ℕ) → (held : List ℕ) × (s ≡ trim_end s ++ held) × (only_replacements held ≡ true)
unfolding trim_end
trim_end_lem [] = ([], refl, unfold only_replacements in refl)
trim_end_lem (c ∷ s) = elim (Bool-cases (only_replacements (c ∷ s))) [
  | inl all ↦ (c ∷ s, rw (trim_end, all) refl, all)
  | inr some_other ↦
      let (held, e, f) = trim_end_lem s in (held, rw (trim_end, some_other) (ap (λ l. c ∷ l) e), f)
]

trim_end-nil : (s : List ℕ) → trim_end s ≡ [] → only_replacements s ≡ true
unfolding trim_end only_replacements
trim_end-nil [] e = refl
trim_end-nil (c ∷ s) e = elim (Bool-cases (only_replacements (c ∷ s))) [
  | inl all ↦ all
  | inr some_other ↦ absurd (not_nil (rw (trim_end, some_other) at e))
]
  where
    not_nil : {x : ℕ} {xs : List ℕ} → ¬ (x ∷ xs ≡ [])
    not_nil e = cc

-- Trimmed text does not end in a replacement character.
pub ends_with-trim_end : (s : List ℕ) → ends_with_replacement (trim_end s) ≡ false
unfolding trim_end ends_with_replacement only_replacements
ends_with-trim_end [] = refl
ends_with-trim_end (c ∷ s) = elim (Bool-cases (only_replacements (c ∷ s))) [
  | inl all ↦ rw (trim_end, all) refl
  | inr some_other ↦
      rw (trim_end, some_other)
        (kept (trim_end s) some_other (ends_with-trim_end s) (trim_end-nil s))
]
  where
    kept :
        (u : List ℕ)
        → only_replacements (c ∷ s) ≡ false
        → ends_with_replacement u ≡ false
        → (u ≡ [] → only_replacements s ≡ true)
        → ends_with_replacement (c ∷ u) ≡ false
    kept [] other e all =
        let rest : only_replacements s ≡ true = all refl in ground (arith, other, rest)
    kept (d ∷ u) other e all = e

-- A text ends as its last part does.
pub ends_with-append :
    (p : List ℕ) (c : ℕ) (q : List ℕ)
    → ends_with_replacement (p ++ c ∷ q) ≡ ends_with_replacement (c ∷ q)
unfolding ends_with_replacement
ends_with-append [] c q = refl
ends_with-append (a ∷ []) c q = refl
ends_with-append (a ∷ b ∷ p) c q = ends_with-append (b ∷ p) c q
