-- ===== src/Tests/Halves.antt =====
-- src/common/incremental_decode.rs: a tokenizer that cuts characters. Tokens 1 and 2 are the two halves of `é`; a half by
-- itself is text that is still a replacement character, and every other token is its character.
use oxydllm.Base.{
  ℕ, ◌≡◌, ◌∙◌, refl, sym, ap, inl, inr, false, ◌&&◌, ◌||◌, ◌==◌, if◌then◌else◌, List, [], ◌∷◌, ◌++◌,
  some, arith, Bool-cases,
}
use oxydllm.IncrementalDecode.{
  Tokenizer, NeutralPrefix, decoded, ends_with_replacement, replacement,
}
use oxydllm.IncrementalDecode.Stream.{Decodes}

abbrev pub one : ℕ → ℕ
one x = if x == 1 || x == 2 then replacement else x

abbrev pub text_of_halves : List ℕ → List ℕ
text_of_halves [] = []
text_of_halves (x ∷ []) = one x ∷ []
text_of_halves (x ∷ y ∷ ids) =
    let joined = 0xe9 ∷ text_of_halves ids in
    let apart = one x ∷ text_of_halves (y ∷ ids) in if x == 1 && y == 2 then joined else apart

abbrev pub halves : Tokenizer
halves = record { decode = λ ids. some (text_of_halves ids); encode = λ text. some text }

abbrev pub neutral : NeutralPrefix
neutral = record { id = b'a'; text = b'a' ∷ [] }

-- Behind a token that is no first half, the others have their own text.
apart :
    (x : ℕ) (ids : List ℕ)
    → (x == 1) ≡ false
    → text_of_halves (x ∷ ids) ≡ one x ∷ text_of_halves ids
apart x [] e = refl
apart x (y ∷ ids) e = rw e refl

not_half : (x : ℕ) → (one x == replacement) ≡ false → (x == 1) ≡ false
not_half x e = ground (arith, e)

ends-tail :
    (c y : ℕ) (ids : List ℕ)
    → ends_with_replacement (c ∷ text_of_halves (y ∷ ids))
      ≡ ends_with_replacement (text_of_halves (y ∷ ids))
unfolding ends_with_replacement
ends-tail c y [] = refl
ends-tail c y (z ∷ ids) = elim (Bool-cases (y == 1 && z == 2)) [
  | inl both ↦ rw both refl
  | inr other ↦ rw other refl
]

joins_lem :
    (before : List ℕ) (x id : ℕ) (ids : List ℕ)
    → ends_with_replacement (text_of_halves (x ∷ before)) ≡ false
    → text_of_halves ((x ∷ before) ++ id ∷ ids)
      ≡ text_of_halves (x ∷ before) ++ text_of_halves (id ∷ ids)
unfolding ends_with_replacement
joins_lem [] x id ids e = apart x (id ∷ ids) (not_half x e)
joins_lem (y ∷ []) x id ids e = elim (Bool-cases (x == 1 && y == 2)) [
  | inl both ↦ rw both refl
  | inr other ↦ rw other (ap (λ l. one x ∷ l) (joins_lem [] y id ids (rw other at e)))
]
joins_lem (y ∷ z ∷ before) x id ids e = elim (Bool-cases (x == 1 && y == 2)) [
  | inl both ↦ rw both (
      ap (λ l. 0xe9 ∷ l) (joins_lem before z id ids (sym (ends-tail 0xe9 z before) ∙ rw both at e)))
  | inr other ↦ rw other (
      ap (λ l. one x ∷ l)
        (joins_lem (z ∷ before) y id ids (sym (ends-tail (one x) y (z ∷ before)) ∙ rw other at e)))
]

ends-rest :
    (c : ℕ) (p : List ℕ) → ends_with_replacement (c ∷ p) ≡ false → ends_with_replacement p ≡ false
unfolding ends_with_replacement
ends-rest c [] e = refl
ends-rest c (d ∷ p) e = e

head_of : {c d : ℕ} {p q : List ℕ} → c ∷ p ≡ d ∷ q → c ≡ d
head_of e = cc

rest_of : {c d : ℕ} {p q : List ℕ} → c ∷ p ≡ d ∷ q → p ≡ q
rest_of e = cc

-- The text before the replacement characters at the end stays.
final_lem :
    (before after p held : List ℕ)
    → text_of_halves before ≡ p ++ held
    → ends_with_replacement p ≡ false
    → (r : List ℕ) × (text_of_halves (before ++ after) ≡ p ++ r)
unfolding ends_with_replacement
final_lem before after [] held e f = (text_of_halves (before ++ after), refl)
final_lem [] after (c ∷ p) held e f = absurd cc
final_lem (x ∷ []) after (c ∷ []) held e f =
    let first : one x ≡ c = head_of e in
    (
      text_of_halves after,
      apart x after (clean x c first f) ∙ ap (λ k. k ∷ text_of_halves after) first,
    )
  where
    clean : (x c : ℕ) → one x ≡ c → ends_with_replacement (c ∷ []) ≡ false → (x == 1) ≡ false
    clean x c e f = ground (arith, e, f)
final_lem (x ∷ []) after (c ∷ d ∷ p) held e f = absurd (no_more (rest_of e))
  where
    no_more : {y : ℕ} {ys : List ℕ} → ¬ ([] ≡ y ∷ ys)
    no_more e = cc
final_lem (x ∷ y ∷ before) after (c ∷ p) held e f = elim (Bool-cases (x == 1 && y == 2)) [
  | inl both ↦
      let now : 0xe9 ∷ text_of_halves before ≡ c ∷ (p ++ held) = rw both at e in
      let (r, g) = final_lem before after p held (rest_of now) (ends-rest c p f) in
      (r, rw both (ap (λ l. 0xe9 ∷ l) g ∙ ap (λ k. k ∷ (p ++ r)) (head_of now)))
  | inr other ↦
      let now : one x ∷ text_of_halves (y ∷ before) ≡ c ∷ (p ++ held) = rw other at e in
      let (r, g) = final_lem (y ∷ before) after p held (rest_of now) (ends-rest c p f) in
      (r, rw other (ap (λ l. one x ∷ l) g ∙ ap (λ k. k ∷ (p ++ r)) (head_of now)))
]

pub halves-Decodes : Decodes halves neutral
unfolding decoded
halves-Decodes = record {
  piece = text_of_halves;
  behind = λ id ids. refl;
  joins = λ x before id ids e. joins_lem before x id ids e;
  final = λ before after p held e h f. final_lem before after p held e f;
  empty = refl;
}
