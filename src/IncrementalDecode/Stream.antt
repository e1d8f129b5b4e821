-- ===== src/IncrementalDecode/Stream.antt =====
-- src/common/incremental_decode.rs: the deltas of a sequence fed token by token are the text of its whole decode.
use mathlib.Core.List.{append_assoc, append-nil}
use oxydllm.Base.{
  ℕ, zero, suc, ◌+◌, ◌-◌, ◌≤◌, ◌<◌, ◌≡◌, refl, sym, ap, ◌∙◌, subst, inl, inr, true, false, List, [],
  ◌∷◌, ◌++◌, Option, none, some, ltb, ◌==◌, if◌then◌else◌, ◌>>=◌, length, length-append, take, drop,
  take-append-drop, length-take, arith, Bool-cases,
}
use oxydllm.IncrementalDecode.{
  Tokenizer, NeutralPrefix, IncrementalDecoder, new_decoder, byte_len, strip_prefix,
  only_replacements, ends_with_replacement, trim_end, emitted, emit_suffix, split_char_backoff,
  decoded, decode_with_neutral_prefix, decode_delta, freeze, advance_stable_window, joined, push,
  finish,
}
use oxydllm.IncrementalDecode.Text.{
  clamp-append, slice_from-append, trim_end_lem, ends_with-trim_end, ends_with-append,
  byte_len-append, len_utf8_pos,
}
use oxydllm.IncrementalDecode.Window.{
  delta_of, target, Moved, kept, clean, forced, advance-Moved, advance-decoded_len,
  full_text-joined,
}

take-append {ℓ} :
    {A : Type ℓ} (n : ℕ) (xs ys : List A) → n ≤ length xs → take n (xs ++ ys) ≡ take n xs
take-append zero xs ys h = refl
take-append (suc n) [] ys h = absurd (omega arith)
take-append (suc n) (x ∷ xs) ys h = ap (λ l. x ∷ l) (take-append n xs ys (omega arith))

take-take {ℓ} : {A : Type ℓ} (m n : ℕ) (xs : List A) → m ≤ n → take m (take n xs) ≡ take m xs
take-take zero n xs h = refl
take-take (suc m) zero xs h = absurd (omega arith)
take-take (suc m) (suc n) [] h = refl
take-take (suc m) (suc n) (x ∷ xs) h = ap (λ l. x ∷ l) (take-take m n xs (omega arith))

strip_prefix-append : (p r : List ℕ) → strip_prefix p (p ++ r) ≡ some r
unfolding strip_prefix
strip_prefix-append [] r = refl
strip_prefix-append (c ∷ p) r = ground (arith, strip_prefix-append p r)

-- What the decoder relies on of the tokenizer. Behind the neutral token, and behind any tokens whose text does not
-- end in a replacement character, tokens have the text `piece`; and the text before all the replacement characters
-- at the end, which may be a character cut in two, does not change when more tokens follow, where those may.
pub record Decodes (t : Tokenizer) (neutral : NeutralPrefix) : Type 0 where
  pub piece : List ℕ → List ℕ
  pub behind :
      (id : ℕ) (ids : List ℕ) → decoded t (neutral.id ∷ id ∷ ids) ≡ neutral.text ++ piece (id ∷ ids)
  pub joins :
      (x : ℕ) (before : List ℕ) (id : ℕ) (ids : List ℕ)
      → ends_with_replacement (decoded t (x ∷ before)) ≡ false
      → decoded t ((x ∷ before) ++ id ∷ ids) ≡ decoded t (x ∷ before) ++ piece (id ∷ ids)
  pub final :
      (before after p held : List ℕ)
      → decoded t before ≡ p ++ held
      → only_replacements held ≡ true
      → ends_with_replacement p ≡ false
      → (r : List ℕ) × (decoded t (before ++ after) ≡ p ++ r)
  pub empty : decoded t [] ≡ []

-- Of any four first parts of the sequence, each a token longer than the one before, one is cut between characters:
-- its text does not end in a replacement character.
abbrev pub Whole : Tokenizer → List ℕ → Type 0
Whole t ids =
    (n : ℕ)
    → n + split_char_backoff ≤ length ids
    → (k : ℕ) × (n ≤ k)
      × (k ≤ n + split_char_backoff)
      × (ends_with_replacement (decoded t (take k ids)) ≡ false)

Whole-append : (t : Tokenizer) (a b : List ℕ) → Whole t (a ++ b) → Whole t a
Whole-append t a b w n h =
    let (k, lo, hi, e) = w n (omega (arith, length-append a b)) in
    (
      k,
      lo,
      hi,
      ap (λ l. ends_with_replacement (decoded t l)) (sym (take-append k a b (omega arith))) ∙ e,
    )

abbrev pub text_of : Option (List ℕ) → List ℕ
text_of none = []
text_of (some text) = text

-- The tokens are fed one by one, each time with the whole sequence so far; all that is handed out, in order.
abbrev pub feed :
    Tokenizer
    → NeutralPrefix
    → List ℕ
    → List ℕ
    → IncrementalDecoder
    → Option (List ℕ × IncrementalDecoder)
feed t neutral done [] d = some ([], d)
feed t neutral done (id ∷ ids) d = do
  (out, d') ← push t (done ++ id ∷ []) neutral d
  (more, d'') ← feed t neutral (done ++ id ∷ []) ids d'
  some (text_of out ++ more, d'')

abbrev pub streamed : Tokenizer → NeutralPrefix → List ℕ → Option (List ℕ)
streamed t neutral ids = do
  (out, d) ← feed t neutral [] ids new_decoder
  (rest, d') ← finish t ids d
  some (out ++ text_of rest)

emitted_lem :
    (start : ℕ) (q : List ℕ)
    → (text_of (emitted start q).0 ≡ q) × ((emitted start q).1 ≡ start + byte_len q)
unfolding emitted byte_len
emitted_lem start [] = (refl, omega arith)
emitted_lem start (c ∷ q) = (refl, refl)

emit_suffix_lem :
    (full out r : List ℕ) (n : ℕ)
    → full ≡ out ++ r
    → n ≡ byte_len out
    → emit_suffix full n ≡ some (emitted (byte_len out) (trim_end r))
unfolding emit_suffix
emit_suffix_lem full out r n e f =
    rw (e, f, emit_suffix, clamp-append out r, slice_from-append out r) refl

first_empty : (p q : List ℕ) → p ++ q ≡ [] → p ≡ []
first_empty [] q e = refl
first_empty (c ∷ p) q e = cc

rest_text :
    (out held : List ℕ)
    → text_of (if ltb (byte_len out) (byte_len (out ++ held)) then some held else none) ≡ held
unfolding byte_len
rest_text out [] = ground (arith, byte_len-append out [])
rest_text out (c ∷ held) =
    let more : ltb (byte_len out) (byte_len (out ++ c ∷ held)) ≡ true =
      ground (arith, byte_len-append out (c ∷ held), len_utf8_pos c) in
    rw more refl

module _ (t : Tokenizer) (neutral : NeutralPrefix) (laws : Decodes t neutral) where
  abbrev fragment : List ℕ → List ℕ
  fragment ids = decode_with_neutral_prefix t ids neutral

  joins_lem :
      (a b : List ℕ)
      → 0 < length a
      → ends_with_replacement (decoded t a) ≡ false
      → decoded t (a ++ b) ≡ decoded t a ++ fragment b
  unfolding decode_with_neutral_prefix
  joins_lem [] b h e = absurd (omega arith)
  joins_lem (x ∷ a) [] h e = ap (λ l. decoded t l) (append-nil (x ∷ a)) ∙ sym (append-nil _)
  joins_lem (x ∷ a) (id ∷ ids) h e =
      laws.joins x a id ids e
      ∙ ap (λ l. decoded t (x ∷ a) ++ l)
          (sym (
            rw
              (
                decode_with_neutral_prefix,
                laws.behind id ids,
                strip_prefix-append neutral.text (laws.piece (id ∷ ids)),
              )
              refl))

  -- The frozen text is the decode of the tokens before the boundary, which is cut between characters.
  record Frozen (ids : List ℕ) (d : IncrementalDecoder) : Type 0 where
    within : d.stable_end ≤ length ids
    unfrozen : d.stable_end ≡ 0 → d.stable_text ≡ []
    frozen : 0 < d.stable_end → d.stable_text ≡ decoded t (take d.stable_end ids)
    cut : 0 < d.stable_end → ends_with_replacement (decoded t (take d.stable_end ids)) ≡ false

  Frozen-append :
      (ids more : List ℕ) (d : IncrementalDecoder) → Frozen ids d → Frozen (ids ++ more) d
  Frozen-append ids more d v =
      let same : take d.stable_end (ids ++ more) ≡ take d.stable_end ids =
        take-append d.stable_end ids more v.within in
      record {
        within = omega (arith, v.within, length-append ids more);
        unfrozen = v.unfrozen;
        frozen = λ pos. v.frozen pos ∙ ap (λ l. decoded t l) (sym same);
        cut = λ pos. ap (λ l. ends_with_replacement (decoded t l)) same ∙ v.cut pos;
      }

  split_at :
      (ids : List ℕ) (d : IncrementalDecoder) (end : ℕ)
      → Frozen ids d
      → d.stable_end < end
      → end ≤ length ids
      → d.stable_text ++ delta_of t ids neutral d end ≡ decoded t (take end ids)
  unfolding decode_delta
  split_at ids d end v after top = elim (Bool-cases (d.stable_end == 0)) [
    | inl start ↦ rw (decode_delta, start, v.unfrozen (ground (arith, start))) refl
    | inr on ↦
        let pos : 0 < d.stable_end = ground (arith, on) in
        let front : take d.stable_end (take end ids) ≡ take d.stable_end ids =
          take-take d.stable_end end ids (omega arith) in
        let whole : take d.stable_end ids ++ drop d.stable_end (take end ids) ≡ take end ids =
          ap (λ l. l ++ drop d.stable_end (take end ids)) (sym front)
          ∙ take-append-drop d.stable_end (take end ids) in
        rw (decode_delta, on)
          (ap (λ l. l ++ fragment (drop d.stable_end (take end ids))) (v.frozen pos)
            ∙ sym (
                joins_lem (take d.stable_end ids) (drop d.stable_end (take end ids))
                  (omega (arith, length-take d.stable_end ids, v.within)) (v.cut pos))
            ∙ ap (λ l. decoded t l) whole)
  ]

  ends-append :
      (p q : List ℕ)
      → ends_with_replacement p ≡ false
      → ends_with_replacement (p ++ q) ≡ ends_with_replacement q
  unfolding ends_with_replacement
  ends-append p [] e = ap ends_with_replacement (append-nil p) ∙ e
  ends-append p (c ∷ q) e = ends_with-append p c q

  Frozen-cut :
      (ids : List ℕ) (d : IncrementalDecoder)
      → Frozen ids d
      → ends_with_replacement d.stable_text ≡ false
  Frozen-cut ids d v = elim (Bool-cases (d.stable_end == 0)) [
    | inl start ↦
        ap ends_with_replacement (v.unfrozen (ground (arith, start)))
        ∙ unfold ends_with_replacement in refl
    | inr on ↦ ap ends_with_replacement (v.frozen (ground (arith, on))) ∙ v.cut (ground (arith, on))
  ]

  -- A delta ends in a replacement character exactly where the whole text up to there does.
  ends_at :
      (ids : List ℕ) (d : IncrementalDecoder) (end : ℕ)
      → Frozen ids d
      → d.stable_end < end
      → end ≤ length ids
      → ends_with_replacement (decoded t (take end ids))
        ≡ ends_with_replacement (delta_of t ids neutral d end)
  ends_at ids d end v after top =
      ap ends_with_replacement (sym (split_at ids d end v after top))
      ∙ ends-append d.stable_text _ (Frozen-cut ids d v)

  freeze_text :
      (ids : List ℕ) (d : IncrementalDecoder) (end : ℕ)
      → Frozen ids d
      → d.stable_end < end
      → end ≤ length ids
      → (freeze (delta_of t ids neutral d) end d).stable_text ≡ decoded t (take end ids)
  unfolding freeze
  freeze_text ids d end v after top = elim (Bool-cases (d.stable_end == 0)) [
    | inl start ↦
        let none_yet : d.stable_text ≡ [] = v.unfrozen (ground (arith, start)) in
        rw (freeze, start)
          (ap (λ l. l ++ delta_of t ids neutral d end) (sym none_yet)
            ∙ split_at ids d end v after top)
    | inr on ↦ rw (freeze, on) (split_at ids d end v after top)
  ]

  freeze-Frozen :
      (ids : List ℕ) (d : IncrementalDecoder) (end : ℕ)
      → Frozen ids d
      → d.stable_end < end
      → end ≤ length ids
      → ends_with_replacement (delta_of t ids neutral d end) ≡ false
      → Frozen ids (freeze (delta_of t ids neutral d) end d)
  unfolding freeze
  freeze-Frozen ids d end v after top ok = record {
    within = top;
    unfrozen = λ z. absurd (omega arith);
    frozen = λ pos. freeze_text ids d end v after top;
    cut = λ pos. ends_at ids d end v after top ∙ ok;
  }

  Moved-Frozen :
      (ids : List ℕ) (d d' : IncrementalDecoder)
      → Frozen ids d
      → Whole t ids
      → Moved t ids neutral d d'
      → Frozen ids d'
  Moved-Frozen ids d d' v w (kept short) = v
  Moved-Frozen ids d d' v w (clean end after top near ok) =
      freeze-Frozen ids d end v after (omega arith) ok
  Moved-Frozen ids d d' v w (forced new all room) =
      let (k, lo, hi, e) = w (target t ids neutral - split_char_backoff) (omega arith) in
      let broken = all k (omega arith) (omega arith) in
      absurd (cc (e, broken, ends_at ids d k v (omega arith) (omega arith)))

  joined-decoded :
      (ids : List ℕ) (d : IncrementalDecoder)
      → Frozen ids d
      → joined t ids neutral d ≡ decoded t ids
  unfolding joined
  joined-decoded ids d v = elim (Bool-cases (d.stable_end == 0)) [
    | inl start ↦
        let at : d.stable_end ≡ 0 = ground (arith, start) in
        rw (joined, start, v.unfrozen at, at) refl
    | inr on ↦
        let pos : 0 < d.stable_end = ground (arith, on) in
        rw (joined, on)
          (ap (λ l. l ++ fragment (drop d.stable_end ids)) (v.frozen pos)
            ∙ sym (
                joins_lem (take d.stable_end ids) (drop d.stable_end ids)
                  (omega (arith, length-take d.stable_end ids, v.within)) (v.cut pos))
            ∙ ap (λ l. decoded t l) (take-append-drop d.stable_end ids))
  ]

  -- `out` was handed out of the text of `done`, and what is held back is all the replacement characters at its end.
  record Handed (done : List ℕ) (d : IncrementalDecoder) (out : List ℕ) : Type 0 where
    held : List ℕ
    text : decoded t done ≡ out ++ held
    held_ok : only_replacements held ≡ true
    out_ok : ends_with_replacement out ≡ false
    len : d.decoded_len ≡ byte_len out

  push-Handed :
      (done : List ℕ) (id : ℕ) (d : IncrementalDecoder) (out : List ℕ)
      → Frozen done d
      → Handed done d out
      → Whole t (done ++ id ∷ [])
      → (o : Option (List ℕ)) × (d' : IncrementalDecoder) × (push t (done ++ id ∷ []) neutral d
          ≡ some (o, d'))
        × Frozen (done ++ id ∷ []) d'
        × Handed (done ++ id ∷ []) d' (out ++ text_of o)
  unfolding push
  push-Handed done id d out v h w =
      let ids = done ++ id ∷ [] in
      let d' = advance_stable_window t ids neutral d in
      let f =
        Moved-Frozen ids d d' (Frozen-append done (id ∷ []) d v) w
          (advance-Moved t ids neutral d) in
      let (r, e) = laws.final done (id ∷ []) out h.held h.text h.held_ok h.out_ok in
      let (held, split, held_ok) = trim_end_lem r in
      let same_len : d'.decoded_len ≡ byte_len out = advance-decoded_len t ids neutral d ∙ h.len in
      let em = emitted (byte_len out) (trim_end r) in
      let (said, counted) = emitted_lem (byte_len out) (trim_end r) in
      (
        em.0,
        record d' { decoded_len = em.1 },
        rw
            (
              full_text-joined t ids neutral d' f.within,
              emit_suffix_lem (joined t ids neutral d') out r d'.decoded_len
                  (joined-decoded ids d' f ∙ e) same_len,
            )
            refl,
        record { within = f.within; unfrozen = f.unfrozen; frozen = f.frozen; cut = f.cut },
        record {
          held = held;
          text =
              e
              ∙ ap (λ l. out ++ l) (split ∙ ap (λ l. l ++ held) (sym said))
              ∙ sym (append_assoc out (text_of em.0) held);
          held_ok = held_ok;
          out_ok =
              ap (λ l. ends_with_replacement (out ++ l)) said
              ∙ ends-append out (trim_end r) h.out_ok
              ∙ ends_with-trim_end r;
          len =
              counted
              ∙ ap (λ l. byte_len out + byte_len l) (sym said)
              ∙ sym (byte_len-append out (text_of em.0));
        },
      )

  feed-Handed :
      (done ids : List ℕ) (d : IncrementalDecoder) (out : List ℕ)
      → Frozen done d
      → Handed done d out
      → Whole t (done ++ ids)
      → (more : List ℕ) × (d' : IncrementalDecoder) × (feed t neutral done ids d ≡ some (more, d'))
        × Handed (done ++ ids) d' (out ++ more)
  feed-Handed done [] d out v h w = (
    [],
    d,
    refl,
    subst (λ l. Handed l d (out ++ [])) (sym (append-nil done))
        (subst (Handed done d) (sym (append-nil out)) h),
  )
  feed-Handed done (id ∷ ids) d out v h w =
      let next = done ++ id ∷ [] in
      let regroup : next ++ ids ≡ done ++ id ∷ ids = append_assoc done (id ∷ []) ids in
      let w' : Whole t (next ++ ids) = subst (Whole t) (sym regroup) w in
      let (o, d1, e, v1, h1) = push-Handed done id d out v h (Whole-append t next ids w') in
      let (more, d2, f, h2) = feed-Handed next ids d1 (out ++ text_of o) v1 h1 w' in
      (
        text_of o ++ more,
        d2,
        rw (e, f) refl,
        subst (λ l. Handed l d2 (out ++ (text_of o ++ more))) regroup
            (subst (Handed (next ++ ids) d2) (append_assoc out (text_of o) more) h2),
      )

  finish_at :
      (id : ℕ) (ids : List ℕ) (d : IncrementalDecoder) (out held : List ℕ)
      → decoded t (id ∷ ids) ≡ out ++ held
      → d.decoded_len ≡ byte_len out
      → finish t (id ∷ ids) d
        ≡ some (
          if ltb (byte_len out) (byte_len (out ++ held)) then some held else none,
          record d { decoded_len = byte_len (out ++ held) },
        )
  unfolding finish
  finish_at id ids d out held e n =
      rw (finish, e, n, clamp-append out held, slice_from-append out held) refl

  finish_lem :
      (ids : List ℕ) (d : IncrementalDecoder) (out : List ℕ)
      → Handed ids d out
      → (o : Option (List ℕ)) × (d' : IncrementalDecoder) × (finish t ids d ≡ some (o, d'))
        × (out ++ text_of o ≡ decoded t ids)
  unfolding finish
  finish_lem [] d out h = (
    none,
    d,
    refl,
    append-nil out ∙ first_empty out h.held (sym h.text ∙ laws.empty) ∙ sym laws.empty,
  )
  finish_lem (id ∷ ids) d out h = (
    if ltb (byte_len out) (byte_len (out ++ h.held)) then some h.held else none,
    record d { decoded_len = byte_len (out ++ h.held) },
    finish_at id ids d out h.held h.text h.len,
    ap (λ l. out ++ l) (rest_text out h.held) ∙ sym h.text,
  )

  start-Handed : Handed [] new_decoder []
  unfolding new_decoder byte_len only_replacements ends_with_replacement
  start-Handed = record { held = []; text = laws.empty; held_ok = refl; out_ok = refl; len = refl }

  start-Frozen : Frozen [] new_decoder
  unfolding new_decoder
  start-Frozen = record {
    within = omega arith;
    unfrozen = λ z. refl;
    frozen = λ pos. absurd (omega arith);
    cut = λ pos. absurd (omega arith);
  }

  -- Where the tokenizer decodes as the decoder relies on, and of any four first parts of the sequence in a row one
  -- is cut between characters: feeding the sequence token by token panics nowhere, and all the text handed out, with
  -- what `finish` hands out at the end, is the decode of the whole sequence, however the tokens cut its characters.
  pub streamed-decoded :
      (ids : List ℕ) → Whole t ids → streamed t neutral ids ≡ some (decoded t ids)
  streamed-decoded ids w =
      let (out, d, e, h) = feed-Handed [] ids new_decoder [] start-Frozen start-Handed w in
      let (o, d', f, g) = finish_lem ids d out h in rw (e, f, g) refl
