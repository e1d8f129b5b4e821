-- ===== src/IncrementalDecode/Window.antt =====
-- src/common/incremental_decode.rs: the window that is decoded again at each step stays short, and no slice panics.
use oxydllm.Base.{
  ℕ, zero, suc, ◌+◌, ◌-◌, ◌≤◌, ◌<◌, ◌≡◌, ◌⊎◌, refl, ap, ◌∙◌, inl, inr, true, false, ◌&&◌, List,
  Option, some, ltb, leb, length, arith, Bool-cases,
}
use oxydllm.IncrementalDecode.{
  Tokenizer, NeutralPrefix, IncrementalDecoder, ends_with_replacement, trim_end, emitted,
  emit_suffix, clamp_to_char_boundary, split_char_backoff, decode_stable_lookback, decode_delta,
  back_off, freeze, advance_stable_window, joined, full_text, push,
}
use oxydllm.IncrementalDecode.Text.{slice-clamp}

-- Where the boundary stops, `end`, on its way down from `from`: every later one would end in a replacement
-- character, and so does this one only where it can go no further.
pub record Stopped (delta : ℕ → List ℕ) (stable_end target from end : ℕ) : Type 0 where
  pub after : stable_end < end
  pub before : end ≤ from
  pub near : target ≤ end + split_char_backoff
  pub later : (j : ℕ) → end < j → j ≤ from → ends_with_replacement (delta j) ≡ true
  pub stuck :
      ends_with_replacement (delta end) ≡ true
      → (end ≡ stable_end + 1) ⊎ (end + split_char_backoff ≤ target)

pub back_off-Stopped :
    (delta : ℕ → List ℕ) (stable_end target from : ℕ)
    → stable_end < from
    → target ≤ from + split_char_backoff
    → Stopped delta stable_end target from (back_off delta stable_end target from)
unfolding back_off
back_off-Stopped delta stable_end target zero h near = absurd (omega arith)
back_off-Stopped delta stable_end target (suc n) h near =
    elim (Bool-cases (
      ends_with_replacement (delta (suc n))
      && ltb (stable_end + 1) (suc n)
      && ltb target (suc n + split_char_backoff))) [
        | inl on ↦
            let s =
              back_off-Stopped delta stable_end target n (ground (arith, on))
                (ground (arith, on)) in
            rw (back_off, on)
              (record {
                after = s.after;
                before = omega (arith, s.before);
                near = s.near;
                stuck = s.stuck;
                later = λ j lo hi. elim (Bool-cases (leb j n)) [
                  | inl within ↦ s.later j lo (ground (arith, within))
                  | inr top ↦
                      let same : j ≡ suc n = ground (arith, hi, top) in rw same (ground (arith, on))
                ];
              })
        | inr stop ↦
            rw (back_off, stop)
              (record {
                after = h;
                before = omega arith;
                near = near;
                later = λ j lo hi. absurd (omega arith);
                stuck = λ e. ground (arith, e, stop);
              })
      ]

module _ (t : Tokenizer) (ids : List ℕ) (neutral : NeutralPrefix) where
  abbrev pub delta_of : IncrementalDecoder → ℕ → List ℕ
  delta_of d end = decode_delta t neutral ids d.stable_end end

  abbrev pub target : ℕ
  target = length ids - decode_stable_lookback

  -- The three ways in which a step moves the frozen boundary.
  pub data Moved (d : IncrementalDecoder) : IncrementalDecoder → Type 0 where
    kept : length ids ≤ d.stable_end + decode_stable_lookback + split_char_backoff → Moved d d
    clean :
        (end : ℕ)
        → d.stable_end < end
        → end ≤ target
        → target ≤ end + split_char_backoff
        → ends_with_replacement (delta_of d end) ≡ false
        → Moved d (freeze (delta_of d) end d)
    forced :
        d.stable_end < target
        → ((j : ℕ)
            → target ≤ j + split_char_backoff
            → j ≤ target
            → ends_with_replacement (delta_of d j) ≡ true)
        → d.stable_end + split_char_backoff < target
        → Moved d (freeze (delta_of d) target d)

  wait_bound :
      (d : IncrementalDecoder) (end : ℕ)
      → (end ≡ d.stable_end + 1) ⊎ (end + split_char_backoff ≤ target)
      → target < end + split_char_backoff
      → length ids ≤ d.stable_end + decode_stable_lookback + split_char_backoff
  wait_bound d end (inl next) h = omega arith
  wait_bound d end (inr far) h = absurd (omega arith)

  pub advance-Moved : (d : IncrementalDecoder) → Moved d (advance_stable_window t ids neutral d)
  unfolding advance_stable_window
  advance-Moved d = elim (Bool-cases (leb target d.stable_end)) [
    | inl old ↦ rw (advance_stable_window, old) (kept (ground (arith, old)))
    | inr new ↦
        let s =
          back_off-Stopped (delta_of d) d.stable_end target target (ground (arith, new))
            (omega arith) in
        let end = back_off (delta_of d) d.stable_end target target in
        elim (Bool-cases (ends_with_replacement (delta_of d end))) [
          | inl broken ↦ elim (Bool-cases (ltb target (end + split_char_backoff))) [
            | inl wait ↦
                rw (advance_stable_window, new, broken, wait)
                  (kept (wait_bound d end (s.stuck broken) (ground (arith, wait))))
            | inr give_up ↦
                rw (advance_stable_window, new, broken, give_up)
                  (forced (ground (arith, new))
                    (λ j near top. elim (Bool-cases (ltb end j)) [
                      | inl past ↦ s.later j (ground (arith, past)) top
                      | inr here ↦
                          let same : j ≡ end = ground (arith, here, near, give_up) in
                          ap (λ k. ends_with_replacement (delta_of d k)) same ∙ broken
                    ])
                    (ground (arith, give_up, s.after)))
          ]
          | inr ok ↦ rw (advance_stable_window, new, ok) (clean end s.after s.before s.near ok)
        ]
  ]

  Moved-decoded_len : (d d' : IncrementalDecoder) → Moved d d' → d'.decoded_len ≡ d.decoded_len
  unfolding freeze
  Moved-decoded_len d d' (kept short) = refl
  Moved-decoded_len d d' (clean end after top near ok) = refl
  Moved-decoded_len d d' (forced new all room) = refl

  pub advance-decoded_len :
      (d : IncrementalDecoder) → (advance_stable_window t ids neutral d).decoded_len ≡ d.decoded_len
  advance-decoded_len d = Moved-decoded_len d _ (advance-Moved d)

  -- What a step leaves: the boundary in the sequence, not moved back, and a short window behind it.
  pub record Advanced (d d' : IncrementalDecoder) : Type 0 where
    pub forward : d.stable_end ≤ d'.stable_end
    pub within : d'.stable_end ≤ length ids
    pub short : length ids ≤ d'.stable_end + decode_stable_lookback + split_char_backoff

  Moved-Advanced :
      (d d' : IncrementalDecoder) → d.stable_end ≤ length ids → Moved d d' → Advanced d d'
  unfolding freeze
  Moved-Advanced d d' h (kept short) = record { forward = omega arith; within = h; short = short }
  Moved-Advanced d d' h (clean end after top near ok) = record {
    forward = omega arith;
    within = omega arith;
    short = omega arith;
  }
  Moved-Advanced d d' h (forced new all room) = record {
    forward = omega arith;
    within = omega arith;
    short = omega arith;
  }

  emit_suffix-some :
      (full : List ℕ) (decoded_len : ℕ)
      → (r : Option (List ℕ) × ℕ) × (emit_suffix full decoded_len ≡ some r)
  unfolding emit_suffix
  emit_suffix-some full n =
      let (rest, e) = slice-clamp full n in
      (emitted (clamp_to_char_boundary full n) (trim_end rest), rw e refl)

  pub full_text-joined :
      (d : IncrementalDecoder)
      → d.stable_end ≤ length ids
      → full_text t ids neutral d ≡ some (joined t ids neutral d)
  unfolding full_text
  full_text-joined d h =
      let fits : ltb (length ids) d.stable_end ≡ false = ground arith in rw (full_text, fits) refl

  -- Whatever the tokenizer decodes: where the frozen part lies in the sequence, a step panics at no slice, keeps it
  -- there, never moves it back, and leaves at most seven tokens behind it to decode again at the next step.
  pub push-Advanced :
      (d : IncrementalDecoder)
      → d.stable_end ≤ length ids
      → (out : Option (List ℕ)) × (d' : IncrementalDecoder) × (push t ids neutral d
          ≡ some (out, d'))
        × Advanced d d'
  unfolding push
  push-Advanced d h =
      let d' = advance_stable_window t ids neutral d in
      let a = Moved-Advanced d d' h (advance-Moved d) in
      let e = full_text-joined d' a.within in
      let (r, f) = emit_suffix-some (joined t ids neutral d') d'.decoded_len in
      (
        r.0,
        record d' { decoded_len = r.1 },
        rw (e, f) refl,
        record { forward = a.forward; within = a.within; short = a.short },
      )
