-- ===== src/IncrementalDecode.antt =====
-- src/common/incremental_decode.rs: the growing text of a token sequence, handed out in deltas. A text is the list of
-- its characters, as code points; positions in it count UTF-8 bytes, and a slice off a character's boundary is a
-- panic. The tokenizer is another crate's.
pub mod Text
pub mod Stream
pub mod Window
use oxydllm.Base.{
  ℕ, zero, suc, ◌+◌, ◌-◌, min, ◌≡◌, Bool, true, false, not, ◌&&◌, ◌||◌, List, [], ◌∷◌, ◌++◌, Option,
  none, some, ltb, leb, ◌==◌, if◌then◌else◌, ◌>>=◌, length, take, drop,
}

-- `decode` and `encode`, with `none` for an error.
pub record Tokenizer : Type 0 where
  pub decode : List ℕ → Option (List ℕ)
  pub encode : List ℕ → Option (List ℕ)

-- `char::len_utf8`.
unfoldable pub len_utf8 : ℕ → ℕ
len_utf8 c = if ltb c 0x80 then 1 else if ltb c 0x800 then 2 else if ltb c 0x10000 then 3 else 4

-- `str::len`.
unfoldable pub byte_len : List ℕ → ℕ
byte_len [] = 0
byte_len (c ∷ s) = len_utf8 c + byte_len s

unfoldable pub is_char_boundary : List ℕ → ℕ → Bool
unfolding len_utf8
is_char_boundary [] i = i == 0
is_char_boundary (c ∷ s) i = i == 0 || leb (len_utf8 c) i && is_char_boundary s (i - len_utf8 c)

-- `&s[i..]`.
unfoldable pub slice_from : List ℕ → ℕ → Option (List ℕ)
unfolding len_utf8
slice_from [] i = if i == 0 then some [] else none
slice_from (c ∷ s) i =
    let rest = slice_from s (i - len_utf8 c) in
    if i == 0 then some (c ∷ s) else if ltb i (len_utf8 c) then none else rest

abbrev pub replacement : ℕ
replacement = 0xfffd

unfoldable pub only_replacements : List ℕ → Bool
only_replacements [] = true
only_replacements (c ∷ s) = c == replacement && only_replacements s

-- `trim_end_matches('\u{FFFD}')`.
unfoldable pub trim_end : List ℕ → List ℕ
unfolding only_replacements
trim_end [] = []
trim_end (c ∷ s) = if only_replacements (c ∷ s) then [] else c ∷ trim_end s

-- `ends_with('\u{FFFD}')`.
unfoldable pub ends_with_replacement : List ℕ → Bool
ends_with_replacement [] = false
ends_with_replacement (c ∷ []) = c == replacement
ends_with_replacement (c ∷ d ∷ s) = ends_with_replacement (d ∷ s)

-- `strip_prefix`.
unfoldable pub strip_prefix : List ℕ → List ℕ → Option (List ℕ)
strip_prefix [] s = some s
strip_prefix (p ∷ prefix) [] = none
strip_prefix (p ∷ prefix) (c ∷ s) = if p == c then strip_prefix prefix s else none

-- The loop, from `i` down.
unfoldable pub clamp_down : List ℕ → ℕ → ℕ
unfolding is_char_boundary
clamp_down s zero = zero
clamp_down s (suc i) =
    let rest = clamp_down s i in if is_char_boundary s (suc i) then suc i else rest

unfoldable pub clamp_to_char_boundary : List ℕ → ℕ → ℕ
unfolding clamp_down byte_len
clamp_to_char_boundary s idx = clamp_down s (min idx (byte_len s))

-- The text to hand out, if any, and the new `decoded_len`.
unfoldable pub emitted : ℕ → List ℕ → Option (List ℕ) × ℕ
unfolding byte_len
emitted start [] = (none, start)
emitted start (c ∷ s) = (some (c ∷ s), start + byte_len (c ∷ s))

unfoldable pub emit_suffix : List ℕ → ℕ → Option (Option (List ℕ) × ℕ)
unfolding clamp_to_char_boundary slice_from trim_end emitted
emit_suffix full decoded_len = do
  let start = clamp_to_char_boundary full decoded_len
  new_text ← slice_from full start
  some (emitted start (trim_end new_text))

abbrev pub decode_stable_lookback : ℕ
decode_stable_lookback = 4

abbrev pub split_char_backoff : ℕ
split_char_backoff = 3

-- `decode(ids).unwrap_or_default()`.
unfoldable pub decoded : Tokenizer → List ℕ → List ℕ
decoded t ids = elim (t.decode ids) [ none ↦ [] | some text ↦ text ]

pub record NeutralPrefix : Type 0 where
  pub id : ℕ
  pub text : List ℕ

-- `encode("a")`, and its first token.
unfoldable pub first_or_one : Option (List ℕ) → ℕ
first_or_one (some (id ∷ ids)) = id
first_or_one _ = 1

unfoldable pub new_neutral : Tokenizer → NeutralPrefix
unfolding decoded first_or_one
new_neutral t =
    let id = first_or_one (t.encode (b'a' ∷ [])) in record { id = id; text = decoded t (id ∷ []) }

unfoldable pub decode_with_neutral_prefix : Tokenizer → List ℕ → NeutralPrefix → List ℕ
unfolding decoded strip_prefix
decode_with_neutral_prefix t [] neutral = []
decode_with_neutral_prefix t (id ∷ ids) neutral =
    elim (strip_prefix neutral.text (decoded t (neutral.id ∷ id ∷ ids))) [
      | some text ↦ text
      | none ↦ decoded t (id ∷ ids)
    ]

pub record IncrementalDecoder : Type 0 where
  pub decoded_len : ℕ
  pub stable_end : ℕ
  pub stable_text : List ℕ

unfoldable pub new_decoder : IncrementalDecoder
new_decoder = record { decoded_len = 0; stable_end = 0; stable_text = [] }

-- The text of the tokens from `stable_end` up to `end`.
unfoldable pub decode_delta : Tokenizer → NeutralPrefix → List ℕ → ℕ → ℕ → List ℕ
unfolding decoded decode_with_neutral_prefix
decode_delta t neutral all_ids stable_end end =
    if stable_end == 0
    then decoded t (take end all_ids)
    else decode_with_neutral_prefix t (drop stable_end (take end all_ids)) neutral

-- The loop that moves the boundary back: where it stops.
unfoldable pub back_off : (ℕ → List ℕ) → ℕ → ℕ → ℕ → ℕ
unfolding ends_with_replacement
back_off delta stable_end target zero = zero
back_off delta stable_end target (suc end) =
    let rest = back_off delta stable_end target end in
    if ends_with_replacement (delta (suc end))
      && ltb (stable_end + 1) (suc end)
      && ltb target (suc end + split_char_backoff)
    then rest
    else suc end

-- The frozen text grows by the tokens up to `end`.
unfoldable pub freeze : (ℕ → List ℕ) → ℕ → IncrementalDecoder → IncrementalDecoder
freeze delta end d = record d {
  stable_end = end;
  stable_text = if d.stable_end == 0 then delta end else d.stable_text ++ delta end;
}

unfoldable pub advance_stable_window :
    Tokenizer → List ℕ → NeutralPrefix → IncrementalDecoder → IncrementalDecoder
unfolding back_off decode_delta freeze
advance_stable_window t all_ids neutral d =
    let target = length all_ids - decode_stable_lookback in
    let delta = λ (end : ℕ). decode_delta t neutral all_ids d.stable_end end in
    let end = back_off delta d.stable_end target target in
    if leb target d.stable_end
    then d
    else if ends_with_replacement (delta end)
    then (if ltb target (end + split_char_backoff) then d else freeze delta target d)
    else freeze delta end d

-- The frozen text and the window's.
unfoldable pub joined : Tokenizer → List ℕ → NeutralPrefix → IncrementalDecoder → List ℕ
unfolding decoded decode_with_neutral_prefix
joined t all_ids neutral d =
    d.stable_text
    ++ (if d.stable_end == 0
        then decoded t (drop d.stable_end all_ids)
        else decode_with_neutral_prefix t (drop d.stable_end all_ids) neutral)

-- A slice past the end of the sequence is a panic.
unfoldable pub full_text : Tokenizer → List ℕ → NeutralPrefix → IncrementalDecoder → Option (List ℕ)
unfolding joined
full_text t all_ids neutral d =
    if ltb (length all_ids) d.stable_end then none else some (joined t all_ids neutral d)

unfoldable pub push :
    Tokenizer
    → List ℕ
    → NeutralPrefix
    → IncrementalDecoder
    → Option (Option (List ℕ) × IncrementalDecoder)
unfolding advance_stable_window full_text emit_suffix
push t all_ids neutral d = do
  let d' = advance_stable_window t all_ids neutral d
  full ← full_text t all_ids neutral d'
  r ← emit_suffix full d'.decoded_len
  some (r.0, record d' { decoded_len = r.1 })

unfoldable pub finish :
    Tokenizer → List ℕ → IncrementalDecoder → Option (Option (List ℕ) × IncrementalDecoder)
unfolding decoded clamp_to_char_boundary slice_from byte_len
finish t [] d = some (none, d)
finish t (id ∷ ids) d = do
  let full = decoded t (id ∷ ids)
  let start = clamp_to_char_boundary full d.decoded_len
  let d' = record d { decoded_len = byte_len full }
  rest ← slice_from full start
  some (if ltb start (byte_len full) then some rest else none, d')
