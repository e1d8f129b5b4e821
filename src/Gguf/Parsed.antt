-- ===== src/Gguf/Parsed.antt =====
-- src/common/gguf_header.rs: the parsed header is the one that the file states.
use native.Mathlib.Nat.{mod-lt}
use native.Mathlib.Omega.{div_any}
use oxydllm.Base.{
  ℕ, ◌+◌, ◌*◌, ◌/◌, ◌%◌, ◌^◌, ◌≤◌, ◌<◌, ◌≡◌, ◌⊎◌, inl, inr, refl, sym, ap, ◌∙◌, subst, true, false,
  ltb, ◌==◌, if◌then◌else◌, List, [], ◌∷◌, ◌++◌, Option, none, some, length, arith, u64_mod,
  same_bytes, Bool-cases, Option-cases, ltb→lt,
}
use oxydllm.Paged.Cache.{div_ceil}
use oxydllm.Gguf.{
  ok, err, zero_alignment, VersionedMagic, Value, u8_value, i8_value, u16_value, i16_value,
  u32_value, i32_value, f32_value, bool_value, string_value, array_value, u64_value, i64_value,
  f64_value, TensorEntry, TensorInfo, GgufHeader, candle_dtype, insert, lookup, metadata_of,
  infos_of, alignment_key, alignment_in, header_of, parse,
}
use oxydllm.Gguf.Write.{write_header, HeaderOk}
use oxydllm.Gguf.Stated.{
  or_else, last_value, type_of, last_info, Aligned, absent, by_u8, by_u16, by_u32, by_i8, by_i16,
  by_i32, negative_i8, negative_i16, negative_i32, no_f32, no_bool, no_string, no_array, no_u64,
  no_i64, no_f64, States,
}
use oxydllm.Gguf.RoundTrip.{parse-header_of}

same_bytes-eq : (xs ys : List ℕ) → same_bytes xs ys ≡ true → xs ≡ ys
unfolding same_bytes
same_bytes-eq [] [] e = refl
same_bytes-eq [] (y ∷ ys) e = absurd cc
same_bytes-eq (x ∷ xs) [] e = absurd cc
same_bytes-eq (x ∷ xs) (y ∷ ys) e =
    let first : x ≡ y = ground (arith, e) in
    let rest : same_bytes xs ys ≡ true = ground (arith, e) in
    ap (λ k. k ∷ xs) first ∙ ap (λ l. y ∷ l) (same_bytes-eq xs ys rest)

abbrev entry_at {ℓ} : {V : Type ℓ} → List ℕ → List ℕ → V → Option V
entry_at key k v = if same_bytes k key then some v else none

or_else_assoc {ℓ} :
    {A : Type ℓ} (a b c : Option A) → or_else (or_else a b) c ≡ or_else a (or_else b c)
or_else_assoc none b c = refl
or_else_assoc (some x) b c = refl

other_name :
    (key k name : List ℕ)
    → same_bytes name k ≡ false
    → same_bytes name key ≡ true
    → same_bytes k key ≡ false
other_name key k name other hit = elim (Bool-cases (same_bytes k key)) [
  | inl same ↦
      let shifted : same_bytes name k ≡ same_bytes name key =
        ap (same_bytes name) (same_bytes-eq k key same) in
      absurd (cc (shifted, other, hit))
  | inr differs ↦ differs
]

lookup-insert :
    {V : Type 0} (key k : List ℕ) (v : V) (m : List (List ℕ × V))
    → lookup key (insert k v m) ≡ or_else (entry_at key k v) (lookup key m)
unfolding insert lookup
lookup-insert key k v [] = elim (Bool-cases (same_bytes k key)) [
  | inl e ↦ rw (lookup, e) refl
  | inr e ↦ rw (lookup, e) refl
]
lookup-insert key k v (e ∷ m) = elim (Bool-cases (same_bytes e.0 k)) [
  | inl here ↦
      let same : same_bytes e.0 key ≡ same_bytes k key =
        ap (λ l. same_bytes l key) (same_bytes-eq e.0 k here) in
      elim (Bool-cases (same_bytes k key)) [
        | inl hit ↦ rw (insert, lookup, here, hit) refl
        | inr miss ↦ rw (insert, lookup, here, miss, same, miss) refl
      ]
  | inr other ↦ elim (Bool-cases (same_bytes e.0 key)) [
    | inl hit ↦
        let differs : same_bytes k key ≡ false = other_name key k e.0 other hit in
        rw (insert, lookup, other, lookup, hit, differs) refl
    | inr miss ↦ rw (insert, lookup, other, lookup, miss) (lookup-insert key k v m)
  ]
]

infos_step : List (List ℕ × TensorInfo) → TensorEntry → List (List ℕ × TensorInfo)
infos_step m t = elim (candle_dtype t.type_id) [
  | none ↦ m
  | some d ↦ insert t.name (record { ggml_dtype = d; shape = t.dims; offset = t.offset }) m
]

lookup-metadata_of :
    (key : List ℕ) (entries m : List (List ℕ × Value))
    → lookup key (metadata_of entries m) ≡ or_else (last_value key entries) (lookup key m)
unfolding metadata_of
lookup-metadata_of key [] m = refl
lookup-metadata_of key (e ∷ entries) m =
    lookup-metadata_of key entries (insert e.0 e.1 m)
    ∙ ap (or_else (last_value key entries)) (lookup-insert key e.0 e.1 m)
    ∙ sym (or_else_assoc (last_value key entries) (entry_at key e.0 e.1) (lookup key m))

candle_dtype-type_of : (n : ℕ) → candle_dtype n ≡ type_of n
unfolding candle_dtype
candle_dtype-type_of n = refl

lookup-infos_of :
    (name : List ℕ) (tensors : List TensorEntry) (m : List (List ℕ × TensorInfo))
    → lookup name (infos_of tensors m) ≡ or_else (last_info name tensors) (lookup name m)
unfolding infos_of
lookup-infos_of name [] m = refl
lookup-infos_of name (t ∷ tensors) m = elim (Option-cases (type_of t.type_id)) [
  | inl unknown ↦
      let code : candle_dtype t.type_id ≡ none = candle_dtype-type_of t.type_id ∙ unknown in
      rw (infos_of, code)
        (lookup-infos_of name tensors m
          ∙ sym (or_else_assoc (last_info name tensors) none (lookup name m)))
  | inr (d, known) ↦
      let code : candle_dtype t.type_id ≡ some d = candle_dtype-type_of t.type_id ∙ known in
      let info : TensorInfo = record { ggml_dtype = d; shape = t.dims; offset = t.offset } in
      rw (infos_of, code)
        (lookup-infos_of name tensors (insert t.name info m)
          ∙ ap (or_else (last_info name tensors)) (lookup-insert name t.name info m)
          ∙ sym
              (or_else_assoc (last_info name tensors) (entry_at name t.name info) (lookup name m)))
]

alignment_in-Aligned : (o : Option Value) → Aligned o (alignment_in o)
unfolding alignment_in
alignment_in-Aligned none = absent
alignment_in-Aligned (some (u8_value n)) = by_u8 n
alignment_in-Aligned (some (u16_value n)) = by_u16 n
alignment_in-Aligned (some (u32_value n)) = by_u32 n
alignment_in-Aligned (some (i8_value n)) = elim (Bool-cases (ltb n (2 ^ 7))) [
  | inl e ↦ rw e (by_i8 n (ltb→lt _ _ e))
  | inr e ↦ rw e (negative_i8 n (ground (arith, e)))
]
alignment_in-Aligned (some (i16_value n)) = elim (Bool-cases (ltb n (2 ^ 15))) [
  | inl e ↦ rw e (by_i16 n (ltb→lt _ _ e))
  | inr e ↦ rw e (negative_i16 n (ground (arith, e)))
]
alignment_in-Aligned (some (i32_value n)) = elim (Bool-cases (ltb n (2 ^ 31))) [
  | inl e ↦ rw e (by_i32 n (ltb→lt _ _ e))
  | inr e ↦ rw e (negative_i32 n (ground (arith, e)))
]
alignment_in-Aligned (some (f32_value n)) = no_f32 n
alignment_in-Aligned (some (bool_value b)) = no_bool b
alignment_in-Aligned (some (string_value s)) = no_string s
alignment_in-Aligned (some (array_value vs)) = no_array vs
alignment_in-Aligned (some (u64_value n)) = no_u64 n
alignment_in-Aligned (some (i64_value n)) = no_i64 n
alignment_in-Aligned (some (f64_value n)) = no_f64 n

-- The next multiple.
div_ceil_lem : (n a : ℕ) → 0 < a → (n ≤ div_ceil n a * a) × (div_ceil n a * a < n + a)
unfolding div_ceil
div_ceil_lem n a pos = elim (Bool-cases (n % a == 0)) [
  | inl e ↦
      let even : n % a ≡ 0 = ground (arith, e) in
      rw (div_ceil, e)
        (omega (arith, even, div_any n a, pos), omega (arith, even, div_any n a, pos))
  | inr e ↦
      let odd : 0 < n % a = ground (arith, e) in
      let next : (n / a + 1) * a ≡ a * (n / a) + a = omega arith in
      rw (div_ceil, e)
        (omega (arith, next, div_any n a, mod-lt n pos), omega (arith, next, div_any n a, odd))
]

or_else-none {ℓ} : {A : Type ℓ} (o : Option A) → or_else o none ≡ o
or_else-none none = refl
or_else-none (some a) = refl

-- What the code's own header is.
header_of_lem :
    (g : VersionedMagic) (n : ℕ) (entries : List (List ℕ × Value)) (tensors : List TensorEntry)
    → (a : ℕ) × Aligned (last_value alignment_key entries) a
      × (((a ≡ 0) × (header_of g n entries tensors ≡ err zero_alignment))
          ⊎ ((0 < a)
              × (header : GgufHeader) × (header_of g n entries tensors ≡ ok header)
              × States g n a entries tensors header))
unfolding header_of lookup
header_of_lem g n entries tensors =
    let stated : lookup alignment_key (metadata_of entries []) ≡ last_value alignment_key entries =
      lookup-metadata_of alignment_key entries []
      ∙ or_else-none (last_value alignment_key entries) in
    let a : ℕ = alignment_in (lookup alignment_key (metadata_of entries [])) in
    (
      a,
      subst (λ o. Aligned o a) stated
          (alignment_in-Aligned (lookup alignment_key (metadata_of entries []))),
      elim (Bool-cases (a == 0)) [
        | inl zero ↦ inl (ground (arith, zero), rw (header_of, zero) refl)
        | inr some_bytes ↦
            let pos : 0 < a = ground (arith, some_bytes) in
            inr (
              pos,
              _,
              rw (header_of, some_bytes) refl,
              record {
                magic = refl;
                table = refl;
                metadata = λ key.
                    lookup-metadata_of key entries [] ∙ or_else-none (last_value key entries);
                infos =
                    λ name. lookup-infos_of name tensors [] ∙ or_else-none (last_info name tensors);
                blocks = div_ceil n a;
                aligned = refl;
                behind = (div_ceil_lem n a pos).0;
                next = (div_ceil_lem n a pos).1;
              },
            )
      ],
    )

module _ (lossy : List ℕ → List ℕ) where
  -- A header that a GGUF file can state, written in the format and followed by any weights (in all less than 2^64 bytes): with
  -- the alignment that its last entry `general.alignment` states, or 32, parsing fails if it is 0 and else gives the header of
  -- that version with those tensors, the last value of each metadata name, for each tensor name the last tensor whose type
  -- number candle has a type for, and the weights at the first multiple of the alignment behind the written bytes.
  pub parse-write_header :
      (g : VersionedMagic) (entries : List (List ℕ × Value)) (tensors : List TensorEntry)
      (weights : List ℕ)
      → HeaderOk lossy g entries tensors
      → length (write_header g entries tensors ++ weights) < u64_mod
      → (a : ℕ) × Aligned (last_value alignment_key entries) a
        × (((a ≡ 0)
              × (parse lossy (write_header g entries tensors ++ weights) ≡ err zero_alignment))
            ⊎ ((0 < a)
                × (header : GgufHeader) × (parse lossy (write_header g entries tensors ++ weights)
                    ≡ ok header)
                × States g (length (write_header g entries tensors)) a entries tensors header))
  parse-write_header g entries tensors weights h fits =
      let read = parse-header_of lossy g entries tensors weights h fits in
      let (a, aligned, result) =
        header_of_lem g (length (write_header g entries tensors)) entries tensors in
      (
        a,
        aligned,
        elim result [
          | inl (zero, e) ↦ inl (zero, read ∙ e)
          | inr (pos, header, e, states) ↦ inr (pos, header, read ∙ e, states)
        ],
      )
