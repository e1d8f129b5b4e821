-- ===== src/KvQuant/Fields.antt =====
-- src/common/kv_quant.rs: what is packed is read back.
use native.Mathlib.Nat.{mul-le-mul_left, one-le-mul}
use oxydllm.Base.{
  ℕ, zero, suc, ◌+◌, ◌-◌, ◌*◌, ◌/◌, ◌%◌, ◌≤◌, ◌<◌, ◌≡◌, refl, ap, List, [], ◌∷◌, ◌++◌, some, map,
  length, arith,
}
use oxydllm.KvQuant.{
  gather, pack_fields, scatter, unpack_fields, pack_4bit, pack_2bit, unpack_4bit, unpack_2bit,
}

-- The values of a byte of so many fields.
abbrev values : ℕ → ℕ → ℕ
values base zero = 1
values base (suc fields) = base * values base fields

-- All bytes are below `most`.
abbrev pub AllBelow : ℕ → List ℕ → Type 0
AllBelow most [] = Unit
AllBelow most (b ∷ bytes) = (b < most) × AllBelow most bytes

module _ (base : ℕ) (pos : 0 < base) (low : (x r : ℕ) → (x % base + base * r) % base ≡ x % base)
    (high : (x r : ℕ) → (x % base + base * r) / base ≡ r) (small : (x : ℕ) → x % base < base) where
  abbrev cut : List ℕ → List ℕ
  cut xs = map (λ x. x % base) xs

  values_pos : (fields : ℕ) → 0 < values base fields
  values_pos zero = omega arith
  values_pos (suc fields) = one-le-mul pos (values_pos fields)

  grows : (r : ℕ) → base * suc r ≡ base + base * r
  grows r = omega arith

  -- A byte was packed from the first indices, and `rest` is left.
  record Gathered (fields n : ℕ) (xs : List ℕ) (byte : ℕ) (rest : List ℕ) : Type 0 where
    packs : gather base fields n xs ≡ some (byte, rest)
    left : length rest ≡ n - fields
    fits : byte < values base fields
    reads : scatter base fields n byte ++ cut rest ≡ cut xs

  gather-Gathered :
      (fields n : ℕ) (xs : List ℕ)
      → length xs ≡ n
      → (byte : ℕ) × (rest : List ℕ) × Gathered fields n xs byte rest
  unfolding gather scatter
  gather-Gathered zero n xs e =
      (0, xs, record { packs = refl; left = omega arith; fits = omega arith; reads = refl })
  gather-Gathered (suc fields) zero xs e = (
    0,
    xs,
    record { packs = refl; left = omega arith; fits = values_pos (suc fields); reads = refl },
  )
  gather-Gathered (suc fields) (suc n) [] e = absurd (omega arith)
  gather-Gathered (suc fields) (suc n) (x ∷ xs) e =
      let (byte, rest, g) = gather-Gathered fields n xs (omega arith) in
      (
        x % base + base * byte,
        rest,
        record {
          packs = rw g.packs refl;
          left = omega (arith, g.left);
          fits = omega (arith, small x, mul-le-mul_left base g.fits, grows byte);
          reads = rw (low x byte, high x byte) (ap (λ l. (x % base) ∷ l) g.reads);
        },
      )

  -- Enough fuel packs all indices, and they are read back.
  pack_fields-Read :
      (fuel fields n : ℕ) (xs : List ℕ)
      → 0 < fields
      → n ≤ fuel
      → length xs ≡ n
      → (bytes : List ℕ) × (pack_fields fuel base fields n xs ≡ some bytes)
        × (unpack_fields base fields n bytes ≡ some (cut xs))
        × AllBelow (values base fields) bytes
  unfolding pack_fields unpack_fields
  pack_fields-Read fuel fields zero [] some_field enough e = ([], refl, refl, tt)
  pack_fields-Read fuel fields zero (x ∷ xs) some_field enough e = absurd (omega arith)
  pack_fields-Read zero fields (suc n) xs some_field enough e = absurd (omega arith)
  pack_fields-Read (suc fuel) fields (suc n) xs some_field enough e =
      let (byte, rest, g) = gather-Gathered fields (suc n) xs e in
      let (bytes, packs, reads, fits) =
        pack_fields-Read fuel fields (suc n - fields) rest some_field (omega arith) g.left in
      (byte ∷ bytes, rw (g.packs, packs) refl, rw (reads, g.reads) refl, (g.fits, fits))

-- Packing four bits an index cannot panic on `n` indices: it gives bytes, from which unpacking reads back the low
-- four bits of every index.
pub unpack-pack_4bit :
    (n : ℕ) (indices : List ℕ)
    → length indices ≡ n
    → (packed : List ℕ) × (pack_4bit n indices ≡ some packed)
      × (unpack_4bit n packed ≡ some (map (λ x. x % 16) indices))
      × AllBelow 256 packed
unfolding pack_4bit unpack_4bit
unpack-pack_4bit n indices e =
    pack_fields-Read 16 (omega arith) (λ x r. omega arith) (λ x r. omega arith) (λ x. omega arith) n
      2 n indices (omega arith) (omega arith) e

-- Packing two bits an index cannot panic on `n` indices: it gives bytes, from which unpacking reads back the low
-- two bits of every index.
pub unpack-pack_2bit :
    (n : ℕ) (indices : List ℕ)
    → length indices ≡ n
    → (packed : List ℕ) × (pack_2bit n indices ≡ some packed)
      × (unpack_2bit n packed ≡ some (map (λ x. x % 4) indices))
      × AllBelow 256 packed
unfolding pack_2bit unpack_2bit
unpack-pack_2bit n indices e =
    pack_fields-Read 4 (omega arith) (λ x r. omega arith) (λ x r. omega arith) (λ x. omega arith) n
      4 n indices (omega arith) (omega arith) e
