-- ===== src/KvQuant.antt =====
-- src/common/kv_quant.rs: how quantized indices are packed into bytes, two fields of four bits or four fields of two
-- bits to a byte. Fields do not overlap, so the `|` of shifted fields is their sum. A missing index or byte is a panic.
pub mod Fields
use oxydllm.Base.{
  ℕ, zero, suc, ◌+◌, ◌-◌, ◌*◌, ◌/◌, ◌%◌, List, [], ◌∷◌, ◌++◌, Option, none, some, ◌>>=◌,
}

-- A byte of `fields` indices at most, the first in the lowest bits, and the indices after it; `n` indices are left,
-- and a field has `base` values.
unfoldable pub gather : ℕ → ℕ → ℕ → List ℕ → Option (ℕ × List ℕ)
gather base zero n xs = some (0, xs)
gather base (suc fields) zero xs = some (0, xs)
gather base (suc fields) (suc n) [] = none
gather base (suc fields) (suc n) (x ∷ xs) = do
  r ← gather base fields n xs
  some (x % base + base * r.0, r.1)

-- The loop over the bytes, as long as indices are left.
unfoldable pub pack_fields : ℕ → ℕ → ℕ → ℕ → List ℕ → Option (List ℕ)
unfolding gather
pack_fields fuel base fields zero xs = some []
pack_fields zero base fields (suc n) xs = none
pack_fields (suc fuel) base fields (suc n) xs = do
  r ← gather base fields (suc n) xs
  bytes ← pack_fields fuel base fields (suc n - fields) r.1
  some (r.0 ∷ bytes)

-- The fields of a byte, of which `n` at most are wanted.
unfoldable pub scatter : ℕ → ℕ → ℕ → ℕ → List ℕ
scatter base zero n byte = []
scatter base (suc fields) zero byte = []
scatter base (suc fields) (suc n) byte = byte % base ∷ scatter base fields n (byte / base)

unfoldable pub unpack_fields : ℕ → ℕ → ℕ → List ℕ → Option (List ℕ)
unfolding scatter
unpack_fields base fields zero packed = some []
unpack_fields base fields (suc n) [] = none
unpack_fields base fields (suc n) (byte ∷ packed) = do
  rest ← unpack_fields base fields (suc n - fields) packed
  some (scatter base fields (suc n) byte ++ rest)

-- `head_dim` is `n`.
unfoldable pub pack_4bit : ℕ → List ℕ → Option (List ℕ)
unfolding pack_fields
pack_4bit n indices = pack_fields n 16 2 n indices

unfoldable pub pack_2bit : ℕ → List ℕ → Option (List ℕ)
unfolding pack_fields
pack_2bit n indices = pack_fields n 4 4 n indices

unfoldable pub unpack_4bit : ℕ → List ℕ → Option (List ℕ)
unfolding unpack_fields
unpack_4bit n packed = unpack_fields 16 2 n packed

unfoldable pub unpack_2bit : ℕ → List ℕ → Option (List ℕ)
unfolding unpack_fields
unpack_2bit n packed = unpack_fields 4 4 n packed
