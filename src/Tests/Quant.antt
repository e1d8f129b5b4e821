-- ===== src/Tests/Quant.antt =====
-- src/common/kv_quant.rs: the theorems at indices that do not fill the last byte.
use oxydllm.Base.{ℕ, ◌≡◌, ◌%◌, refl, List, [], ◌∷◌, some, map}
use oxydllm.KvQuant.{pack_4bit, pack_2bit, unpack_4bit, unpack_2bit}
use oxydllm.KvQuant.Fields.{AllBelow, unpack-pack_4bit, unpack-pack_2bit}

unpack-pack_4bit_example :
    (packed : List ℕ) × (pack_4bit 3 (9 ∷ 15 ∷ 4 ∷ []) ≡ some packed)
    × (unpack_4bit 3 packed ≡ some (map (λ x. x % 16) (9 ∷ 15 ∷ 4 ∷ [])))
    × AllBelow 256 packed
unpack-pack_4bit_example = unpack-pack_4bit 3 (9 ∷ 15 ∷ 4 ∷ []) refl

unpack-pack_2bit_example :
    (packed : List ℕ) × (pack_2bit 5 (3 ∷ 0 ∷ 2 ∷ 1 ∷ 3 ∷ []) ≡ some packed)
    × (unpack_2bit 5 packed ≡ some (map (λ x. x % 4) (3 ∷ 0 ∷ 2 ∷ 1 ∷ 3 ∷ [])))
    × AllBelow 256 packed
unpack-pack_2bit_example = unpack-pack_2bit 5 (3 ∷ 0 ∷ 2 ∷ 1 ∷ 3 ∷ []) refl
