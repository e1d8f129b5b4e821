-- ===== src/Gguf/Stated.antt =====
-- src/common/gguf_header.rs: what the format says that a header states: the last entry of a name counts, the alignment, and the
-- numbers of the types.
use oxydllm.Base.{
  ℕ, ◌+◌, ◌*◌, ◌^◌, ◌≤◌, ◌<◌, ◌≡◌, ◌==◌, if◌then◌else◌, Bool, List, [], ◌∷◌, Option, none, some,
  same_bytes,
}
use oxydllm.Gguf.{
  VersionedMagic, Value, u8_value, i8_value, u16_value, i16_value, u32_value, i32_value, f32_value,
  bool_value, string_value, array_value, u64_value, i64_value, f64_value, Values, TensorEntry,
  GgmlDType, f32, f16, bf16, q4_0, q4_1, q5_0, q5_1, q8_0, q8_1, q2k, q3k, q4k, q5k, q6k, q8k,
  TensorInfo, GgufHeader, lookup,
}

-- The first of two that is there.
abbrev pub or_else {ℓ} : {A : Type ℓ} → Option A → Option A → Option A
or_else none o = o
or_else (some a) o = some a

-- The value of the last entry of that name.
abbrev pub last_value {ℓ} : {V : Type ℓ} → List ℕ → List (List ℕ × V) → Option V
last_value key [] = none
last_value key (e ∷ entries) =
    or_else (last_value key entries) (if same_bytes e.0 key then some e.1 else none)

-- The number of a type in the format.
abbrev pub number_of_type : GgmlDType → ℕ
number_of_type f32 = 0
number_of_type f16 = 1
number_of_type bf16 = 30
number_of_type q4_0 = 2
number_of_type q4_1 = 3
number_of_type q5_0 = 6
number_of_type q5_1 = 7
number_of_type q8_0 = 8
number_of_type q8_1 = 9
number_of_type q2k = 10
number_of_type q3k = 11
number_of_type q4k = 12
number_of_type q5k = 13
number_of_type q6k = 14
number_of_type q8k = 15

abbrev numbered : ℕ → List GgmlDType → Option GgmlDType
numbered n [] = none
numbered n (d ∷ types) = if n == number_of_type d then some d else numbered n types

-- The type of a number, where candle has one.
abbrev pub type_of : ℕ → Option GgmlDType
type_of n = numbered n (
    f32 ∷ f16 ∷ q4_0 ∷ q4_1 ∷ q5_0 ∷ q5_1 ∷ q8_0 ∷ q8_1 ∷ q2k ∷ q3k ∷ q4k ∷ q5k ∷ q6k ∷ q8k ∷ bf16
    ∷ [])

-- What is known of the last tensor of that name whose type candle has.
abbrev pub last_info : List ℕ → List TensorEntry → Option TensorInfo
last_info name [] = none
last_info name (t ∷ tensors) = or_else (last_info name tensors) (elim (type_of t.type_id) [
  | none ↦ none
  | some d ↦
      if same_bytes t.name name
      then some (record { ggml_dtype = d; shape = t.dims; offset = t.offset })
      else none
])

-- The alignment that an entry states: an integer of up to 32 bits that is not negative; else it is 32.
pub data Aligned : Option Value → ℕ → Type 0 where
  absent : Aligned none 32
  by_u8 : (n : ℕ) → Aligned (some (u8_value n)) n
  by_u16 : (n : ℕ) → Aligned (some (u16_value n)) n
  by_u32 : (n : ℕ) → Aligned (some (u32_value n)) n
  by_i8 : (n : ℕ) → n < 2 ^ 7 → Aligned (some (i8_value n)) n
  by_i16 : (n : ℕ) → n < 2 ^ 15 → Aligned (some (i16_value n)) n
  by_i32 : (n : ℕ) → n < 2 ^ 31 → Aligned (some (i32_value n)) n
  negative_i8 : (n : ℕ) → 2 ^ 7 ≤ n → Aligned (some (i8_value n)) 32
  negative_i16 : (n : ℕ) → 2 ^ 15 ≤ n → Aligned (some (i16_value n)) 32
  negative_i32 : (n : ℕ) → 2 ^ 31 ≤ n → Aligned (some (i32_value n)) 32
  no_f32 : (n : ℕ) → Aligned (some (f32_value n)) 32
  no_bool : (b : Bool) → Aligned (some (bool_value b)) 32
  no_string : (s : List ℕ) → Aligned (some (string_value s)) 32
  no_array : (vs : Values) → Aligned (some (array_value vs)) 32
  no_u64 : (n : ℕ) → Aligned (some (u64_value n)) 32
  no_i64 : (n : ℕ) → Aligned (some (i64_value n)) 32
  no_f64 : (n : ℕ) → Aligned (some (f64_value n)) 32

-- `header` is the header of these entries and tensors, in `n` bytes, with the weights at the next multiple of `alignment`.
pub record States (g : VersionedMagic) (n alignment : ℕ) (entries : List (List ℕ × Value))
    (tensors : List TensorEntry) (header : GgufHeader) : Type 0 where
  pub magic : header.content.magic ≡ g
  pub table : header.tensors ≡ tensors
  pub metadata : (key : List ℕ) → lookup key header.content.metadata ≡ last_value key entries
  pub infos : (name : List ℕ) → lookup name header.content.tensor_infos ≡ last_info name tensors
  pub blocks : ℕ
  pub aligned : header.content.tensor_data_offset ≡ blocks * alignment
  pub behind : n ≤ header.content.tensor_data_offset
  pub next : header.content.tensor_data_offset < n + alignment
