-- ===== src/Gguf/Write.antt =====
-- The GGUF format, for src/common/gguf_header.rs: the bytes of a header, and which headers it can state.
use oxydllm.Base.{ℕ, zero, suc, ◌≤◌, ◌<◌, ◌≡◌, Bool, true, false, List, [], ◌∷◌, ◌++◌, length}
use mathlib.Core.List.{reverse}
use oxydllm.Gguf.{
  VersionedMagic, gguf_v1, gguf_v2, gguf_v3, Value, u8_value, i8_value, u16_value, i16_value,
  u32_value, i32_value, f32_value, bool_value, string_value, array_value, u64_value, i64_value,
  f64_value, Values, no_values, more_values, TensorEntry, len_width, max_nesting, max_dims,
  gguf_magic,
}
use oxydllm.Gguf.Reads.{to_le_bytes, le_mod}

-- The number that the file has for a version.
abbrev pub version_number : VersionedMagic → ℕ
version_number gguf_v1 = 1
version_number gguf_v2 = 2
version_number gguf_v3 = 3

abbrev pub tag_of : Value → ℕ
tag_of (u8_value n) = 0
tag_of (i8_value n) = 1
tag_of (u16_value n) = 2
tag_of (i16_value n) = 3
tag_of (u32_value n) = 4
tag_of (i32_value n) = 5
tag_of (f32_value n) = 6
tag_of (bool_value b) = 7
tag_of (string_value s) = 8
tag_of (array_value vs) = 9
tag_of (u64_value n) = 10
tag_of (i64_value n) = 11
tag_of (f64_value n) = 12

-- The type of an array's items; an empty array says `u32`.
abbrev pub item_tag : Values → ℕ
item_tag no_values = 4
item_tag (more_values v vs) = tag_of v

abbrev pub count_values : Values → ℕ
count_values no_values = 0
count_values (more_values v vs) = suc (count_values vs)

abbrev pub bool_number : Bool → ℕ
bool_number true = 1
bool_number false = 0

abbrev pub write_len : VersionedMagic → ℕ → List ℕ
write_len g n = to_le_bytes (len_width g) n

abbrev pub write_string : VersionedMagic → List ℕ → List ℕ
write_string g s = write_len g (length s) ++ s

unfoldable mutual
  pub write_value : VersionedMagic → Value → List ℕ
  write_value g (u8_value n) = to_le_bytes 1 n
  write_value g (i8_value n) = to_le_bytes 1 n
  write_value g (u16_value n) = to_le_bytes 2 n
  write_value g (i16_value n) = to_le_bytes 2 n
  write_value g (u32_value n) = to_le_bytes 4 n
  write_value g (i32_value n) = to_le_bytes 4 n
  write_value g (f32_value n) = to_le_bytes 4 n
  write_value g (bool_value b) = to_le_bytes 1 (bool_number b)
  write_value g (string_value s) = write_string g s
  write_value g (array_value vs) =
      to_le_bytes 4 (item_tag vs) ++ (write_len g (count_values vs) ++ write_values g vs)
  write_value g (u64_value n) = to_le_bytes 8 n
  write_value g (i64_value n) = to_le_bytes 8 n
  write_value g (f64_value n) = to_le_bytes 8 n

  pub write_values : VersionedMagic → Values → List ℕ
  write_values g no_values = []
  write_values g (more_values v vs) = write_value g v ++ write_values g vs

abbrev pub write_all {ℓ} : {A : Type ℓ} → (A → List ℕ) → List A → List ℕ
write_all write [] = []
write_all write (x ∷ xs) = write x ++ write_all write xs

abbrev pub write_entry : VersionedMagic → List ℕ × Value → List ℕ
write_entry g e = write_string g e.0 ++ (to_le_bytes 4 (tag_of e.1) ++ write_value g e.1)

-- The dimensions stand the other way round in the file.
abbrev pub write_tensor : VersionedMagic → TensorEntry → List ℕ
write_tensor g t =
    write_string g t.name
    ++ (to_le_bytes 4 (length t.dims)
        ++ (write_all (write_len g) (reverse t.dims)
            ++ (to_le_bytes 4 t.type_id ++ to_le_bytes 8 t.offset)))

abbrev pub write_header : VersionedMagic → List (List ℕ × Value) → List TensorEntry → List ℕ
write_header g entries tensors =
    gguf_magic
    ++ (to_le_bytes 4 (version_number g)
        ++ (write_len g (length tensors)
            ++ (write_len g (length entries)
                ++ (write_all (write_entry g) entries ++ write_all (write_tensor g) tensors))))

abbrev pub All {ℓ} : {A : Type ℓ} → (A → Type 0) → List A → Type 0
All P [] = Unit
All P (x ∷ xs) = P x × All P xs

-- A length that the version can state.
abbrev pub FitsLen : VersionedMagic → ℕ → Type 0
FitsLen g n = n < le_mod (len_width g)

module _ (lossy : List ℕ → List ℕ) (g : VersionedMagic) where
  -- Text of a length that the version can state, which is UTF-8: the decoding leaves it alone.
  pub record TextOk (s : List ℕ) : Type 0 where
    pub fits : FitsLen g (length s)
    pub utf8 : lossy s ≡ s

  unfoldable mutual
    -- A value whose integers fit, whose arrays hold values of one type and nest no deeper than `levels`.
    pub ValueOk : ℕ → Value → Type 0
    ValueOk levels (u8_value n) = n < le_mod 1
    ValueOk levels (i8_value n) = n < le_mod 1
    ValueOk levels (u16_value n) = n < le_mod 2
    ValueOk levels (i16_value n) = n < le_mod 2
    ValueOk levels (u32_value n) = n < le_mod 4
    ValueOk levels (i32_value n) = n < le_mod 4
    ValueOk levels (f32_value n) = n < le_mod 4
    ValueOk levels (bool_value b) = Unit
    ValueOk levels (string_value s) = TextOk s
    ValueOk zero (array_value vs) = ⊥
    ValueOk (suc levels) (array_value vs) =
        FitsLen g (count_values vs) × ValuesOk levels (item_tag vs) vs
    ValueOk levels (u64_value n) = n < le_mod 8
    ValueOk levels (i64_value n) = n < le_mod 8
    ValueOk levels (f64_value n) = n < le_mod 8

    pub ValuesOk : ℕ → ℕ → Values → Type 0
    ValuesOk levels tag no_values = Unit
    ValuesOk levels tag (more_values v vs) =
        (tag_of v ≡ tag) × ValueOk levels v × ValuesOk levels tag vs

  pub record EntryOk (e : List ℕ × Value) : Type 0 where
    pub key : TextOk e.0
    pub value : ValueOk max_nesting e.1

  pub record TensorOk (t : TensorEntry) : Type 0 where
    pub name : TextOk t.name
    pub few : length t.dims ≤ max_dims
    pub dims : All (FitsLen g) (reverse t.dims)
    pub type_id : t.type_id < le_mod 4
    pub offset : t.offset < le_mod 8

  pub record HeaderOk (entries : List (List ℕ × Value)) (tensors : List TensorEntry) : Type 0 where
    pub n_entries : FitsLen g (length entries)
    pub n_tensors : FitsLen g (length tensors)
    pub entries_ok : All EntryOk entries
    pub tensors_ok : All TensorOk tensors
