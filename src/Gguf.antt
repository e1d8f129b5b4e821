-- ===== src/Gguf.antt =====
-- src/common/gguf_header.rs: the GGUF header, read from the file's bytes. Integers are their bits, a float is its bits,
-- and text is what `lossy` (`String::from_utf8_lossy`) makes of its bytes. candle's types are written out.
pub mod Reads
pub mod Write
pub mod Nested
pub mod RoundTrip
pub mod Stated
pub mod Parsed
use oxydllm.Base.{
  ℕ, zero, suc, ◌+◌, ◌-◌, ◌*◌, ◌^◌, ◌≡◌, Bool, true, false, not, ◌&&◌, ◌||◌, List, [], ◌∷◌, ◌++◌,
  Option, none, some, ltb, leb, ◌==◌, if◌then◌else◌, length, take, drop, u64_mod, same_bytes,
}
use mathlib.Core.List.{reverse}
use oxydllm.Paged.Cache.{div_ceil}

pub data HeaderError : Type 0 where
  header_ends : ℕ → ℕ → HeaderError
  not_gguf : HeaderError
  unknown_version : ℕ → HeaderError
  too_deep : HeaderError
  not_a_type : ℕ → HeaderError
  metadata_error : List ℕ → HeaderError → HeaderError
  many_dims : List ℕ → ℕ → HeaderError
  zero_alignment : HeaderError

pub data Result {ℓ} (A : Type ℓ) : Type ℓ where
  ok : A → Result A
  err : HeaderError → Result A

pub data VersionedMagic : Type 0 where
  gguf_v1 gguf_v2 gguf_v3 : VersionedMagic

mutual
  pub data Value : Type 0 where
    u8_value i8_value u16_value i16_value u32_value i32_value f32_value : ℕ → Value
    bool_value : Bool → Value
    string_value : List ℕ → Value
    array_value : Values → Value
    u64_value i64_value f64_value : ℕ → Value

  pub data Values : Type 0 where
    no_values : Values
    more_values : Value → Values → Values

pub record TensorEntry : Type 0 where
  pub name : List ℕ
  pub type_id : ℕ
  pub dims : List ℕ
  pub offset : ℕ

pub data GgmlDType : Type 0 where
  f32 f16 bf16 q4_0 q4_1 q5_0 q5_1 q8_0 q8_1 q2k q3k q4k q5k q6k q8k : GgmlDType

pub record TensorInfo : Type 0 where
  pub ggml_dtype : GgmlDType
  pub shape : List ℕ
  pub offset : ℕ

pub record Content : Type 0 where
  pub magic : VersionedMagic
  pub metadata : List (List ℕ × Value)
  pub tensor_infos : List (List ℕ × TensorInfo)
  pub tensor_data_offset : ℕ

pub record GgufHeader : Type 0 where
  pub content : Content
  pub tensors : List TensorEntry

unfoldable pub candle_dtype : ℕ → Option GgmlDType
candle_dtype type_id =
    if type_id == 0
    then some f32
    else if type_id == 1
    then some f16
    else if type_id == 2
    then some q4_0
    else if type_id == 3
    then some q4_1
    else if type_id == 6
    then some q5_0
    else if type_id == 7
    then some q5_1
    else if type_id == 8
    then some q8_0
    else if type_id == 9
    then some q8_1
    else if type_id == 10
    then some q2k
    else if type_id == 11
    then some q3k
    else if type_id == 12
    then some q4k
    else if type_id == 13
    then some q5k
    else if type_id == 14
    then some q6k
    else if type_id == 15
    then some q8k
    else if type_id == 30
    then some bf16
    else none

abbrev pub default_alignment : ℕ
default_alignment = 32

abbrev pub max_dims : ℕ
max_dims = 4

abbrev pub max_nesting : ℕ
max_nesting = 64

pub record Cursor : Type 0 where
  pub b : List ℕ
  pub i : ℕ
  pub magic : VersionedMagic

-- A step of the reading: its value and the cursor behind it.
abbrev pub Reader {ℓ} : Type ℓ → Type ℓ
Reader A = Cursor → Result (A × Cursor)

abbrev pub pure {ℓ} : {A : Type ℓ} → A → Reader A
pure a c = ok (a, c)

abbrev pub fail {ℓ} : {A : Type ℓ} → HeaderError → Reader A
fail e c = err e

infixl 5 ◌>>=◌
abbrev pub ◌>>=◌ {ℓ κ} : {A : Type ℓ} {B : Type κ} → Reader A → (A → Reader B) → Reader B
◌>>=◌ m f c = elim (m c) [ err e ↦ err e | ok (a, c') ↦ f a c' ]

-- `map_err`.
abbrev pub map_err {ℓ} : {A : Type ℓ} → (HeaderError → HeaderError) → Reader A → Reader A
map_err f m c = elim (m c) [ err e ↦ err (f e) | ok r ↦ ok r ]

-- `Cursor::take`.
unfoldable pub take_bytes : ℕ → Reader (List ℕ)
take_bytes n c =
    if ltb (c.i + n) u64_mod && leb (c.i + n) (length c.b)
    then ok (take n (drop c.i c.b), record c { i = c.i + n })
    else err (header_ends c.i (length c.b))

-- `from_le_bytes`.
unfoldable pub from_le_bytes : List ℕ → ℕ
from_le_bytes [] = 0
from_le_bytes (b ∷ bytes) = b + 256 * from_le_bytes bytes

-- The integers of 1, 2, 4 and 8 bytes.
unfoldable pub read_le : ℕ → Reader ℕ
read_le width = do bytes ← take_bytes width; pure (from_le_bytes bytes)

abbrev pub len_width : VersionedMagic → ℕ
len_width gguf_v1 = 4
len_width gguf_v2 = 8
len_width gguf_v3 = 8

-- `Cursor::len`; a `usize` has 64 bits.
unfoldable pub read_len : Reader ℕ
read_len c = read_le (len_width c.magic) c

-- The loop over an array's items.
unfoldable pub read_items : Reader Value → ℕ → Reader Values
read_items read zero = pure no_values
read_items read (suc n) = do v ← read; vs ← read_items read n; pure (more_values v vs)

-- The loop over so many things.
unfoldable pub repeat {ℓ} : {A : Type ℓ} → ℕ → Reader A → Reader (List A)
repeat zero m = pure []
repeat (suc n) m = do a ← m; rest ← repeat n m; pure (a ∷ rest)

module _ (lossy : List ℕ → List ℕ) where
  unfoldable pub read_string : Reader (List ℕ)
  read_string = do n ← read_len; bytes ← take_bytes n; pure (lossy bytes)

  -- The values that are no arrays.
  unfoldable pub read_scalar : ℕ → Reader Value
  read_scalar tag =
      if tag == 0
      then (do n ← read_le 1; pure (u8_value n))
      else if tag == 1
      then (do n ← read_le 1; pure (i8_value n))
      else if tag == 2
      then (do n ← read_le 2; pure (u16_value n))
      else if tag == 3
      then (do n ← read_le 2; pure (i16_value n))
      else if tag == 4
      then (do n ← read_le 4; pure (u32_value n))
      else if tag == 5
      then (do n ← read_le 4; pure (i32_value n))
      else if tag == 6
      then (do n ← read_le 4; pure (f32_value n))
      else if tag == 7
      then (do n ← read_le 1; pure (bool_value (not (n == 0))))
      else if tag == 8
      then (do s ← read_string; pure (string_value s))
      else if tag == 10
      then (do n ← read_le 8; pure (u64_value n))
      else if tag == 11
      then (do n ← read_le 8; pure (i64_value n))
      else if tag == 12
      then (do n ← read_le 8; pure (f64_value n))
      else fail (not_a_type tag)

  -- `Cursor::value`, on the levels of nesting that are left.
  unfoldable pub read_value : ℕ → ℕ → Reader Value
  read_value zero tag = if tag == 9 then fail too_deep else read_scalar tag
  read_value (suc levels) tag =
      let array : Reader Value = (do
        elem_tag ← read_le 4
        n ← read_len
        vs ← read_items (λ c. read_value levels elem_tag c) n
        pure (array_value vs)) in
      if tag == 9 then array else read_scalar tag

  unfoldable pub read_entry : Reader (List ℕ × Value)
  read_entry = do
    key ← read_string
    tag ← read_le 4
    v ← map_err (metadata_error key) (read_value max_nesting tag)
    pure (key, v)

  unfoldable pub read_tensor : Reader TensorEntry
  read_tensor = do
    name ← read_string
    n_dims ← read_le 4
    if ltb max_dims n_dims then fail (many_dims name n_dims) else (do
      dims ← repeat n_dims read_len
      type_id ← read_le 4
      offset ← read_le 8
      pure (record { name = name; type_id = type_id; dims = reverse dims; offset = offset }))

-- `HashMap::insert`.
unfoldable pub insert {ℓ} : {V : Type ℓ} → List ℕ → V → List (List ℕ × V) → List (List ℕ × V)
unfolding same_bytes
insert key v [] = (key, v) ∷ []
insert key v (e ∷ m) = if same_bytes e.0 key then (key, v) ∷ m else e ∷ insert key v m

-- `HashMap::get`.
unfoldable pub lookup {ℓ} : {V : Type ℓ} → List ℕ → List (List ℕ × V) → Option V
unfolding same_bytes
lookup key [] = none
lookup key (e ∷ m) = if same_bytes e.0 key then some e.1 else lookup key m

-- The entries are inserted in the file's order.
unfoldable pub metadata_of : List (List ℕ × Value) → List (List ℕ × Value) → List (List ℕ × Value)
unfolding insert
metadata_of [] m = m
metadata_of (e ∷ entries) m = metadata_of entries (insert e.0 e.1 m)

-- The tensors that candle has a type for.
unfoldable pub infos_of : List TensorEntry → List (List ℕ × TensorInfo) → List (List ℕ × TensorInfo)
unfolding insert candle_dtype
infos_of [] m = m
infos_of (t ∷ tensors) m = infos_of tensors (elim (candle_dtype t.type_id) [
  | none ↦ m
  | some d ↦ insert t.name (record { ggml_dtype = d; shape = t.dims; offset = t.offset }) m
])

abbrev pub alignment_key : List ℕ
alignment_key =
    b'g' ∷ b'e' ∷ b'n' ∷ b'e' ∷ b'r' ∷ b'a' ∷ b'l' ∷ b'.' ∷ b'a' ∷ b'l' ∷ b'i' ∷ b'g' ∷ b'n' ∷ b'm'
    ∷ b'e' ∷ b'n' ∷ b't' ∷ []

-- A signed value counts where it is not negative: where its highest bit is 0.
unfoldable pub alignment_in : Option Value → ℕ
alignment_in (some (u8_value n)) = n
alignment_in (some (u16_value n)) = n
alignment_in (some (u32_value n)) = n
alignment_in (some (i8_value n)) = if ltb n (2 ^ 7) then n else default_alignment
alignment_in (some (i16_value n)) = if ltb n (2 ^ 15) then n else default_alignment
alignment_in (some (i32_value n)) = if ltb n (2 ^ 31) then n else default_alignment
alignment_in _ = default_alignment

abbrev pub gguf_magic : List ℕ
gguf_magic = b'G' ∷ b'G' ∷ b'U' ∷ b'F' ∷ []

unfoldable pub version_of : ℕ → Result VersionedMagic
version_of v =
    if v == 1
    then ok gguf_v1
    else if v == 2
    then ok gguf_v2
    else if v == 3
    then ok gguf_v3
    else err (unknown_version v)

-- The first bytes and the version, which the cursor takes on.
unfoldable pub read_magic : Reader (Unit {0})
unfolding same_bytes
read_magic = do
  start ← take_bytes 4
  if same_bytes start gguf_magic
      then (do
        v ← read_le 4
        λ c. elim (version_of v) [ err e ↦ err e | ok g ↦ ok (tt, record c { magic = g }) ])
      else fail not_gguf

-- The header of what was read, which ends at byte `i`.
unfoldable pub header_of :
    VersionedMagic → ℕ → List (List ℕ × Value) → List TensorEntry → Result GgufHeader
unfolding metadata_of infos_of lookup alignment_in div_ceil
header_of magic i entries tensors =
    let metadata = metadata_of entries [] in
    let alignment = alignment_in (lookup alignment_key metadata) in
    if alignment == 0
    then err zero_alignment
    else ok (record {
      content = record {
        magic = magic;
        metadata = metadata;
        tensor_infos = infos_of tensors [];
        tensor_data_offset = div_ceil i alignment * alignment;
      };
      tensors = tensors;
    })

module _ (lossy : List ℕ → List ℕ) where
  -- All that is read, up to the end of the tensor table.
  unfoldable pub read_header : Reader (List (List ℕ × Value) × List TensorEntry)
  read_header = do
    magic ← read_magic
    n_tensors ← read_len
    n_kv ← read_len
    entries ← repeat n_kv (read_entry lossy)
    tensors ← repeat n_tensors (read_tensor lossy)
    pure (entries, tensors)

  unfoldable pub parse : List ℕ → Result GgufHeader
  unfolding read_header header_of
  parse bytes = elim (read_header (record { b = bytes; i = 0; magic = gguf_v3 })) [
    | err e ↦ err e
    | ok ((entries, tensors), c) ↦ header_of c.magic c.i entries tensors
  ]
