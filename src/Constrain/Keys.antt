-- ===== src/Constrain/Keys.antt =====
-- src/constrain.rs, `compile_node`: the words of JSON Schema that it looks for, as bytes.
use oxydllm.Base.{ℕ, List, [], ◌∷◌}

abbrev pub key_type : List ℕ
key_type = b't' ∷ b'y' ∷ b'p' ∷ b'e' ∷ []

abbrev pub key_enum : List ℕ
key_enum = b'e' ∷ b'n' ∷ b'u' ∷ b'm' ∷ []

abbrev pub key_ref : List ℕ
key_ref = b'$' ∷ b'r' ∷ b'e' ∷ b'f' ∷ []

abbrev pub key_any_of : List ℕ
key_any_of = b'a' ∷ b'n' ∷ b'y' ∷ b'O' ∷ b'f' ∷ []

abbrev pub key_one_of : List ℕ
key_one_of = b'o' ∷ b'n' ∷ b'e' ∷ b'O' ∷ b'f' ∷ []

abbrev pub key_all_of : List ℕ
key_all_of = b'a' ∷ b'l' ∷ b'l' ∷ b'O' ∷ b'f' ∷ []

abbrev pub key_properties : List ℕ
key_properties = b'p' ∷ b'r' ∷ b'o' ∷ b'p' ∷ b'e' ∷ b'r' ∷ b't' ∷ b'i' ∷ b'e' ∷ b's' ∷ []

abbrev pub key_required : List ℕ
key_required = b'r' ∷ b'e' ∷ b'q' ∷ b'u' ∷ b'i' ∷ b'r' ∷ b'e' ∷ b'd' ∷ []

abbrev pub key_additional : List ℕ
key_additional =
    b'a' ∷ b'd' ∷ b'd' ∷ b'i' ∷ b't' ∷ b'i' ∷ b'o' ∷ b'n' ∷ b'a' ∷ b'l' ∷ b'P' ∷ b'r' ∷ b'o' ∷ b'p'
    ∷ b'e' ∷ b'r' ∷ b't' ∷ b'i' ∷ b'e' ∷ b's' ∷ []

abbrev pub key_items : List ℕ
key_items = b'i' ∷ b't' ∷ b'e' ∷ b'm' ∷ b's' ∷ []

abbrev pub key_defs : List ℕ
key_defs = b'$' ∷ b'd' ∷ b'e' ∷ b'f' ∷ b's' ∷ []

abbrev pub key_definitions : List ℕ
key_definitions = b'd' ∷ b'e' ∷ b'f' ∷ b'i' ∷ b'n' ∷ b'i' ∷ b't' ∷ b'i' ∷ b'o' ∷ b'n' ∷ b's' ∷ []

abbrev pub defs_prefix : List ℕ
defs_prefix = b'#' ∷ b'/' ∷ b'$' ∷ b'd' ∷ b'e' ∷ b'f' ∷ b's' ∷ b'/' ∷ []

abbrev pub definitions_prefix : List ℕ
definitions_prefix =
    b'#' ∷ b'/' ∷ b'd' ∷ b'e' ∷ b'f' ∷ b'i' ∷ b'n' ∷ b'i' ∷ b't' ∷ b'i' ∷ b'o' ∷ b'n' ∷ b's' ∷ b'/'
    ∷ []

abbrev pub type_object : List ℕ
type_object = b'o' ∷ b'b' ∷ b'j' ∷ b'e' ∷ b'c' ∷ b't' ∷ []

abbrev pub type_array : List ℕ
type_array = b'a' ∷ b'r' ∷ b'r' ∷ b'a' ∷ b'y' ∷ []

abbrev pub type_string : List ℕ
type_string = b's' ∷ b't' ∷ b'r' ∷ b'i' ∷ b'n' ∷ b'g' ∷ []

abbrev pub type_number : List ℕ
type_number = b'n' ∷ b'u' ∷ b'm' ∷ b'b' ∷ b'e' ∷ b'r' ∷ []

abbrev pub type_integer : List ℕ
type_integer = b'i' ∷ b'n' ∷ b't' ∷ b'e' ∷ b'g' ∷ b'e' ∷ b'r' ∷ []

abbrev pub type_boolean : List ℕ
type_boolean = b'b' ∷ b'o' ∷ b'o' ∷ b'l' ∷ b'e' ∷ b'a' ∷ b'n' ∷ []

abbrev pub type_null : List ℕ
type_null = b'n' ∷ b'u' ∷ b'l' ∷ b'l' ∷ []
