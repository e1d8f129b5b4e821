-- ===== src/Tests/Gguf.antt =====
-- src/common/gguf_header.rs: the theorem at a header of one entry, an array, and one tensor of two dimensions, of a type that
-- candle has not, followed by two bytes.
use oxydllm.Base.{ℕ, ◌<◌, ◌≡◌, ◌⊎◌, refl, List, [], ◌∷◌, ◌++◌, length, arith}
use oxydllm.Gguf.{
  gguf_v2, Value, u8_value, array_value, no_values, more_values, TensorEntry, alignment_key,
  GgufHeader, ok, err, zero_alignment, parse,
}
use oxydllm.Gguf.Write.{HeaderOk, ValueOk, ValuesOk, write_value, write_header}
use oxydllm.Gguf.Stated.{Aligned, States, last_value}
use oxydllm.Gguf.Parsed.{parse-write_header}

abbrev lossy : List ℕ → List ℕ
lossy s = s

abbrev entries : List (List ℕ × Value)
entries =
    (b'k' ∷ [], array_value (more_values (u8_value 7) (more_values (u8_value 8) no_values))) ∷ []

abbrev tensors : List TensorEntry
tensors = record { name = b'w' ∷ []; type_id = 39; dims = 3 ∷ 2 ∷ []; offset = 64 } ∷ []

abbrev two_bytes : List ℕ
two_bytes = 1 ∷ 2 ∷ []

header-HeaderOk : HeaderOk lossy gguf_v2 entries tensors
unfolding ValueOk ValuesOk
header-HeaderOk = record {
  n_entries = omega arith;
  n_tensors = omega arith;
  entries_ok = (
    record {
      key = record { fits = omega arith; utf8 = refl };
      value = (omega arith, (refl, omega arith, (refl, omega arith, tt)));
    },
    tt,
  );
  tensors_ok = (
    record {
      name = record { fits = omega arith; utf8 = refl };
      few = omega arith;
      dims = (omega arith, (omega arith, tt));
      type_id = omega arith;
      offset = omega arith;
    },
    tt,
  );
}

parse-write_header_example :
    (a : ℕ) × Aligned (last_value alignment_key entries) a
    × (((a ≡ 0)
          × (parse lossy (write_header gguf_v2 entries tensors ++ two_bytes) ≡ err zero_alignment))
        ⊎ ((0 < a)
            × (header : GgufHeader) × (parse lossy
                  (write_header gguf_v2 entries tensors ++ two_bytes)
                ≡ ok header)
            × States gguf_v2
                (length (write_header gguf_v2 entries tensors))
                a
                entries
                tensors
                header))
unfolding write_value
parse-write_header_example =
    parse-write_header lossy gguf_v2 entries tensors two_bytes header-HeaderOk (omega arith)
