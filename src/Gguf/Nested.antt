-- ===== src/Gguf/Nested.antt =====
-- src/common/gguf_header.rs: the text and the values that the format writes are read back.
use oxydllm.Base.{
  ℕ, zero, suc, ◌<◌, ◌≡◌, refl, sym, subst, Bool, true, false, not, List, ◌++◌, ◌==◌, length, arith,
}
use oxydllm.Gguf.{
  VersionedMagic, Value, u8_value, i8_value, u16_value, i16_value, u32_value, i32_value, f32_value,
  bool_value, string_value, array_value, u64_value, i64_value, f64_value, Values, no_values,
  more_values, Reader, pure, ◌>>=◌, take_bytes, read_le, read_len, read_string, read_scalar,
  read_items, read_value,
}
use oxydllm.Gguf.Reads.{
  Reads, bind-Reads, pure-Reads, map-Reads, take_bytes-Reads, to_le_bytes, read_le-Reads,
  read_len-Reads,
}
use oxydllm.Gguf.Write.{
  tag_of, item_tag, count_values, bool_number, write_len, write_string, write_value, write_values,
  TextOk, ValueOk, ValuesOk,
}

pub tag_of-lt : (v : Value) → tag_of v < 13
tag_of-lt (u8_value n) = omega arith
tag_of-lt (i8_value n) = omega arith
tag_of-lt (u16_value n) = omega arith
tag_of-lt (i16_value n) = omega arith
tag_of-lt (u32_value n) = omega arith
tag_of-lt (i32_value n) = omega arith
tag_of-lt (f32_value n) = omega arith
tag_of-lt (bool_value b) = omega arith
tag_of-lt (string_value s) = omega arith
tag_of-lt (array_value vs) = omega arith
tag_of-lt (u64_value n) = omega arith
tag_of-lt (i64_value n) = omega arith
tag_of-lt (f64_value n) = omega arith

item_tag-lt : (vs : Values) → item_tag vs < 13
item_tag-lt no_values = omega arith
item_tag-lt (more_values v vs) = tag_of-lt v

module _ (lossy : List ℕ → List ℕ) (g : VersionedMagic) where
  pub read_string-Reads :
      (s : List ℕ) → TextOk lossy g s → Reads g (read_string lossy) (write_string g s) s
  unfolding read_string
  read_string-Reads s v =
      bind-Reads read_len (λ n. take_bytes n >>= λ bytes. pure (lossy bytes))
        (write_len g (length s)) s (length s) s (read_len-Reads g (length s) v.fits)
        (subst (Reads g (take_bytes (length s) >>= λ bytes. pure (lossy bytes)) s) v.utf8
          (map-Reads (take_bytes (length s)) lossy s s (take_bytes-Reads (length s) s refl)))

  -- A value that is no array is read the same at every level.
  read_value-scalar :
      (levels tag : ℕ) → tag == 9 ≡ false → read_value lossy levels tag ≡ read_scalar lossy tag
  unfolding read_value
  read_value-scalar zero tag e = rw e refl
  read_value-scalar (suc levels) tag e = rw e refl

  read_value-Reads_scalar :
      (levels tag : ℕ) (bytes : List ℕ) (v : Value)
      → tag == 9 ≡ false
      → Reads g (read_scalar lossy tag) bytes v
      → Reads g (read_value lossy levels tag) bytes v
  read_value-Reads_scalar levels tag bytes v e p =
      subst (λ m. Reads g m bytes v) (sym (read_value-scalar levels tag e)) p

  bool_value-Reads :
      (b : Bool)
      → Reads g
          (read_le 1 >>= λ n. pure (bool_value (not (n == 0))))
          (to_le_bytes 1 (bool_number b))
          (bool_value b)
  bool_value-Reads true =
      map-Reads (read_le 1) (λ n. bool_value (not (n == 0))) (to_le_bytes 1 1) 1
        (read_le-Reads 1 1 (omega arith))
  bool_value-Reads false =
      map-Reads (read_le 1) (λ n. bool_value (not (n == 0))) (to_le_bytes 1 0) 0
        (read_le-Reads 1 0 (omega arith))

  mutual
    unfolding read_value read_scalar read_items write_value write_values ValueOk ValuesOk

    pub read_value-Reads :
        (levels : ℕ) (v : Value)
        → ValueOk lossy g levels v
        → Reads g (read_value lossy levels (tag_of v)) (write_value g v) v
    read_value-Reads levels (u8_value n) h =
        read_value-Reads_scalar levels 0 _ _ refl
          (map-Reads (read_le 1) u8_value (to_le_bytes 1 n) n (read_le-Reads 1 n h))
    read_value-Reads levels (i8_value n) h =
        read_value-Reads_scalar levels 1 _ _ refl
          (map-Reads (read_le 1) i8_value (to_le_bytes 1 n) n (read_le-Reads 1 n h))
    read_value-Reads levels (u16_value n) h =
        read_value-Reads_scalar levels 2 _ _ refl
          (map-Reads (read_le 2) u16_value (to_le_bytes 2 n) n (read_le-Reads 2 n h))
    read_value-Reads levels (i16_value n) h =
        read_value-Reads_scalar levels 3 _ _ refl
          (map-Reads (read_le 2) i16_value (to_le_bytes 2 n) n (read_le-Reads 2 n h))
    read_value-Reads levels (u32_value n) h =
        read_value-Reads_scalar levels 4 _ _ refl
          (map-Reads (read_le 4) u32_value (to_le_bytes 4 n) n (read_le-Reads 4 n h))
    read_value-Reads levels (i32_value n) h =
        read_value-Reads_scalar levels 5 _ _ refl
          (map-Reads (read_le 4) i32_value (to_le_bytes 4 n) n (read_le-Reads 4 n h))
    read_value-Reads levels (f32_value n) h =
        read_value-Reads_scalar levels 6 _ _ refl
          (map-Reads (read_le 4) f32_value (to_le_bytes 4 n) n (read_le-Reads 4 n h))
    read_value-Reads levels (bool_value b) h =
        read_value-Reads_scalar levels 7 _ _ refl (bool_value-Reads b)
    read_value-Reads levels (string_value s) h =
        read_value-Reads_scalar levels 8 _ _ refl
          (map-Reads (read_string lossy) string_value (write_string g s) s (read_string-Reads s h))
    read_value-Reads zero (array_value vs) h = elim h [ ]
    read_value-Reads (suc levels) (array_value vs) h =
        let items : ℕ → Reader Value = λ n.
          read_items (λ c. read_value lossy levels (item_tag vs) c) n >>= λ r.
          pure (array_value r) in
        bind-Reads (read_le 4)
          (λ e. read_len >>= λ n.
            read_items (λ c. read_value lossy levels e c) n >>= λ r. pure (array_value r))
          (to_le_bytes 4 (item_tag vs)) (write_len g (count_values vs) ++ write_values g vs)
          (item_tag vs) (array_value vs)
          (read_le-Reads 4 (item_tag vs) (omega (arith, item_tag-lt vs)))
          (bind-Reads read_len items (write_len g (count_values vs)) (write_values g vs)
            (count_values vs) (array_value vs) (read_len-Reads g (count_values vs) h.0)
            (map-Reads (read_items (λ c. read_value lossy levels (item_tag vs) c) (count_values vs))
              array_value (write_values g vs) vs (read_items-Reads levels (item_tag vs) vs h.1)))
    read_value-Reads levels (u64_value n) h =
        read_value-Reads_scalar levels 10 _ _ refl
          (map-Reads (read_le 8) u64_value (to_le_bytes 8 n) n (read_le-Reads 8 n h))
    read_value-Reads levels (i64_value n) h =
        read_value-Reads_scalar levels 11 _ _ refl
          (map-Reads (read_le 8) i64_value (to_le_bytes 8 n) n (read_le-Reads 8 n h))
    read_value-Reads levels (f64_value n) h =
        read_value-Reads_scalar levels 12 _ _ refl
          (map-Reads (read_le 8) f64_value (to_le_bytes 8 n) n (read_le-Reads 8 n h))

    read_items-Reads :
        (levels tag : ℕ) (vs : Values)
        → ValuesOk lossy g levels tag vs
        → Reads g
            (read_items (λ c. read_value lossy levels tag c) (count_values vs))
            (write_values g vs)
            vs
    read_items-Reads levels tag no_values h = pure-Reads no_values
    read_items-Reads levels tag (more_values v vs) h =
        let item : Reader Value = λ c. read_value lossy levels tag c in
        bind-Reads item (λ x. read_items item (count_values vs) >>= λ r. pure (more_values x r))
          (write_value g v) (write_values g vs) v (more_values v vs)
          (subst (λ k. Reads g (λ c. read_value lossy levels k c) (write_value g v) v) h.0
            (read_value-Reads levels v h.1))
          (map-Reads (read_items item (count_values vs)) (more_values v) (write_values g vs) vs
            (read_items-Reads levels tag vs h.2))
