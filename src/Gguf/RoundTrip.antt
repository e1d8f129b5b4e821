-- ===== src/Gguf/RoundTrip.antt =====
-- src/common/gguf_header.rs: what the format writes, the parser reads back.
use mathlib.Core.List.{reverse, reverse_aux, reverse-reverse}
use oxydllm.Base.{
  ℕ, ◌+◌, ◌<◌, ◌≡◌, refl, ap, ◌∙◌, subst, false, List, [], ◌∷◌, ◌++◌, ltb, if◌then◌else◌, length,
  arith, u64_mod, same_bytes,
}
use oxydllm.Gguf.{
  Result, ok, err, VersionedMagic, gguf_v1, gguf_v2, gguf_v3, Value, TensorEntry, Cursor, Reader,
  pure, fail, ◌>>=◌, map_err, metadata_error, many_dims, not_gguf, take_bytes, read_le, read_len,
  read_string, read_value, read_entry, repeat, read_tensor, max_nesting, max_dims, gguf_magic,
  version_of, read_magic, read_header, header_of, parse,
}
use oxydllm.Gguf.Reads.{
  At, At-front, At-behind, behind-append, behind, Reads, bind-Reads, pure-Reads, map-Reads,
  take_bytes-Reads, to_le_bytes, le_mod, read_le-Reads, read_len-Reads,
}
use oxydllm.Gguf.Write.{
  version_number, tag_of, write_len, write_string, write_value, write_all, write_entry,
  write_tensor, write_header, FitsLen, All, EntryOk, TensorOk, HeaderOk,
}
use oxydllm.Gguf.Nested.{tag_of-lt, read_string-Reads, read_value-Reads}

length-reverse_aux {ℓ} :
    {A : Type ℓ} (xs ys : List A) → length (reverse_aux xs ys) ≡ length xs + length ys
length-reverse_aux [] ys = omega arith
length-reverse_aux (x ∷ xs) ys = omega (arith, length-reverse_aux xs (x ∷ ys))

length-reverse {ℓ} : {A : Type ℓ} (xs : List A) → length (reverse xs) ≡ length xs
length-reverse xs = omega (arith, length-reverse_aux xs [])

repeat-Reads {ℓ} :
    {A : Type ℓ} {g : VersionedMagic} (m : Reader A) (write : A → List ℕ) (P : A → Type 0)
    → ((a : A) → P a → Reads g m (write a) a)
    → (xs : List A) → All P xs
    → Reads g (repeat (length xs) m) (write_all write xs) xs
unfolding repeat
repeat-Reads m write P p [] h = pure-Reads []
repeat-Reads m write P p (x ∷ xs) h =
    bind-Reads m (λ a. repeat (length xs) m >>= λ rest. pure (a ∷ rest)) (write x)
      (write_all write xs) x (x ∷ xs) (p x h.0)
      (map-Reads (repeat (length xs) m) (λ rest. x ∷ rest) (write_all write xs) xs
        (repeat-Reads m write P p xs h.1))

write_rest : VersionedMagic → List (List ℕ × Value) → List TensorEntry → List ℕ
write_rest g entries tensors =
    write_len g (length tensors)
    ++ (write_len g (length entries)
        ++ (write_all (write_entry g) entries ++ write_all (write_tensor g) tensors))

module _ (lossy : List ℕ → List ℕ) (g : VersionedMagic) where
  read_entry-Reads :
      (e : List ℕ × Value) → EntryOk lossy g e → Reads g (read_entry lossy) (write_entry g e) e
  unfolding read_entry
  read_entry-Reads (key, v) h =
      let value : ℕ → Reader Value =
        λ tag. map_err (metadata_error key) (read_value lossy max_nesting tag) in
      bind-Reads (read_string lossy)
        (λ k. read_le 4 >>= λ tag.
          map_err (metadata_error k) (read_value lossy max_nesting tag) >>= λ r. pure (k, r))
        (write_string g key) (to_le_bytes 4 (tag_of v) ++ write_value g v) key (key, v)
        (read_string-Reads lossy g key h.key)
        (bind-Reads (read_le 4) (λ tag. value tag >>= λ r. pure (key, r)) (to_le_bytes 4 (tag_of v))
          (write_value g v) (tag_of v) (key, v)
          (read_le-Reads 4 (tag_of v) (omega (arith, tag_of-lt v)))
          (map-Reads (value (tag_of v)) (λ r. (key, r)) (write_value g v) v
            (λ c rest w.
              rw (map_err, read_value-Reads lossy g max_nesting v h.value c rest w) refl)))

  -- What stands behind a tensor's name and the number of its dimensions.
  dims-Reads :
      (t : TensorEntry)
      → TensorOk lossy g t
      → Reads g
          (repeat (length t.dims) read_len >>= λ dims. read_le 4 >>= λ type_id.
            read_le 8 >>= λ offset.
            pure
              (record { name = t.name; type_id = type_id; dims = reverse dims; offset = offset }))
          (write_all (write_len g) (reverse t.dims)
            ++ (to_le_bytes 4 t.type_id ++ to_le_bytes 8 t.offset))
          t
  dims-Reads t h =
      let entry : List ℕ → ℕ → ℕ → TensorEntry = λ dims type_id offset. record {
        name = t.name;
        type_id = type_id;
        dims = reverse dims;
        offset = offset;
      } in
      let same : entry (reverse t.dims) t.type_id t.offset ≡ t =
        ap (λ dims. record t { dims = dims }) (reverse-reverse t.dims) in
      let dims : Reads g (repeat (length t.dims) read_len)
          (write_all (write_len g) (reverse t.dims)) (reverse t.dims) =
        subst
          (λ n.
            Reads g (repeat n read_len) (write_all (write_len g) (reverse t.dims)) (reverse t.dims))
          (length-reverse t.dims)
          (repeat-Reads read_len (write_len g) (FitsLen g) (read_len-Reads g) (reverse t.dims)
            h.dims) in
      subst
        (Reads g
          (repeat (length t.dims) read_len >>= λ ds.
            read_le 4 >>= λ type_id. read_le 8 >>= λ offset. pure (entry ds type_id offset))
          (write_all (write_len g) (reverse t.dims)
            ++ (to_le_bytes 4 t.type_id ++ to_le_bytes 8 t.offset)))
        same
        (bind-Reads (repeat (length t.dims) read_len)
          (λ ds. read_le 4 >>= λ type_id. read_le 8 >>= λ offset. pure (entry ds type_id offset)) _
          _ (reverse t.dims) _ dims
          (bind-Reads (read_le 4)
            (λ type_id. read_le 8 >>= λ offset. pure (entry (reverse t.dims) type_id offset)) _ _
            t.type_id _ (read_le-Reads 4 t.type_id h.type_id)
            (map-Reads (read_le 8) (entry (reverse t.dims) t.type_id) (to_le_bytes 8 t.offset)
              t.offset (read_le-Reads 8 t.offset h.offset))))

  read_tensor-Reads :
      (t : TensorEntry) → TensorOk lossy g t → Reads g (read_tensor lossy) (write_tensor g t) t
  unfolding read_tensor
  read_tensor-Reads t h =
      let few : ltb max_dims (length t.dims) ≡ false = ground (arith, h.few) in
      let behind_name : List ℕ → ℕ → Reader TensorEntry = λ name n.
        if ltb max_dims n
        then fail (many_dims name n)
        else (repeat n read_len >>= λ dims. read_le 4 >>= λ type_id. read_le 8 >>= λ offset.
            pure
              (record { name = name; type_id = type_id; dims = reverse dims; offset = offset })) in
      bind-Reads (read_string lossy) (λ name. read_le 4 >>= behind_name name)
        (write_string g t.name) _ t.name t (read_string-Reads lossy g t.name h.name)
        (bind-Reads (read_le 4) (behind_name t.name) (to_le_bytes 4 (length t.dims)) _
          (length t.dims) t (read_le-Reads 4 (length t.dims) (omega (arith, h.few)))
          (λ c rest w. rw (few) (dims-Reads t h c rest w)))

  -- All that stands behind the first bytes and the version.
  rest_of : Reader (List (List ℕ × Value) × List TensorEntry)
  rest_of = do
    n_tensors ← read_len
    n_kv ← read_len
    entries ← repeat n_kv (read_entry lossy)
    tensors ← repeat n_tensors (read_tensor lossy)
    pure (entries, tensors)

  rest_of-Reads :
      (entries : List (List ℕ × Value)) (tensors : List TensorEntry)
      → HeaderOk lossy g entries tensors
      → Reads g rest_of (write_rest g entries tensors) (entries, tensors)
  unfolding rest_of write_rest
  rest_of-Reads entries tensors h =
      let tables : ℕ → ℕ → Reader (List (List ℕ × Value) × List TensorEntry) = λ n_tensors n_kv.
        repeat n_kv (read_entry lossy) >>= λ es.
        repeat n_tensors (read_tensor lossy) >>= λ ts. pure (es, ts) in
      bind-Reads read_len (λ n_tensors. read_len >>= tables n_tensors) _ _ (length tensors) _
        (read_len-Reads g (length tensors) h.n_tensors)
        (bind-Reads read_len (tables (length tensors)) _ _ (length entries) _
          (read_len-Reads g (length entries) h.n_entries)
          (bind-Reads (repeat (length entries) (read_entry lossy))
            (λ es. repeat (length tensors) (read_tensor lossy) >>= λ ts. pure (es, ts)) _ _ entries
            _
            (repeat-Reads (read_entry lossy) (write_entry g) (EntryOk lossy g) read_entry-Reads
              entries h.entries_ok)
            (map-Reads (repeat (length tensors) (read_tensor lossy)) (λ ts. (entries, ts)) _ tensors
              (repeat-Reads (read_tensor lossy) (write_tensor g) (TensorOk lossy g)
                read_tensor-Reads tensors h.tensors_ok))))

version_of_number : (g : VersionedMagic) → version_of (version_number g) ≡ ok g
unfolding version_of
version_of_number gguf_v1 = refl
version_of_number gguf_v2 = refl
version_of_number gguf_v3 = refl

version_number-lt : (g : VersionedMagic) → version_number g < 4
version_number-lt gguf_v1 = omega arith
version_number-lt gguf_v2 = omega arith
version_number-lt gguf_v3 = omega arith

bind_ok {ℓ κ} :
    {A : Type ℓ} {B : Type κ} (m : Reader A) (f : A → Reader B) (c c' : Cursor) (a : A)
    → m c ≡ ok (a, c')
    → (m >>= f) c ≡ f a c'
bind_ok m f c c' a e = rw (◌>>=◌, e) refl

-- The cursor takes on the version that it reads.
read_magic_lem :
    (g v : VersionedMagic) (c : Cursor) (rest : List ℕ)
    → At v c (gguf_magic ++ to_le_bytes 4 (version_number g)) rest
    → read_magic c
      ≡ ok (tt, record (behind c (gguf_magic ++ to_le_bytes 4 (version_number g))) { magic = g })
unfolding read_magic same_bytes
read_magic_lem g v c rest w =
    let ver : List ℕ = to_le_bytes 4 (version_number g) in
    let w1 : At v c gguf_magic (ver ++ rest) = At-front c gguf_magic ver rest w in
    let w2 : At v (behind c gguf_magic) ver rest = At-behind c gguf_magic ver rest w in
    let number : version_number g < le_mod 4 = omega (arith, version_number-lt g) in
    bind_ok (take_bytes 4) after_start c (behind c gguf_magic) gguf_magic
      (take_bytes-Reads 4 gguf_magic refl c (ver ++ rest) w1)
    ∙ bind_ok (read_le 4) turn (behind c gguf_magic) (behind (behind c gguf_magic) ver)
        (version_number g) (read_le-Reads 4 (version_number g) number (behind c gguf_magic) rest w2)
    ∙ ap (λ r. take_on r (behind (behind c gguf_magic) ver)) (version_of_number g)
    ∙ ap (λ k. ok (tt, record k { magic = g })) (behind-append c gguf_magic ver)
  where
    take_on : Result VersionedMagic → Reader (Unit {0})
    take_on r c = elim r [ err e ↦ err e | ok g ↦ ok (tt, record c { magic = g }) ]

    turn : ℕ → Reader (Unit {0})
    turn n = take_on (version_of n)

    after_start : List ℕ → Reader (Unit {0})
    after_start start = if same_bytes start gguf_magic then read_le 4 >>= turn else fail not_gguf

module _ (lossy : List ℕ → List ℕ) where
  read_header_lem :
      (g : VersionedMagic) (entries : List (List ℕ × Value)) (tensors : List TensorEntry)
      (c : Cursor) (weights : List ℕ)
      → HeaderOk lossy g entries tensors
      → At gguf_v3 c (write_header g entries tensors) weights
      → read_header lossy c
        ≡ ok ((entries, tensors), record (behind c (write_header g entries tensors)) { magic = g })
  unfolding read_header rest_of write_rest
  read_header_lem g entries tensors c weights h w =
      let first : List ℕ = gguf_magic ++ to_le_bytes 4 (version_number g) in
      let rest : List ℕ = write_rest g entries tensors in
      let w1 : At gguf_v3 (behind c first) rest weights = At-behind c first rest weights w in
      let turned : Cursor = record (behind c first) { magic = g } in
      let w2 : At g turned rest weights = record {
        magic = refl;
        fits = w1.fits;
        within = w1.within;
        ahead = w1.ahead;
      } in
      bind_ok read_magic (λ u. rest_of lossy g) c turned tt
        (read_magic_lem g gguf_v3 c (rest ++ weights) (At-front c first rest weights w))
      ∙ rest_of-Reads lossy g entries tensors h turned weights w2
      ∙ ap (λ k. ok ((entries, tensors), record k { magic = g })) (behind-append c first rest)

  -- The parser reads the version, the entries and the tensors, and stops where the written bytes end.
  pub parse-header_of :
      (g : VersionedMagic) (entries : List (List ℕ × Value)) (tensors : List TensorEntry)
      (weights : List ℕ)
      → HeaderOk lossy g entries tensors
      → length (write_header g entries tensors ++ weights) < u64_mod
      → parse lossy (write_header g entries tensors ++ weights)
        ≡ header_of g (length (write_header g entries tensors)) entries tensors
  unfolding parse
  parse-header_of g entries tensors weights h fits =
      let start : Cursor = record {
        b = write_header g entries tensors ++ weights;
        i = 0;
        magic = gguf_v3;
      } in
      let w : At gguf_v3 start (write_header g entries tensors) weights = record {
        magic = refl;
        fits = fits;
        within = omega arith;
        ahead = refl;
      } in
      rw (parse, read_header_lem g entries tensors start weights h w)
        (ap (λ n. header_of g n entries tensors) (omega arith))
