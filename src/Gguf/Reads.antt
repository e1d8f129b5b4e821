-- ===== src/Gguf/Reads.antt =====
-- src/common/gguf_header.rs: readers that take given bytes and stop behind them, and how they are put together.
use mathlib.Core.List.{append_assoc}
use oxydllm.Base.{
  ℕ, zero, suc, ◌+◌, ◌*◌, ◌/◌, ◌%◌, ◌≤◌, ◌<◌, ◌≡◌, refl, sym, ap, ◌∙◌, subst, List, [], ◌∷◌, ◌++◌,
  true, ltb, leb, lt→ltb, le→leb, length, length-append, length-drop, take, drop, arith, u64_mod,
}
use oxydllm.Gguf.{
  Cursor, VersionedMagic, Reader, ok, pure, ◌>>=◌, take_bytes, from_le_bytes, read_le, len_width,
  read_len,
}

-- The cursor stands before `bytes`, and `rest` comes after them.
pub record At (g : VersionedMagic) (c : Cursor) (bytes rest : List ℕ) : Type 0 where
  pub magic : c.magic ≡ g
  pub fits : length c.b < u64_mod
  pub within : c.i ≤ length c.b
  pub ahead : drop c.i c.b ≡ bytes ++ rest

-- The cursor behind `bytes`.
abbrev pub behind : Cursor → List ℕ → Cursor
behind c bytes = record c { i = c.i + length bytes }

-- The reader takes `bytes`, whatever follows them, and gives `a`.
abbrev pub Reads {ℓ} : {A : Type ℓ} → VersionedMagic → Reader A → List ℕ → A → Type ℓ
Reads g m bytes a = (c : Cursor) (rest : List ℕ) → At g c bytes rest → m c ≡ ok (a, behind c bytes)

drop-append : (x y : List ℕ) → drop (length x) (x ++ y) ≡ y
drop-append [] y = refl
drop-append (b ∷ x) y = drop-append x y

take-append : (x y : List ℕ) → take (length x) (x ++ y) ≡ x
take-append [] y = refl
take-append (b ∷ x) y = ap (λ l. b ∷ l) (take-append x y)

drop-nil : (n : ℕ) → drop {A = ℕ} n [] ≡ []
drop-nil zero = refl
drop-nil (suc n) = refl

drop-add : (n k : ℕ) (l : List ℕ) → drop (n + k) l ≡ drop k (drop n l)
drop-add zero k l = ap (λ j. drop j l) (omega arith)
drop-add (suc n) k [] = drop-nil (suc n + k) ∙ sym (drop-nil k)
drop-add (suc n) k (b ∷ l) =
    let next : suc n + k ≡ suc (n + k) = omega arith in
    ap (λ j. drop j (b ∷ l)) next ∙ drop-add n k l

At-end_le :
    {g : VersionedMagic} (c : Cursor) (bytes rest : List ℕ)
    → At g c bytes rest
    → c.i + length bytes ≤ length c.b
At-end_le c bytes rest p =
    omega (arith, p.within, ap length p.ahead, length-drop c.i c.b, length-append bytes rest)

pub At-front :
    {g : VersionedMagic} (c : Cursor) (x y rest : List ℕ)
    → At g c (x ++ y) rest
    → At g c x (y ++ rest)
At-front c x y rest p = record {
  magic = p.magic;
  fits = p.fits;
  within = p.within;
  ahead = p.ahead ∙ append_assoc x y rest;
}

pub At-behind :
    {g : VersionedMagic} (c : Cursor) (x y rest : List ℕ)
    → At g c (x ++ y) rest
    → At g (behind c x) y rest
At-behind c x y rest p = record {
  magic = p.magic;
  fits = p.fits;
  within = At-end_le c x (y ++ rest) (At-front c x y rest p);
  ahead =
      drop-add c.i (length x) c.b
      ∙ ap (drop (length x)) (p.ahead ∙ append_assoc x y rest)
      ∙ drop-append x (y ++ rest);
}

pub behind-append : (c : Cursor) (x y : List ℕ) → behind (behind c x) y ≡ behind c (x ++ y)
behind-append c x y = ap (λ k. record c { i = k }) (omega (arith, length-append x y))

pub bind-Reads {ℓ κ} :
    {A : Type ℓ} {B : Type κ} {g : VersionedMagic} (m : Reader A) (f : A → Reader B) (x y : List ℕ)
    (a : A) (b : B)
    → Reads g m x a
    → Reads g (f a) y b
    → Reads g (m >>= f) (x ++ y) b
bind-Reads m f x y a b p q c rest w =
    rw (◌>>=◌, p c (y ++ rest) (At-front c x y rest w))
      (q (behind c x) rest (At-behind c x y rest w) ∙ ap (λ k. ok (b, k)) (behind-append c x y))

pub pure-Reads {ℓ} : {A : Type ℓ} {g : VersionedMagic} (a : A) → Reads g (pure a) [] a
pure-Reads a c rest w = ap (λ k. ok (a, record c { i = k })) (omega arith)

pub map-Reads {ℓ κ} :
    {A : Type ℓ} {B : Type κ} {g : VersionedMagic} (m : Reader A) (f : A → B) (x : List ℕ) (a : A)
    → Reads g m x a
    → Reads g (m >>= λ r. pure (f r)) x (f a)
map-Reads m f x a p c rest w = rw (◌>>=◌, p c rest w) refl

pub take_bytes-Reads :
    {g : VersionedMagic} (n : ℕ) (x : List ℕ) → length x ≡ n → Reads g (take_bytes n) x x
unfolding take_bytes
take_bytes-Reads n x e c rest w =
    let here : ltb (c.i + n) u64_mod ≡ true =
      lt→ltb _ _ (omega (arith, At-end_le c x rest w, w.fits, e)) in
    let there : leb (c.i + n) (length c.b) ≡ true =
      le→leb _ _ (omega (arith, At-end_le c x rest w, e)) in
    let read : take n (drop c.i c.b) ≡ x =
      ap (λ k. take k (drop c.i c.b)) (sym e) ∙ ap (take (length x)) w.ahead ∙ take-append x rest in
    rw (take_bytes, here, there, read) (ap (λ k. ok (x, record c { i = c.i + k })) (sym e))

-- `to_le_bytes` of an integer of so many bytes.
abbrev pub to_le_bytes : ℕ → ℕ → List ℕ
to_le_bytes zero n = []
to_le_bytes (suc width) n = n % 256 ∷ to_le_bytes width (n / 256)

abbrev pub le_mod : ℕ → ℕ
le_mod zero = 1
le_mod (suc width) = 256 * le_mod width

length-to_le_bytes : (width n : ℕ) → length (to_le_bytes width n) ≡ width
length-to_le_bytes zero n = refl
length-to_le_bytes (suc width) n = ap suc (length-to_le_bytes width (n / 256))

from-to_le_bytes : (width n : ℕ) → n < le_mod width → from_le_bytes (to_le_bytes width n) ≡ n
unfolding from_le_bytes
from-to_le_bytes zero n h = omega arith
from-to_le_bytes (suc width) n h =
    omega (arith, from-to_le_bytes width (n / 256) (high n (le_mod width) h))
  where
    high : (n most : ℕ) → n < 256 * most → n / 256 < most
    high n most h = omega arith

pub read_le-Reads :
    {g : VersionedMagic} (width n : ℕ)
    → n < le_mod width
    → Reads g (read_le width) (to_le_bytes width n) n
unfolding read_le
read_le-Reads {g} width n h =
    subst (λ k. Reads g (read_le width) (to_le_bytes width n) k) (from-to_le_bytes width n h)
      (map-Reads (take_bytes width) from_le_bytes (to_le_bytes width n) (to_le_bytes width n)
        (take_bytes-Reads width (to_le_bytes width n) (length-to_le_bytes width n)))

pub read_len-Reads :
    (g : VersionedMagic) (n : ℕ)
    → n < le_mod (len_width g)
    → Reads g read_len (to_le_bytes (len_width g) n) n
unfolding read_len
read_len-Reads g n h c rest w =
    ap (λ k. read_le (len_width k) c) w.magic ∙ read_le-Reads (len_width g) n h c rest w
