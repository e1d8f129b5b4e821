-- ===== src/Paged/Append/Room.antt =====
-- src/common/paged.rs, `append`: the arithmetic of a round, which ends at a block's end or with the batch.
use native.Mathlib.Nat.{mod-lt, mod_self, mod-add-mod, mul-le-mul_right}
use oxydllm.Base.{
  ℕ, zero, suc, ◌+◌, ◌-◌, ◌*◌, ◌%◌, ◌≤◌, ◌<◌, ◌≡◌, sym, ap, ◌∙◌, inl, inr, min, arith, ◌==◌, leb,
  leb→le, if◌then◌else◌, u32_mod, Bool-cases,
}

-- A block's end is reached by its last slots.
fill_up : (n size : ℕ) → 0 < size → (n + (size - n % size)) % size ≡ 0
fill_up n size h =
    let whole : n % size + (size - n % size) ≡ size = omega (arith, mod-lt n h) in
    sym (mod-add-mod n size (size - n % size)) ∙ ap (λ k. k % size) whole ∙ mod_self size

-- The slots up to the next boundary.
abbrev tail_room : ℕ → ℕ → ℕ
tail_room n size = if n % size == 0 then 0 else size - n % size

-- After a round either no token is left or the offset is 0, and then a block less is free only where one was taken.
pub next_room :
    (size num left blocks blocks' taken : ℕ)
    → 0 < size
    → suc left ≤ size * blocks + tail_room num size
    → blocks' + taken ≡ blocks
    → taken ≡ (if num % size == 0 then 1 else 0)
    → suc left - min (suc left) (size - num % size)
      ≤ size * blocks' + tail_room (num + min (suc left) (size - num % size)) size
next_room size num left blocks blocks' taken pos h free one =
    elim (Bool-cases (leb (suc left) (size - num % size))) [
      | inl last ↦ omega (arith, leb→le (suc left) (size - num % size) last)
      | inr more ↦
          let whole : min (suc left) (size - num % size) ≡ size - num % size =
            ground (arith, more) in
          rw whole (elim (Bool-cases (num % size == 0)) [
            | inl at_end ↦
                let zero_off : num % size ≡ 0 = ground (arith, at_end) in
                let fewer : blocks ≡ suc blocks' = ground (arith, free, one, at_end) in
                let grows : size * blocks ≡ size + size * blocks' =
                  ap (λ k. size * k) fewer ∙ omega arith in
                let bound : suc left ≤ size * blocks = ground (arith, h, at_end) in
                omega (arith, zero_off, grows, bound)
            | inr inside ↦
                let as_many : blocks ≡ blocks' = ground (arith, free, one, inside) in
                let same : size * blocks ≡ size * blocks' = ap (λ k. size * k) as_many in
                let bound : suc left ≤ size * blocks + (size - num % size) =
                  ground (arith, h, inside) in
                omega (arith, same, bound)
          ])
    ]

pub below_end :
    (id size most : ℕ) → id < most → 0 < size → most * size ≤ u32_mod → id * size < u32_mod
below_end id size most h pos fits =
    let next : suc id * size ≡ size + id * size = omega arith in
    omega (arith, mul-le-mul_right size h, next)

pub some_block : (size blocks left : ℕ) → suc left ≤ size * blocks → 0 < blocks
some_block size zero left h = absurd (omega arith)
some_block size (suc blocks) left h = omega arith
