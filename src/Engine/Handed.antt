-- ===== src/Engine/Handed.antt =====
-- src/engine.rs: the chunks that were handed out, and the tokens and rows in them.
use mathlib.Core.List.{append_assoc, append-nil}
use oxydllm.Base.{
  ℕ, zero, suc, ◌+◌, ◌≤◌, ◌≡◌, refl, sym, ap, ◌∙◌, subst, ◌⊎◌, List, [], ◌∷◌, ◌++◌, map, length,
  length-append, drop, range, arith,
}
use oxydllm.Engine.{prefill, decode, ForwardChunk, chunk_len}
use oxydllm.Engine.Owners.{owners, left, length-owners}

drop_all {ℓ} : {A : Type ℓ} (n : ℕ) (xs : List A) → length xs ≤ n → drop n xs ≡ []
drop_all zero [] h = refl
drop_all zero (x ∷ xs) h = absurd (omega arith)
drop_all (suc n) [] h = refl
drop_all (suc n) (x ∷ xs) h = drop_all n xs (omega arith)

pub left_end : (counts : List ℕ) (seq done : ℕ) → length counts ≤ seq → left counts seq done ≡ []
left_end counts seq done h =
    ap (λ l. drop done (owners seq l)) (drop_all seq counts h)
    ∙ drop_all {A = ℕ} done [] (omega arith)

-- The owners of the tokens that the chunks hold.
abbrev pub handed : List ForwardChunk → List ℕ
handed [] = []
handed (c ∷ chunks) = owners c.seq_base c.counts ++ handed chunks

pub handed-append_one :
    (chunks : List ForwardChunk) (c : ForwardChunk)
    → handed (chunks ++ c ∷ []) ≡ handed chunks ++ owners c.seq_base c.counts
handed-append_one [] c = append-nil (owners c.seq_base c.counts)
handed-append_one (d ∷ chunks) c =
    ap (λ l. owners d.seq_base d.counts ++ l) (handed-append_one chunks c)
    ∙ sym (append_assoc (owners d.seq_base d.counts) (handed chunks) (owners c.seq_base c.counts))

-- The chunk's tokens stand at `n`, are 1024 at most, and belong to sequences of its phase.
pub record ChunkOk (split_at n : ℕ) (c : ForwardChunk) : Type 0 where
  pub start : c.start ≡ n
  pub most : chunk_len c ≤ 1024
  pub side :
      ((c.phase ≡ prefill) × (c.seq_base + length c.counts ≤ split_at))
      ⊎ ((c.phase ≡ decode) × (split_at ≤ c.seq_base))

-- The chunks stand one behind the other, from `n` on.
abbrev pub ChunksOk : ℕ → ℕ → List ForwardChunk → Type 0
ChunksOk split_at n [] = Unit
ChunksOk split_at n (c ∷ chunks) = ChunkOk split_at n c × ChunksOk split_at (n + chunk_len c) chunks

pub ChunksOk-append_one :
    (split_at n : ℕ) (chunks : List ForwardChunk) (c : ForwardChunk)
    → ChunksOk split_at n chunks
    → ChunkOk split_at (n + length (handed chunks)) c
    → ChunksOk split_at n (chunks ++ c ∷ [])
ChunksOk-append_one split_at n [] c h k = (subst (λ m. ChunkOk split_at m c) (omega arith) k, tt)
ChunksOk-append_one split_at n (d ∷ chunks) c h k = (
  h.0,
  ChunksOk-append_one split_at (n + chunk_len d) chunks c h.1 (
      subst (λ m. ChunkOk split_at m c)
        (omega (
          arith,
          length-append (owners d.seq_base d.counts) (handed chunks),
          length-owners d.seq_base d.counts,
        ))
        k),
)

pub map-range : (base i n : ℕ) → map (λ row. base + row) (range i n) ≡ range (base + i) n
unfolding range
map-range base i zero = refl
map-range base i (suc n) =
    ap (λ l. (base + i) ∷ l) (map-range base (i + 1) n ∙ ap (λ k. range k n) (omega arith))

pub range-append : (i n k : ℕ) → range i n ++ range (i + n) k ≡ range i (n + k)
unfolding range
range-append i zero k = ap (λ j. range j k) (omega arith) ∙ ap (range i) (omega arith)
range-append i (suc n) k =
    let first : i + suc n ≡ i + 1 + n = omega arith in
    let all : suc n + k ≡ suc (n + k) = omega arith in
    ap (λ j. i ∷ (range (i + 1) n ++ range j k)) first
    ∙ ap (λ l. i ∷ l) (range-append (i + 1) n k)
    ∙ ap (range i) (sym all)
