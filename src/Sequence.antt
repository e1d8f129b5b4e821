-- ===== src/Sequence.antt =====
-- src/scheduler/sequence.rs: the state of one sequence. Sampling parameters and the grammar constraint are
-- carried along only: types `P` and `C`.
pub mod Clear
use Prim.Native.String.{String}
use oxydllm.Base.{
  ℕ, zero, suc, ◌+◌, ◌%◌, ◌≡◌, Bool, true, false, List, [], ◌∷◌, ◌++◌, Option, none, some, leb,
  ◌==◌, if◌then◌else◌, ◌>>=◌, u32_mod, u64_mod,
}
use oxydllm.Paged.Allocator.{Allocator}
use oxydllm.Paged.Cache.{KvCache, clear}

pub data SequencePhase : Type 0 where
  prefill decode : SequencePhase

pub data SequenceStatus : Type 0 where
  waiting running finished : SequenceStatus

pub record SequenceState (P C : Type 0) : Type 0 where
  pub id : ℕ
  pub num_generated : ℕ
  pub all_tokens : List ℕ
  pub token_counts : List (ℕ × ℕ)
  pub sampling_params : P
  pub status : SequenceStatus
  pub phase : SequencePhase
  pub caches : List KvCache
  pub draft_caches : List KvCache
  pub num_processed_tokens : ℕ
  pub max_tokens : ℕ
  pub finish_reason : Option String
  pub constraint : Option C

-- `*counts.entry(token).or_insert(0) += 1` on a `HashMap<u32, u32>`.
unfoldable pub bump : ℕ → List (ℕ × ℕ) → List (ℕ × ℕ)
bump token [] = (token, 1) ∷ []
bump token ((t, n) ∷ counts) =
    if t == token then (t, (n + 1) % u32_mod) ∷ counts else (t, n) ∷ bump token counts

-- The tables of the layers are cleared one by one, each into its own allocator.
unfoldable pub clear_layers {ℓ} :
    {Pool : Type ℓ}
    → List KvCache
    → List (Allocator Pool)
    → Option (List KvCache × List (Allocator Pool))
clear_layers [] allocators = some ([], allocators)
clear_layers (c ∷ caches) [] = none
clear_layers (c ∷ caches) (a ∷ allocators) = do
  (c', a') ← clear c a
  (caches', allocators') ← clear_layers caches allocators
  some (c' ∷ caches', a' ∷ allocators')

module _ {P C : Type 0} where
  unfoldable pub append_token : ℕ → SequenceState P C → SequenceState P C
  unfolding bump
  append_token token s = record s {
    all_tokens = s.all_tokens ++ token ∷ [];
    token_counts = bump token s.token_counts;
  }

  unfoldable pub clear_caches {ℓ} :
      {Pool : Type ℓ}
      → SequenceState P C
      → List (Allocator Pool)
      → List (Allocator Pool)
      → Option (SequenceState P C × List (Allocator Pool) × List (Allocator Pool))
  unfolding clear_layers
  clear_caches s allocators draft_allocators = do
    (caches', allocators') ← clear_layers s.caches allocators
    (draft', draft_allocators') ← clear_layers s.draft_caches draft_allocators
    some (record s { caches = caches'; draft_caches = draft' }, allocators', draft_allocators')

  -- Whether the token is part of the output, and the sequence after it.
  unfoldable pub apply_token : Bool → SequenceState P C → SequenceState P C × Bool
  apply_token is_stop s =
      if is_stop
      then (record s { status = finished; finish_reason = some "stop" }, false)
      else (let n = (s.num_generated + 1) % u64_mod in
          (
            if leb s.max_tokens n
                then record s {
                  num_generated = n;
                  status = finished;
                  finish_reason = some "length";
                }
                else record s { num_generated = n },
            true,
          ))
