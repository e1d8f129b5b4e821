-- ===== src/Engine.antt =====
-- src/engine.rs: how a step's batch is split into forwards. The prefills come first, then the decodes from `split_at` on;
-- a time is in nanoseconds, and the floating-point rates are a type of their own. Of a forward's errors only the model's
-- are there, not those of building and cutting tensors.
pub mod Owners
pub mod Walk
pub mod Pacer
pub mod Handed
pub mod Forward
use oxydllm.Base.{
  ℕ, zero, suc, ◌+◌, ◌-◌, ◌*◌, ◌/◌, min, max, Bool, true, false, not, ◌&&◌, ◌||◌, List, [], ◌∷◌,
  ◌++◌, map, Option, none, some, ltb, leb, ◌==◌, if◌then◌else◌, ◌>>=◌, length, get_elem?, sum_by,
}

pub data Phase : Type 0 where
  prefill decode : Phase

pub record ForwardChunk : Type 0 where
  pub start : ℕ
  pub counts : List ℕ
  pub seq_base : ℕ
  pub finished : List ℕ
  pub phase : Phase

abbrev pub sum : List ℕ → ℕ
sum = sum_by (λ n. n)

abbrev pub chunk_len : ForwardChunk → ℕ
chunk_len c = sum c.counts

pub record ChunkPlanner : Type 0 where
  pub counts : List ℕ
  pub split_at : ℕ
  pub seq : ℕ
  pub done_in_seq : ℕ
  pub start : ℕ

abbrev pub new_planner : List ℕ → ℕ → ChunkPlanner
new_planner counts split_at = record {
  counts = counts;
  split_at = split_at;
  seq = 0;
  done_in_seq = 0;
  start = 0;
}

-- The locals of the loop.
pub record Filling : Type 0 where
  pub counts : List ℕ
  pub finished : List ℕ
  pub room : ℕ
  pub seq : ℕ
  pub done_in_seq : ℕ

abbrev pub is_nil {ℓ} : {A : Type ℓ} → List A → Bool
is_nil [] = true
is_nil (x ∷ xs) = false

-- One round, at a sequence of `count` tokens.
unfoldable pub take_from : ℕ → Filling → Filling
take_from count f =
    let take = min (count - f.done_in_seq) f.room in
    let counts = f.counts ++ take ∷ [] in
    let whole = f.done_in_seq + take == count in
    record {
      counts = counts;
      finished = if whole then f.finished ++ (length counts - 1) ∷ [] else f.finished;
      room = f.room - take;
      seq = if whole then f.seq + 1 else f.seq;
      done_in_seq = if whole then 0 else f.done_in_seq + take;
    }

-- The loop; `none` is too little fuel.
unfoldable pub fill : List ℕ → ℕ → ℕ → Filling → Option Filling
unfolding take_from
fill counts split_at zero f = none
fill counts split_at (suc n) f = elim (get_elem? counts f.seq) [
  | none ↦ some f
  | some count ↦
      let rest = fill counts split_at n (take_from count f) in
      if not (ltb 0 f.room) || (f.seq == split_at && not (is_nil f.counts)) then some f else rest
]

unfoldable pub next : ℕ → ChunkPlanner → Option (Option ForwardChunk × ChunkPlanner)
unfolding fill
next cap p = if leb (length p.counts) p.seq then some (none, p) else (do
  f ← fill p.counts p.split_at (suc (length p.counts)) (record {
    counts = [];
    finished = [];
    room = max cap 1;
    seq = p.seq;
    done_in_seq = p.done_in_seq;
  })
  some (
    some (record {
      start = p.start;
      counts = f.counts;
      seq_base = p.seq;
      finished = f.finished;
      phase = if ltb p.seq p.split_at then prefill else decode;
    }),
    record p { seq = f.seq; done_in_seq = f.done_in_seq; start = p.start + sum f.counts },
  ))

abbrev pub chunk_ceiling : ℕ
chunk_ceiling = 3000000000

abbrev pub chunk_max : ℕ
chunk_max = 1024

pub record PrefillPacer (Rate : Type 0) : Type 0 where
  pub cap : ℕ
  pub best : Option (ℕ × Rate)
  pub settled : Bool

-- What a pass comes to: the forwards that ran and the sequences of the rows they gave, or the one that failed.
pub data PassResult : Type 0 where
  ran : List ForwardChunk → List ℕ → PassResult
  failed : List ForwardChunk → ForwardChunk → PassResult

module _ {Rate : Type 0} where
  abbrev pub default_pacer : PrefillPacer Rate
  default_pacer = record { cap = 512; best = none; settled = false }

  -- The climb goes on from a chunk that was faster, or the first.
  unfoldable pub climb : ℕ → ℕ → Rate → PrefillPacer Rate → PrefillPacer Rate
  climb tokens elapsed rate p =
      if leb chunk_ceiling elapsed || leb chunk_max p.cap
      then record p { best = some (tokens, rate); settled = true }
      else record p { best = some (tokens, rate); cap = min (p.cap * 2) chunk_max }

  unfoldable pub shrink : PrefillPacer Rate → Bool × PrefillPacer Rate
  shrink p =
      if leb p.cap 32
      then (false, p)
      else (true, record { cap = p.cap / 2; best = none; settled = true })

  module _ (rate_of : ℕ → ℕ → Rate) (no_better : Rate → Rate → Bool) where
    -- `no_better` is `rate <= best_rate * 1.05`.
    unfoldable pub observe : ℕ → ℕ → PrefillPacer Rate → PrefillPacer Rate
    unfolding climb
    observe tokens elapsed p =
        let rate = rate_of tokens elapsed in
        if ltb tokens p.cap || p.settled then p else elim p.best [
          | none ↦ climb tokens elapsed rate p
          | some (best_tokens, best_rate) ↦
              if no_better rate best_rate
              then record p { cap = best_tokens; settled = true }
              else climb tokens elapsed rate p
        ]

    -- The loop of `run_forward_pass`. The device's answer to a forward, after those before it, is its time or an error.
    module _ (forward : List ForwardChunk → ForwardChunk → Option ℕ) where
      abbrev pub paced : ForwardChunk → ℕ → PrefillPacer Rate → PrefillPacer Rate
      paced chunk elapsed p =
          if ltb (length chunk.counts) (chunk_len chunk)
          then observe (chunk_len chunk) elapsed p
          else p

      unfoldable pub run_chunks :
          ℕ
          → ChunkPlanner
          → PrefillPacer Rate
          → List ForwardChunk
          → List ℕ
          → Option (PassResult × PrefillPacer Rate)
      unfolding next observe shrink
      run_chunks zero planner p before rows = none
      run_chunks (suc n) planner p before rows = do
        (found, planner') ← next p.cap planner
        elim found [
          | none ↦ some (ran before rows, p)
          | some chunk ↦ elim (forward before chunk) [
            | none ↦ some (failed before chunk, (shrink p).1)
            | some elapsed ↦
                run_chunks n planner' (paced chunk elapsed p) (before ++ chunk ∷ [])
                  (rows ++ map (λ row. chunk.seq_base + row) chunk.finished)
          ]
        ]
