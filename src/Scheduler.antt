-- ===== src/Scheduler.antt =====
-- src/scheduler/mod.rs: the scheduler's state and the operations on its queues. `P` and `C` are the
-- sampling parameters and the grammar constraint, `Pool` the tensors behind an allocator. `none` is a panic.
pub mod Index
pub mod Schedule
pub mod Good
pub mod Preempt
pub mod Grant
pub mod Admit
pub mod Order
pub mod Release
pub mod Retire
pub mod Abort
pub mod Drain
pub mod Intake
pub mod Liveness
use oxydllm.Base.{
  ℕ, zero, suc, ◌+◌, ◌-◌, ◌/◌, ◌%◌, ◌≡◌, Bool, true, false, not, ◌&&◌, ◌||◌, List, [], ◌∷◌, ◌++◌,
  map, Option, none, some, ltb, leb, ◌==◌, if◌then◌else◌, ◌>>=◌, length, get_elem?, set, u64_mod,
}
use oxydllm.Paged.Allocator.{Allocator}
use oxydllm.Paged.Cache.{KvCache, new}
use oxydllm.Sequence.{
  SequenceState, SequencePhase, prefill, SequenceStatus, waiting, running, finished, bump,
  clear_caches,
}
use Prim.Native.String.{String}

pub record SchedulerConfig : Type 0 where
  pub max_num_sequences : ℕ
  pub max_tokens_per_step : ℕ

pub record ScheduledSequence : Type 0 where
  pub id : ℕ
  pub phase : SequencePhase

pub record CompletedSequence : Type 0 where
  pub id : ℕ
  pub finish_reason : Option String

-- The `HashMap` from ids to slots: an association list with one entry for each key.
unfoldable pub index_get : ℕ → List (ℕ × ℕ) → Option ℕ
index_get k [] = none
index_get k ((j, i) ∷ m) = if j == k then some i else index_get k m

unfoldable pub index_remove : ℕ → List (ℕ × ℕ) → List (ℕ × ℕ)
index_remove k [] = []
index_remove k ((j, i) ∷ m) = if j == k then index_remove k m else (j, i) ∷ index_remove k m

unfoldable pub index_insert : ℕ → ℕ → List (ℕ × ℕ) → List (ℕ × ℕ)
unfolding index_remove
index_insert k i m = (k, i) ∷ index_remove k m

-- `Vec::swap_remove` at an index in range: the last element takes the place of the removed one.
unfoldable pub drop_last {ℓ} : {A : Type ℓ} → List A → List A
drop_last [] = []
drop_last (x ∷ []) = []
drop_last (x ∷ y ∷ xs) = x ∷ drop_last (y ∷ xs)

unfoldable pub swap_remove {ℓ} : {A : Type ℓ} → List A → ℕ → List A
unfolding drop_last
swap_remove xs i = elim (get_elem? xs (length xs - 1)) [
  | none ↦ []
  | some l ↦ drop_last (set xs i l)
]

module _ (P C Pool : Type 0) where
  pub record Scheduler : Type 0 where
    pub config : SchedulerConfig
    pub waiting_queue : List (SequenceState P C)
    pub running_set : List (SequenceState P C)
    pub running_index : List (ℕ × ℕ)
    pub allocators : List (Allocator Pool)
    pub draft_allocators : List (Allocator Pool)
    pub draft_num_layers : ℕ
    pub next_id : ℕ
    pub num_layers : ℕ
    pub block_size : ℕ

abbrev pub default_block_size : ℕ
default_block_size = 16

-- `(0..n).map(|i| PagedKvCache::new(allocators[i]))`, with the panic of a missing layer.
unfoldable pub new_caches : {Pool : Type 0} → ℕ → List (Allocator Pool) → Option (List KvCache)
new_caches zero allocators = some []
new_caches (suc n) [] = none
new_caches (suc n) (a ∷ allocators) = do caches ← new_caches n allocators; some (new a ∷ caches)

-- The prompt's token counts.
unfoldable pub count_tokens : List ℕ → List (ℕ × ℕ) → List (ℕ × ℕ)
unfolding bump
count_tokens [] counts = counts
count_tokens (t ∷ tokens) counts = count_tokens tokens (bump t counts)

-- `waiting.iter().position(|s| s.id == id)` and the removal there.
unfoldable pub remove_id :
    {P C : Type 0}
    → ℕ
    → List (SequenceState P C)
    → Option (SequenceState P C × List (SequenceState P C))
remove_id k [] = none
remove_id k (q ∷ qs) =
    let rest = remove_id k qs in
    if q.id == k then some (q, qs) else (rest >>= λ r. some (r.0, q ∷ r.1))

-- `seq.clear_caches()` on each of a list of sequences.
unfoldable pub clear_all :
    {P C Pool : Type 0}
    → List (SequenceState P C)
    → List (Allocator Pool)
    → List (Allocator Pool)
    → Option (List (Allocator Pool) × List (Allocator Pool))
clear_all [] ls ds = some (ls, ds)
clear_all (q ∷ qs) ls ds = do (q', ls', ds') ← clear_caches q ls ds; clear_all qs ls' ds'

unfoldable pub finished_ids : {P C : Type 0} → List (SequenceState P C) → List ℕ
finished_ids [] = []
finished_ids (q ∷ qs) = elim q.status [ finished ↦ q.id ∷ finished_ids qs | _ ↦ finished_ids qs ]

-- The moved sequence's index entry, `if vec_idx < self.running.len()`.
unfoldable pub fix_moved :
    {P C : Type 0} → ℕ → List (SequenceState P C) → List (ℕ × ℕ) → List (ℕ × ℕ)
unfolding index_insert
fix_moved i rest index = elim (get_elem? rest i) [
  | none ↦ index
  | some m ↦ index_insert m.id i index
]

module _ {P C Pool : Type 0} where
  -- `Scheduler::new`; the block size is that of layer 0.
  unfoldable pub new_scheduler : SchedulerConfig → List (Allocator Pool) → ℕ → Scheduler P C Pool
  new_scheduler config allocators num_layers = record {
    config = config;
    waiting_queue = [];
    running_set = [];
    running_index = [];
    allocators = allocators;
    draft_allocators = [];
    draft_num_layers = 0;
    next_id = 0;
    num_layers = num_layers;
    block_size = elim allocators [ [] ↦ default_block_size | a ∷ _ ↦ a.block_size ];
  }

  unfoldable pub set_draft_allocators :
      List (Allocator Pool) → Scheduler P C Pool → Scheduler P C Pool
  set_draft_allocators ds s = record s { draft_num_layers = length ds; draft_allocators = ds }

  unfoldable pub push_to_running : SequenceState P C → Scheduler P C Pool → Scheduler P C Pool
  unfolding index_insert
  push_to_running q s = record s {
    running_index = index_insert q.id (length s.running_set) s.running_index;
    running_set = s.running_set ++ q ∷ [];
  }

  unfoldable pub remove_from_running :
      ℕ → Scheduler P C Pool → Option (SequenceState P C × Scheduler P C Pool)
  unfolding fix_moved swap_remove index_remove index_insert
  remove_from_running i s = do
    q ← get_elem? s.running_set i
    let rest = swap_remove s.running_set i
    some (
      q,
      record s {
        running_set = rest;
        running_index = fix_moved i rest (index_remove q.id s.running_index);
      },
    )

  unfoldable pub add_request_full :
      List ℕ → P → ℕ → Option C → Scheduler P C Pool → Option (ℕ × Scheduler P C Pool)
  unfolding count_tokens new_caches
  add_request_full prompt_tokens sampling_params max_tokens constraint s = do
    caches ← new_caches s.num_layers s.allocators
    draft_caches ← new_caches s.draft_num_layers s.draft_allocators
    some (
      s.next_id,
      record s {
        next_id = (s.next_id + 1) % u64_mod;
        waiting_queue =
            s.waiting_queue
            ++ record {
              id = s.next_id;
              num_generated = 0;
              all_tokens = prompt_tokens;
              token_counts = count_tokens prompt_tokens [];
              sampling_params = sampling_params;
              status = waiting;
              phase = prefill;
              caches = caches;
              draft_caches = draft_caches;
              num_processed_tokens = 0;
              max_tokens = max_tokens;
              finish_reason = none;
              constraint = constraint;
            }
              ∷ [];
      },
    )

  unfoldable pub add_request : List ℕ → P → ℕ → Scheduler P C Pool → Option (ℕ × Scheduler P C Pool)
  unfolding add_request_full
  add_request prompt_tokens sampling_params max_tokens =
      add_request_full prompt_tokens sampling_params max_tokens none

  unfoldable pub get_running : ℕ → Scheduler P C Pool → Option (SequenceState P C)
  get_running k s = do i ← index_get k s.running_index; get_elem? s.running_set i

  -- One round of `retire_finished`.
  unfoldable pub retire_one :
      ℕ → Scheduler P C Pool → Option (CompletedSequence × Scheduler P C Pool)
  retire_one k s = do
    i ← index_get k s.running_index
    (q, s') ← remove_from_running i s
    (q', ls, ds) ← clear_caches q s'.allocators s'.draft_allocators
    some (
      record { id = q'.id; finish_reason = q'.finish_reason },
      record s' { allocators = ls; draft_allocators = ds },
    )

  unfoldable pub retire_ids :
      List ℕ → Scheduler P C Pool → Option (List CompletedSequence × Scheduler P C Pool)
  unfolding retire_one
  retire_ids [] s = some ([], s)
  retire_ids (k ∷ ks) s = do
    (done, s') ← retire_one k s
    (rest, t) ← retire_ids ks s'
    some (done ∷ rest, t)

  unfoldable pub retire_finished :
      Scheduler P C Pool → Option (List CompletedSequence × Scheduler P C Pool)
  unfolding finished_ids retire_ids
  retire_finished s = retire_ids (finished_ids s.running_set) s

  unfoldable pub abort_all_running : Scheduler P C Pool → Option (List ℕ × Scheduler P C Pool)
  unfolding clear_all
  abort_all_running s = do
    (ls, ds) ← clear_all s.running_set s.allocators s.draft_allocators
    some (
      map (λ q. q.id) s.running_set,
      record s { running_set = []; running_index = []; allocators = ls; draft_allocators = ds },
    )

  -- The sequence found is cleared into the allocators.
  unfoldable pub clear_into : SequenceState P C → Scheduler P C Pool → Option (Scheduler P C Pool)
  clear_into q s = do
    (q', ls, ds) ← clear_caches q s.allocators s.draft_allocators
    some (record s { allocators = ls; draft_allocators = ds })

  unfoldable pub abort_sequence : ℕ → Scheduler P C Pool → Option (Bool × Scheduler P C Pool)
  unfolding remove_from_running clear_into remove_id
  abort_sequence k s = elim (index_get k s.running_index) [
    | some i ↦ do (q, s') ← remove_from_running i s; t ← clear_into q s'; some (true, t)
    | none ↦ elim (remove_id k s.waiting_queue) [
      | none ↦ some (false, s)
      | some (q, rest) ↦ do t ← clear_into q (record s { waiting_queue = rest }); some (true, t)
    ]
  ]

  unfoldable pub abort_all : Scheduler P C Pool → Option (List ℕ × Scheduler P C Pool)
  unfolding abort_all_running clear_all
  abort_all s = do
    (ids, s') ← abort_all_running s
    (ls, ds) ← clear_all s'.waiting_queue s'.allocators s'.draft_allocators
    some (
      ids ++ map (λ q. q.id) s'.waiting_queue,
      record s' { waiting_queue = []; allocators = ls; draft_allocators = ds },
    )

  unfoldable pub queue_depth : Scheduler P C Pool → ℕ
  queue_depth s = length s.waiting_queue + length s.running_set

  unfoldable pub has_pending_work : Scheduler P C Pool → Bool
  has_pending_work s = not (length s.waiting_queue == 0) || not (length s.running_set == 0)
