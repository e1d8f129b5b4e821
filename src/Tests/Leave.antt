-- ===== src/Tests/Leave.antt =====
-- src/scheduler/mod.rs: requests that come and sequences that leave, at a scheduler with one running and one
-- waiting sequence.
use oxydllm.Base.{
  ℕ, zero, suc, ◌+◌, ◌≤◌, ◌<◌, ◌≡◌, u32_mod, refl, Bool, List, [], ◌∷◌, some, none, arith,
}
use oxydllm.Paged.Allocator.{num_free, num_free_blocks}
use oxydllm.Paged.Allocator.Invariant.{refs}
use oxydllm.Paged.Cache.{div_ceil}
use oxydllm.Sequence.{SequenceState, finished}
use oxydllm.Scheduler.{
  Scheduler, CompletedSequence, retire_finished, abort_sequence, abort_all, add_request_full,
  push_to_running, index_get,
}
use oxydllm.Scheduler.Schedule.{Progress, blocks_needed_for_prefill, schedule}
use oxydllm.Scheduler.Index.{IndexOk, push_to_running-IndexOk}
use oxydllm.Scheduler.Good.{Good, tally, holds_at}
use oxydllm.Scheduler.Retire.{Retired, retire_finished-Retired}
use oxydllm.Scheduler.Abort.{Aborted, abort_sequence-Aborted}
use oxydllm.Scheduler.Drain.{Emptied, abort_all-Emptied}
use oxydllm.Scheduler.Intake.{Queued, add_request_full-Queued}
use oxydllm.Scheduler.Liveness.{Starts, schedule-Starts}
use oxydllm.Tests.Data.{lru, hasher, pool, pool-Inv, runner, waiter, scheduler, empty_cache}
use oxydllm.Tests.Serve.{scheduler-Good, idle, idle-IndexOk}

-- The running sequence is at its end.
abbrev stopped : SequenceState ℕ ℕ
stopped = record runner { status = finished; finish_reason = some "stop" }

abbrev ended : Scheduler ℕ ℕ ℕ
ended = record scheduler { running_set = stopped ∷ [] }

stopped_running : IndexOk (stopped ∷ []) ((7, 0) ∷ [])
unfolding push_to_running index_get
stopped_running = push_to_running-IndexOk idle idle-IndexOk stopped refl

ended-Good : Good hasher lru ended (some empty_cache)
ended-Good = record {
  index_ok = stopped_running;
  distinct = scheduler-Good.distinct;
  layered = refl;
  accounts = scheduler-Good.accounts;
  drafts = tt;
  small = scheduler-Good.small;
  draft_small = scheduler-Good.draft_small;
}

retire_finished-Retired_example :
    (done : List CompletedSequence) × (s' : Scheduler ℕ ℕ ℕ) × (retire_finished ended
      ≡ some (done, s'))
    × Retired hasher lru (some empty_cache) ended done s'
retire_finished-Retired_example =
    retire_finished-Retired hasher lru (some empty_cache) ended ended-Good

abort_sequence-Aborted_example :
    (found : Bool) × (s' : Scheduler ℕ ℕ ℕ) × (abort_sequence 7 scheduler ≡ some (found, s'))
    × Aborted hasher lru (some empty_cache) 7 scheduler found s'
abort_sequence-Aborted_example =
    abort_sequence-Aborted hasher lru (some empty_cache) 7 scheduler scheduler-Good

abort_all-Emptied_example :
    (s' : Scheduler ℕ ℕ ℕ) × (abort_all scheduler ≡ some (7 ∷ 8 ∷ [], s'))
    × Emptied hasher lru (some empty_cache) scheduler s'
abort_all-Emptied_example = abort_all-Emptied hasher lru (some empty_cache) scheduler scheduler-Good

add_request_full-Queued_example :
    (s' : Scheduler ℕ ℕ ℕ) × (add_request_full (4 ∷ 5 ∷ []) 0 3 none scheduler ≡ some (9, s'))
    × Queued hasher lru (some empty_cache) (4 ∷ 5 ∷ []) scheduler s'
add_request_full-Queued_example =
    add_request_full-Queued hasher lru (some empty_cache) (4 ∷ 5 ∷ []) 0 3 none scheduler
      scheduler-Good refl (omega arith) (omega arith)

-- Nothing runs, one sequence waits and the pool is free.
abbrev resting : Scheduler ℕ ℕ ℕ
resting = record scheduler { running_set = []; running_index = []; allocators = pool ∷ [] }

none_held : (b : ℕ) → refs pool b ≡ tally (holds_at 0 b) resting + 0
none_held zero = refl
none_held (suc zero) = refl
none_held (suc (suc b)) = ground arith

few : (l b : ℕ) → tally (holds_at l b) resting + 0 < u32_mod
few zero b = ground arith
few (suc l) b = omega arith

resting-Good : Good hasher lru resting (some empty_cache)
resting-Good = record {
  index_ok = idle-IndexOk;
  distinct = λ k. ground arith;
  layered = refl;
  accounts = (pool-Inv, none_held, tt);
  drafts = tt;
  small = few;
  draft_small = λ l b. omega arith;
}

fits :
    blocks_needed_for_prefill hasher lru 2 waiter (some empty_cache) ≤ num_free_blocks (pool ∷ [])
unfolding num_free num_free_blocks blocks_needed_for_prefill div_ceil
fits = omega arith

schedule-Starts_example :
    (r : Progress hasher lru ℕ ℕ ℕ) × (schedule hasher lru resting (some empty_cache) ≡ some r)
    × Starts hasher lru resting waiter r
schedule-Starts_example =
    schedule-Starts hasher lru resting (some empty_cache) waiter [] resting-Good refl refl
      (omega arith) (omega arith) fits
