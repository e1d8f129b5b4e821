-- ===== src/Tests/Serve.antt =====
-- src/scheduler/mod.rs: the theorems at a scheduler with one running and one waiting sequence.
use oxydllm.Base.{ℕ, zero, suc, ◌+◌, ◌<◌, ◌≡◌, refl, false, [], ◌∷◌, some, arith, sum_by, u32_mod}
use oxydllm.Paged.Allocator.Invariant.{refs}
use oxydllm.Sequence.{SequenceState}
use oxydllm.Scheduler.{Scheduler, index_get, push_to_running, remove_from_running}
use oxydllm.Scheduler.Schedule.{Progress, Admission, admit_from}
use oxydllm.Scheduler.Index.{
  IndexOk, push_to_running-IndexOk, push_to_running-Joined, remove_from_running-IndexOk,
  without_slot,
}
use oxydllm.Scheduler.Good.{Good, holds_at, tally}
use oxydllm.Scheduler.Order.{Admitted, admit_from-Admitted}
use oxydllm.Tests.Data.{
  lru, hasher, held_pool, held_pool-Inv, runner, waiter, scheduler, empty_cache,
}

abbrev pub idle : Scheduler ℕ ℕ ℕ
idle = record scheduler { running_set = []; running_index = [] }

pub idle-IndexOk : IndexOk {P = ℕ} {C = ℕ} [] []
unfolding index_get
idle-IndexOk = record { to_slot = λ i q e. absurd cc; from_slot = λ k i e. absurd cc }

push_to_running-Joined_example :
    ((push_to_running runner idle).running_set ≡ runner ∷ [])
    × (index_get 7 (push_to_running runner idle).running_index ≡ some 0)
    × IndexOk (push_to_running runner idle).running_set (push_to_running runner idle).running_index
    × ((push_to_running runner idle).waiting_queue ≡ idle.waiting_queue)
unfolding index_get
push_to_running-Joined_example = push_to_running-Joined idle idle-IndexOk runner refl

one_running : IndexOk (runner ∷ []) ((7, 0) ∷ [])
unfolding push_to_running index_get
one_running = push_to_running-IndexOk idle idle-IndexOk runner refl

remove_from_running-IndexOk_example :
    (remove_from_running 0 scheduler ≡ some (runner, without_slot scheduler one_running 0 runner))
    × IndexOk
        (without_slot scheduler one_running 0 runner).running_set
        (without_slot scheduler one_running 0 runner).running_index
    × ((f : SequenceState ℕ ℕ → ℕ)
        → sum_by f (without_slot scheduler one_running 0 runner).running_set + f runner
          ≡ sum_by f (runner ∷ []))
remove_from_running-IndexOk_example =
    remove_from_running-IndexOk scheduler one_running 0 runner refl

one_holder : (b : ℕ) → refs held_pool b ≡ tally (holds_at 0 b) scheduler + 0
one_holder zero = refl
one_holder (suc zero) = refl
one_holder (suc (suc b)) = ground arith

few : (l b : ℕ) → tally (holds_at l b) scheduler + 0 < u32_mod
few zero b = ground arith
few (suc l) b = omega arith

pub scheduler-Good : Good hasher lru scheduler (some empty_cache)
scheduler-Good = record {
  index_ok = one_running;
  distinct = λ k. ground arith;
  layered = refl;
  accounts = (held_pool-Inv, one_holder, tt);
  drafts = tt;
  small = few;
  draft_small = λ l b. omega arith;
}

-- The step under way, with a budget of 8.
abbrev progress : Progress hasher lru ℕ ℕ ℕ
progress = record {
  scheduler = scheduler;
  cache = some empty_cache;
  scheduled = [];
  budget = 8;
  reserved = 0;
}

abbrev admission : Admission hasher lru ℕ ℕ ℕ
admission = record { progress = progress; free_blocks = 3; prefill_scheduled = false }

admit_from-Admitted_example :
    (b : Admission hasher lru ℕ ℕ ℕ) × (admit_from hasher lru (waiter ∷ []) admission ≡ some b)
    × Admitted hasher lru (waiter ∷ []) admission b
admit_from-Admitted_example =
    admit_from-Admitted hasher lru (waiter ∷ []) admission scheduler-Good refl
