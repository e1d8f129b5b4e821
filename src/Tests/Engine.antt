-- ===== src/Tests/Engine.antt =====
-- src/engine.rs: the theorem at a batch of two prefills and a decode, at a device that takes five seconds for a forward.
use oxydllm.Base.{ℕ, suc, ◌+◌, ◌≡◌, List, [], ◌∷◌, Option, some, leb, length}
use oxydllm.Engine.{
  sum, new_planner, PrefillPacer, default_pacer, ForwardChunk, PassResult, run_chunks,
}
use oxydllm.Engine.Pacer.{PacerOk, default_pacer-PacerOk}
use oxydllm.Engine.Forward.{Passed, pass-Passed}

abbrev batch : List ℕ
batch = 600 ∷ 3 ∷ 1 ∷ []

abbrev rate_of : ℕ → ℕ → ℕ
rate_of tokens elapsed = tokens

abbrev five_seconds : List ForwardChunk → ForwardChunk → Option ℕ
five_seconds before chunk = some 5000000000

pass-Passed_example :
    (r : PassResult) × (p' : PrefillPacer ℕ) × (run_chunks rate_of leb five_seconds
        (suc (sum batch + length batch))
        (new_planner batch 2)
        default_pacer
        []
        []
      ≡ some (r, p'))
    × Passed batch 2 rate_of leb five_seconds r
    × PacerOk p'
pass-Passed_example =
    pass-Passed batch 2 rate_of leb five_seconds default_pacer default_pacer-PacerOk
