-- ===== src/Tests/Grammar.antt =====
-- src/constrain.rs and src/server/routes/stop_scan.rs: the theorems at a short document and a short stream.
use oxydllm.Base.{[], ◌∷◌}
use oxydllm.Constrain.Machine.{value, new}
use oxydllm.Constrain.Step.{walk}
use oxydllm.Constrain.Stack.{Within, new-Nested, walk-Within}
use oxydllm.StopScan.{StopScanner, push, is_empty}
use oxydllm.StopScan.Held.{Scanned, push-Scanned}

walk-Within_example : Within (walk (b'[' ∷ b'1' ∷ b',' ∷ b'{' ∷ b'}' ∷ b']' ∷ []) value (new value))
walk-Within_example =
    walk-Within (b'[' ∷ b'1' ∷ b',' ∷ b'{' ∷ b'}' ∷ b']' ∷ []) value (new value) (new-Nested value)

-- The stop string "ab", of which "a" is held.
abbrev scanner : StopScanner
scanner = record { stops = (b'a' ∷ b'b' ∷ []) ∷ []; held = b'a' ∷ [] }

push-Scanned_example :
    Scanned (b'a' ∷ b'c' ∷ b'a' ∷ []) ((b'a' ∷ b'b' ∷ []) ∷ []) (push (b'c' ∷ b'a' ∷ []) scanner)
unfolding is_empty
push-Scanned_example = push-Scanned (b'c' ∷ b'a' ∷ []) scanner (λ e. absurd cc)
