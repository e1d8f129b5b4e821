-- ===== src/Constrain/Token.antt =====
-- src/constrain.rs, `JsonConstraint`: the automaton and the guide walk a token's bytes together. The byte table is
-- the list of the tokens' bytes, `none` for a token that has no text.
pub mod Allowed
pub mod Runs
use oxydllm.Base.{
  ℕ, zero, suc, ◌+◌, ◌-◌, ◌≡◌, Bool, true, false, not, ◌&&◌, ◌||◌, List, [], ◌∷◌, ◌++◌, Option,
  none, some, ltb, leb, ◌==◌, if◌then◌else◌, ◌>>=◌, length, get_elem?, set, replicate, take,
}
use oxydllm.Constrain.Machine.{JsonMode, JsonMachine, new, accepting}
use oxydllm.Constrain.Schema.{Arena, root}
use oxydllm.Constrain.Events.{Events, in_number, step_ev}
use oxydllm.Constrain.Guide.{GuideState, new_guide, on_byte}

pub record TokenByteTable : Type 0 where
  pub bytes : List (Option (List ℕ))
  pub stop_ids : List ℕ

pub record JsonConstraint : Type 0 where
  pub table : TokenByteTable
  pub arena : Arena
  pub root_id : ℕ
  pub machine : JsonMachine
  pub guide : GuideState
  pub mode : JsonMode

unfoldable pub new_constraint : TokenByteTable → JsonMode → Arena → JsonConstraint
unfolding new root new_guide
new_constraint table mode arena = record {
  table = table;
  arena = arena;
  root_id = root arena;
  machine = new mode;
  guide = new_guide;
  mode = mode;
}

-- `walk`: the outer `none` is a panic, the inner one a refusal.
unfoldable pub walk_bytes :
    Arena
    → ℕ
    → JsonMode
    → List ℕ
    → JsonMachine
    → GuideState
    → Option (Option (JsonMachine × GuideState))
unfolding step_ev on_byte in_number
walk_bytes arena root mode [] m g = some (some (m, g))
walk_bytes arena root mode (b ∷ bytes) m g = elim (step_ev b mode m) [
  | none ↦ some none
  | some (ev, m') ↦ elim (on_byte arena root b ev (in_number m.state) g) [
    | none ↦ none
    | some (false, g') ↦ some none
    | some (true, g') ↦ walk_bytes arena root mode bytes m' g'
  ]
]

abbrev pub walk_token : JsonConstraint → List ℕ → Option (Option (JsonMachine × GuideState))
walk_token c bytes = walk_bytes c.arena c.root_id c.mode bytes c.machine c.guide

-- Whether a token's bytes are legal.
unfoldable pub legal : JsonConstraint → Option (List ℕ) → Option Bool
unfolding walk_bytes
legal c none = some false
legal c (some []) = some false
legal c (some (b ∷ bytes)) = do
  r ← walk_token c (b ∷ bytes)
  some (elim r [ none ↦ false | some s ↦ true ])

unfoldable pub mark_tokens : JsonConstraint → List (Option (List ℕ)) → Option (List Bool)
unfolding legal
mark_tokens c [] = some []
mark_tokens c (entry ∷ entries) = do
  ok ← legal c entry
  rest ← mark_tokens c entries
  some (ok ∷ rest)

-- `allowed[id] = true` for the ids in range.
unfoldable pub mark_stops : List ℕ → List Bool → List Bool
mark_stops [] allowed = allowed
mark_stops (id ∷ ids) allowed = mark_stops ids (set allowed id true)

-- `allowed`: the tokens past the table stay refused.
unfoldable pub allowed : JsonConstraint → ℕ → Option (List Bool)
unfolding mark_tokens mark_stops
allowed c vocab_size = do
  marks ← mark_tokens c (take vocab_size c.table.bytes)
  let all = marks ++ replicate (vocab_size - length marks) false
  some (if accepting c.machine then mark_stops c.table.stop_ids all else all)

unfoldable pub contains : ℕ → List ℕ → Bool
contains x [] = false
contains x (y ∷ ys) = y == x || contains x ys

-- `advance`, on the entry that the table has for the token.
unfoldable pub advance_by : Option (Option (List ℕ)) → JsonConstraint → Option JsonConstraint
unfolding walk_bytes
advance_by none c = some c
advance_by (some none) c = some c
advance_by (some (some bytes)) c = do
  r ← walk_token c bytes
  some (elim r [ none ↦ c | some s ↦ record c { machine = s.0; guide = s.1 } ])

unfoldable pub advance : ℕ → JsonConstraint → Option JsonConstraint
unfolding contains advance_by
advance token c =
    if contains token c.table.stop_ids then some c else advance_by (get_elem? c.table.bytes token) c
