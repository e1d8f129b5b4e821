-- ===== src/Constrain/Machine.antt =====
-- src/constrain.rs, `JsonMachine`: the incremental JSON automaton. A byte is a number below 256. `stack` is the
-- `u128` with one bit per nesting level; its bit `d` is read as `stack / 2 ^ d % 2` and written by adding or
-- taking `2 ^ d` away.
use oxydllm.Base.{
  ℕ, zero, suc, ◌+◌, ◌-◌, ◌/◌, ◌%◌, ◌^◌, Bool, true, false, not, ◌&&◌, ◌||◌, List, [], ◌∷◌, Option,
  none, some, leb, ◌==◌, if◌then◌else◌,
}

pub data JsonMode : Type 0 where
  object value : JsonMode

pub data NumS : Type 0 where
  minus zero_digit int dot frac exp exp_sign exp_digits : NumS

unfoldable pub complete : NumS → Bool
complete zero_digit = true
complete int = true
complete frac = true
complete exp_digits = true
complete _ = false

pub data S : Type 0 where
  value_s obj_first arr_first obj_comma : S
  str : Bool → ℕ → Bool → S
  colon : S
  num : NumS → S
  lit : ℕ → ℕ → S
  obj_next arr_next done : S

pub record JsonMachine : Type 0 where
  pub stack : ℕ
  pub depth : ℕ
  pub state : S
  pub ws_run : ℕ

abbrev pub max_depth : ℕ
max_depth = 64

abbrev pub max_whitespace_run : ℕ
max_whitespace_run = 22

unfoldable pub literal : ℕ → List ℕ
literal zero = b't' ∷ b'r' ∷ b'u' ∷ b'e' ∷ []
literal (suc zero) = b'f' ∷ b'a' ∷ b'l' ∷ b's' ∷ b'e' ∷ []
literal (suc (suc n)) = b'n' ∷ b'u' ∷ b'l' ∷ b'l' ∷ []

abbrev pub between : ℕ → ℕ → ℕ → Bool
between lo hi b = leb lo b && leb b hi

unfoldable pub is_ws : ℕ → Bool
is_ws b = b == 0x20 || b == 0x09 || b == 0x0a || b == 0x0d

unfoldable pub is_hex : ℕ → Bool
is_hex b = between b'0' b'9' b || between b'a' b'f' b || between b'A' b'F' b

unfoldable pub new : JsonMode → JsonMachine
new mode = record { stack = 0; depth = 0; ws_run = 0; state = value_s }

unfoldable pub object_only : JsonMode → Bool
object_only object = true
object_only value = false

unfoldable pub number_completes_top : S → Bool
unfolding complete
number_completes_top (num n) = complete n
number_completes_top _ = false

unfoldable pub is_done : S → Bool
is_done done = true
is_done _ = false

unfoldable pub accepting : JsonMachine → Bool
unfolding is_done number_completes_top
accepting m = is_done m.state || (m.depth == 0 && number_completes_top m.state)

-- `(stack >> d) & 1 == 1`.
abbrev pub bit : ℕ → ℕ → Bool
bit stack d = stack / 2 ^ d % 2 == 1

-- `stack |= 1 << d` and `stack &= !(1 << d)`.
unfoldable pub set_bit : Bool → ℕ → ℕ → ℕ
set_bit true stack d = if bit stack d then stack else stack + 2 ^ d
set_bit false stack d = if bit stack d then stack - 2 ^ d else stack

-- `push`; the `false` of the code is `none`.
unfoldable pub push : Bool → JsonMachine → Option JsonMachine
unfolding set_bit
push is_array m =
    if leb max_depth m.depth
    then none
    else some (record m { stack = set_bit is_array m.stack m.depth; depth = m.depth + 1 })

-- The state that follows a completed value at a depth.
unfoldable pub after_value : ℕ → ℕ → S
after_value stack zero = done
after_value stack (suc d) = if bit stack d then arr_next else obj_next

abbrev pub goto : S → JsonMachine → JsonMachine
goto s m = record m { state = s }

-- `pop`, and the state it gives.
unfoldable pub pop_at : ℕ → JsonMachine → Option JsonMachine
unfolding after_value
pop_at zero m = none
pop_at (suc d) m = some (record m { depth = d; state = after_value m.stack d })

unfoldable pub pop : JsonMachine → Option JsonMachine
unfolding pop_at
pop m = pop_at m.depth m

unfoldable pub opened : S → Option JsonMachine → Option JsonMachine
opened s none = none
opened s (some m) = some (goto s m)

unfoldable pub start_value : ℕ → Bool → JsonMachine → Option JsonMachine
unfolding is_ws push opened
start_value b top_object_only m =
    if top_object_only && m.depth == 0 && not (b == b'{') && not (is_ws b)
    then none
    else if is_ws b
    then some m
    else if b == b'{'
    then opened obj_first (push false m)
    else if b == b'['
    then opened arr_first (push true m)
    else if b == b'"'
    then some (goto (str false 0 false) m)
    else if b == b'-'
    then some (goto (num minus) m)
    else if b == b'0'
    then some (goto (num zero_digit) m)
    else if between b'1' b'9' b
    then some (goto (num int) m)
    else if b == b't'
    then some (goto (lit 0 1) m)
    else if b == b'f'
    then some (goto (lit 1 1) m)
    else if b == b'n'
    then some (goto (lit 2 1) m)
    else none
