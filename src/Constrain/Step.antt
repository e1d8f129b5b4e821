-- ===== src/Constrain/Step.antt =====
-- src/constrain.rs, `step_inner`, `step_ev` and `step`: one byte of the JSON automaton.
use oxydllm.Base.{
  ℕ, zero, suc, ◌+◌, Bool, true, false, ◌&&◌, ◌||◌, List, [], ◌∷◌, Option, none, some, ltb, leb,
  ◌==◌, if◌then◌else◌, ◌>>=◌, length, get_or,
}
use oxydllm.Constrain.Machine.{
  JsonMode, NumS, minus, zero_digit, int, dot, frac, exp, exp_sign, exp_digits, complete, S,
  value_s, obj_first, arr_first, obj_comma, str, colon, num, lit, obj_next, arr_next, done,
  JsonMachine, max_whitespace_run, literal, between, is_ws, is_hex, object_only, after_value, goto,
  pop, start_value,
}

-- The successor of a number state, `None` where the byte does not go on with the number.
unfoldable pub num_next : NumS → ℕ → Option NumS
num_next minus b =
    if b == b'0' then some zero_digit else if between b'1' b'9' b then some int else none
num_next zero_digit b =
    if b == b'.' then some dot else if b == b'e' || b == b'E' then some exp else none
num_next int b =
    if between b'0' b'9' b
    then some int
    else if b == b'.'
    then some dot
    else if b == b'e' || b == b'E'
    then some exp
    else none
num_next dot b = if between b'0' b'9' b then some frac else none
num_next frac b =
    if between b'0' b'9' b then some frac else if b == b'e' || b == b'E' then some exp else none
num_next exp b =
    if b == b'+' || b == b'-'
    then some exp_sign
    else if between b'0' b'9' b
    then some exp_digits
    else none
num_next exp_sign b = if between b'0' b'9' b then some exp_digits else none
num_next exp_digits b = if between b'0' b'9' b then some exp_digits else none

-- Inside a string, with the flag of an escape and the hex digits still to come.
unfoldable pub step_str : Bool → ℕ → Bool → ℕ → JsonMachine → Option JsonMachine
unfolding is_hex after_value
step_str esc (suc uni) key b m = if is_hex b then some (goto (str false uni key) m) else none
step_str true zero key b m =
    if b == b'"'
      || b == b'\\'
      || b == b'/'
      || b == b'b'
      || b == b'f'
      || b == b'n'
      || b == b'r'
      || b == b't'
    then some (goto (str false 0 key) m)
    else if b == b'u'
    then some (goto (str false 4 key) m)
    else none
step_str false zero key b m =
    if b == b'"'
    then some (goto (if key then colon else after_value m.stack m.depth) m)
    else if b == b'\\'
    then some (goto (str true 0 key) m)
    else if leb b 0x1f
    then none
    else some m

unfoldable pub step_lit : ℕ → ℕ → ℕ → JsonMachine → Option JsonMachine
unfolding literal after_value
step_lit l pos b m =
    let word = literal l in
    if ltb pos (length word) && b == get_or word pos 0
    then some
        (goto (if pos + 1 == length word then after_value m.stack m.depth else lit l (pos + 1)) m)
    else none

-- `step_inner` in every state but a number's.
unfoldable pub step_other : S → ℕ → JsonMode → JsonMachine → Option JsonMachine
unfolding start_value is_ws pop step_str step_lit object_only
step_other value_s b mode m = start_value b (object_only mode) m
step_other obj_first b mode m =
    if is_ws b
    then some m
    else if b == b'"'
    then some (goto (str false 0 true) m)
    else if b == b'}'
    then pop m
    else none
step_other arr_first b mode m =
    if b == b']' then pop m else start_value b (object_only mode) (goto value_s m)
step_other obj_comma b mode m =
    if is_ws b then some m else if b == b'"' then some (goto (str false 0 true) m) else none
step_other (str esc uni key) b mode m = step_str esc uni key b m
step_other colon b mode m =
    if is_ws b then some m else if b == b':' then some (goto value_s m) else none
step_other (lit l pos) b mode m = step_lit l pos b m
step_other obj_next b mode m =
    if is_ws b
    then some m
    else if b == b','
    then some (goto obj_comma m)
    else if b == b'}'
    then pop m
    else none
step_other arr_next b mode m =
    if is_ws b
    then some m
    else if b == b','
    then some (goto value_s m)
    else if b == b']'
    then pop m
    else none
step_other done b mode m = if is_ws b then some m else none
step_other (num n) b mode m = none

-- What `step_ev` does around the inner step: the whitespace bound before it, the run counted after it.
unfoldable pub counted : ℕ → JsonMachine → Option JsonMachine → Option JsonMachine
unfolding is_ws
counted b m next =
    if is_ws b && leb max_whitespace_run m.ws_run
    then none
    else (do m' ← next; some (record m' { ws_run = if is_ws b then m'.ws_run + 1 else 0 }))

-- `step_inner` in a number, with the successor. A complete number ends at a byte that does not go on with it,
-- and that byte is stepped again, by `step`, from the state that follows the number.
unfoldable pub step_num : Option NumS → NumS → ℕ → JsonMode → JsonMachine → Option JsonMachine
unfolding complete after_value step_other counted
step_num (some n2) n b mode m = some (goto (num n2) m)
step_num none n b mode m =
    if complete n
    then (let next = goto (after_value m.stack m.depth) m in
        counted b next (step_other next.state b mode next))
    else none

-- `step_inner`.
unfoldable pub step_in : S → ℕ → JsonMode → JsonMachine → Option JsonMachine
unfolding num_next step_num step_other
step_in (num n) b mode m = step_num (num_next n b) n b mode m
step_in value_s b mode m = step_other value_s b mode m
step_in s b mode m = step_other s b mode m

-- `step`, as a machine or `none` for an illegal byte.
unfoldable pub step : ℕ → JsonMode → JsonMachine → Option JsonMachine
unfolding step_in counted
step b mode m = counted b m (step_in m.state b mode m)

-- A text walked from a state.
unfoldable pub walk : List ℕ → JsonMode → JsonMachine → Option JsonMachine
unfolding step
walk [] mode m = some m
walk (b ∷ bs) mode m = do m' ← step b mode m; walk bs mode m'
