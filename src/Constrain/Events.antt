-- ===== src/Constrain/Events.antt =====
-- src/constrain.rs, `step_ev`: the structural events of one byte, with the machine after it.
use oxydllm.Base.{ℕ, zero, Bool, true, false, not, ◌&&◌, ◌||◌, Option, some, ◌==◌, ◌>>=◌}
use oxydllm.Constrain.Machine.{
  JsonMode, S, value_s, obj_first, arr_first, obj_comma, str, num, lit, obj_next, arr_next,
  JsonMachine, is_ws,
}
use oxydllm.Constrain.Step.{step}

-- The bits of `Events`.
pub record Events : Type 0 where
  pub value_start : Bool
  pub scalar_end : Bool
  pub object_open : Bool
  pub object_close : Bool
  pub array_open : Bool
  pub array_close : Bool
  pub key_start : Bool
  pub key_end : Bool
  pub object_comma : Bool

-- `matches!` on a state.
unfoldable pub in_number : S → Bool
in_number (num n) = true
in_number _ = false

unfoldable pub in_literal : S → Bool
in_literal (lit l pos) = true
in_literal _ = false

unfoldable pub expects_value : S → Bool
expects_value value_s = true
expects_value arr_first = true
expects_value _ = false

unfoldable pub expects_key : S → Bool
expects_key obj_first = true
expects_key obj_comma = true
expects_key _ = false

-- Inside a key, or inside another string, where a quote ends it.
unfoldable pub in_string : Bool → S → Bool
in_string true (str false zero true) = true
in_string false (str false zero false) = true
in_string _ _ = false

unfoldable pub closes_object : S → Bool
closes_object obj_first = true
closes_object obj_next = true
closes_object (num n) = true
closes_object _ = false

unfoldable pub closes_array : S → Bool
closes_array arr_first = true
closes_array arr_next = true
closes_array (num n) = true
closes_array _ = false

unfoldable pub after_comma : S → Bool
after_comma obj_comma = true
after_comma _ = false

-- The events of byte `b`, from the state before it to the state after it.
unfoldable pub events : ℕ → S → S → Events
unfolding is_ws in_number in_literal expects_value expects_key in_string closes_object closes_array
    after_comma
events b before after =
    let started = expects_value before && not (is_ws b) && not (b == b']') in
    let quote = b == b'"' in
    let close_object = b == b'}' && closes_object before in
    let close_array = b == b']' && closes_array before in
    record {
      value_start = started;
      scalar_end =
          (quote && not (expects_key before) && in_string false before)
          || (close_object && in_number before)
          || (close_array && in_number before)
          || (in_literal before && not (in_literal after))
          || (in_number before && not (in_number after) && not (b == b'}') && not (b == b']'));
      object_open = b == b'{' && started;
      object_close = close_object;
      array_open = b == b'[' && started;
      array_close = close_array;
      key_start = quote && expects_key before;
      key_end = quote && not (expects_key before) && in_string true before;
      object_comma = b == b',' && after_comma after;
    }

-- `step_ev`.
unfoldable pub step_ev : ℕ → JsonMode → JsonMachine → Option (Events × JsonMachine)
unfolding step events
step_ev b mode m = do m' ← step b mode m; some (events b m.state m'.state, m')
