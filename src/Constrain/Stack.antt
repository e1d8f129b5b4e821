-- ===== src/Constrain/Stack.antt =====
-- src/constrain.rs, `JsonMachine`: what bounds the nesting stack of the automaton.
use oxydllm.Base.{
  ℕ, zero, suc, ◌+◌, ◌≤◌, ◌≡◌, inl, inr, refl, Bool, true, false, List, [], ◌∷◌, Option, none, some,
  leb, arith, ◌==◌, if◌then◌else◌, length, Bool-cases, Option-cases,
}
use oxydllm.Constrain.Machine.{
  JsonMode, NumS, minus, zero_digit, int, S, value_s, obj_first, arr_first, obj_comma, str, colon,
  num, lit, obj_next, arr_next, done, JsonMachine, max_depth, literal, new, object_only, is_done,
  after_value, goto, push, pop_at, pop, opened, start_value,
}
use oxydllm.Constrain.Step.{
  num_next, step_str, step_lit, step_other, counted, step_num, step_in, step, walk,
}

-- At most 64 levels are open, none of them once the document is done.
pub record Nested (m : JsonMachine) : Type 0 where
  pub shallow : m.depth ≤ max_depth
  pub closed : is_done m.state ≡ true → m.depth ≡ 0

-- A legal outcome is nested.
pub data Within : Option JsonMachine → Type 0 where
  refused : Within none
  moved : {m : JsonMachine} → Nested m → Within (some m)

either : (c : Bool) (x y : Option JsonMachine) → Within x → Within y → Within (if c then x else y)
either true x y p q = p
either false x y p q = q

either_state :
    (c : Bool) (x y : S) (m : JsonMachine)
    → Within (some (goto x m))
    → Within (some (goto y m))
    → Within (some (goto (if c then x else y) m))
either_state true x y m p q = p
either_state false x y m p q = q

open_at : (s : S) (m : JsonMachine) → is_done s ≡ false → Nested m → Within (some (goto s m))
open_at s m e v = moved (record { shallow = v.shallow; closed = λ d. absurd cc })

after_value-closed : (stack depth : ℕ) → is_done (after_value stack depth) ≡ true → depth ≡ 0
unfolding after_value is_done
after_value-closed stack zero e = refl
after_value-closed stack (suc d) e = ground arith

finish : (m : JsonMachine) → Nested m → Within (some (goto (after_value m.stack m.depth) m))
finish m v = moved (record { shallow = v.shallow; closed = after_value-closed m.stack m.depth })

pop_at-Within : (d : ℕ) (m : JsonMachine) → d ≤ max_depth → Within (pop_at d m)
unfolding pop_at
pop_at-Within zero m h = refused
pop_at-Within (suc d) m h =
    moved (record { shallow = omega arith; closed = after_value-closed m.stack d })

pop-Within : (m : JsonMachine) → Nested m → Within (pop m)
unfolding pop
pop-Within m v = pop_at-Within m.depth m v.shallow

opened-Within :
    (s : S) (is_array : Bool) (m : JsonMachine)
    → is_done s ≡ false
    → Within (opened s (push is_array m))
unfolding opened push
opened-Within s is_array m e = elim (Bool-cases (leb max_depth m.depth)) [
  | inl full ↦ rw full refused
  | inr left ↦ rw left (moved (record { shallow = ground (arith, left); closed = λ d. absurd cc }))
]

start_value-Within :
    (b : ℕ) (top : Bool) (m : JsonMachine) → Nested m → Within (start_value b top m)
unfolding start_value is_done
start_value-Within b top m v = either _ _ _ refused (
    either _ _ _ (moved v) (
      either _ _ _ (opened-Within obj_first false m refl) (
        either _ _ _ (opened-Within arr_first true m refl) (
          either _ _ _ (open_at (str false 0 false) m refl v) (
            either _ _ _ (open_at (num minus) m refl v) (
              either _ _ _ (open_at (num zero_digit) m refl v) (
                either _ _ _ (open_at (num int) m refl v) (
                  either _ _ _ (open_at (lit 0 1) m refl v) (
                    either _ _ _ (open_at (lit 1 1) m refl v)
                      (either _ _ _ (open_at (lit 2 1) m refl v) refused))))))))))

step_str-Within :
    (esc : Bool) (uni : ℕ) (key : Bool) (b : ℕ) (m : JsonMachine)
    → Nested m
    → Within (step_str esc uni key b m)
unfolding step_str is_done
step_str-Within esc (suc uni) key b m v =
    either _ _ _ (open_at (str false uni key) m refl v) refused
step_str-Within true zero key b m v =
    either _ _ _ (open_at (str false 0 key) m refl v)
      (either _ _ _ (open_at (str false 4 key) m refl v) refused)
step_str-Within false zero key b m v =
    either _ _ _
      (either_state key colon (after_value m.stack m.depth) m (open_at colon m refl v) (finish m v))
      (either _ _ _ (open_at (str true 0 key) m refl v) (either _ _ _ refused (moved v)))

step_lit-Within : (l pos b : ℕ) (m : JsonMachine) → Nested m → Within (step_lit l pos b m)
unfolding step_lit is_done
step_lit-Within l pos b m v =
    either _ _ _
      (either_state (pos + 1 == length (literal l)) (after_value m.stack m.depth) (lit l (pos + 1))
        m (finish m v) (open_at (lit l (pos + 1)) m refl v))
      refused

step_other-Within :
    (s : S) (b : ℕ) (mode : JsonMode) (m : JsonMachine) → Nested m → Within (step_other s b mode m)
unfolding step_other is_done
step_other-Within value_s b mode m v = start_value-Within b (object_only mode) m v
step_other-Within obj_first b mode m v =
    either _ _ _ (moved v)
      (either _ _ _ (open_at (str false 0 true) m refl v) (either _ _ _ (pop-Within m v) refused))
step_other-Within arr_first b mode m v = either _ _ _ (pop-Within m v) (
    start_value-Within b (object_only mode) (goto value_s m)
      (record { shallow = v.shallow; closed = λ d. absurd cc }))
step_other-Within obj_comma b mode m v =
    either _ _ _ (moved v) (either _ _ _ (open_at (str false 0 true) m refl v) refused)
step_other-Within (str esc uni key) b mode m v = step_str-Within esc uni key b m v
step_other-Within colon b mode m v =
    either _ _ _ (moved v) (either _ _ _ (open_at value_s m refl v) refused)
step_other-Within (lit l pos) b mode m v = step_lit-Within l pos b m v
step_other-Within obj_next b mode m v =
    either _ _ _ (moved v)
      (either _ _ _ (open_at obj_comma m refl v) (either _ _ _ (pop-Within m v) refused))
step_other-Within arr_next b mode m v =
    either _ _ _ (moved v)
      (either _ _ _ (open_at value_s m refl v) (either _ _ _ (pop-Within m v) refused))
step_other-Within done b mode m v = either _ _ _ (moved v) refused
step_other-Within (num n) b mode m v = refused

counted-Within :
    (b : ℕ) (m : JsonMachine) (next : Option JsonMachine) → Within next → Within (counted b m next)
unfolding counted
counted-Within b m next refused = either _ _ _ refused refused
counted-Within b m next (moved v) =
    either _ _ _ refused (moved (record { shallow = v.shallow; closed = v.closed }))

Nested-of_some : (m : JsonMachine) → Within (some m) → Nested m
Nested-of_some m (moved v) = v

step_num-Within :
    (o : Option NumS) (n : NumS) (b : ℕ) (mode : JsonMode) (m : JsonMachine)
    → Nested m
    → Within (step_num o n b mode m)
unfolding step_num is_done
step_num-Within (some n2) n b mode m v = open_at (num n2) m refl v
step_num-Within none n b mode m v =
    let next = goto (after_value m.stack m.depth) m in
    let w = Nested-of_some next (finish m v) in
    either _ _ _
      (counted-Within b next (step_other next.state b mode next)
        (step_other-Within next.state b mode next w))
      refused

step_in-Within :
    (s : S) (b : ℕ) (mode : JsonMode) (m : JsonMachine) → Nested m → Within (step_in s b mode m)
unfolding step_in
step_in-Within (num n) b mode m v = step_num-Within (num_next n b) n b mode m v
step_in-Within value_s b mode m v = step_other-Within value_s b mode m v
step_in-Within obj_first b mode m v = step_other-Within obj_first b mode m v
step_in-Within arr_first b mode m v = step_other-Within arr_first b mode m v
step_in-Within obj_comma b mode m v = step_other-Within obj_comma b mode m v
step_in-Within (str esc uni key) b mode m v = step_other-Within (str esc uni key) b mode m v
step_in-Within colon b mode m v = step_other-Within colon b mode m v
step_in-Within (lit l pos) b mode m v = step_other-Within (lit l pos) b mode m v
step_in-Within obj_next b mode m v = step_other-Within obj_next b mode m v
step_in-Within arr_next b mode m v = step_other-Within arr_next b mode m v
step_in-Within done b mode m v = step_other-Within done b mode m v

step-Within : (b : ℕ) (mode : JsonMode) (m : JsonMachine) → Nested m → Within (step b mode m)
unfolding step
step-Within b mode m v =
    counted-Within b m (step_in m.state b mode m) (step_in-Within m.state b mode m v)

-- A new machine is nested.
pub new-Nested : (mode : JsonMode) → Nested (new mode)
unfolding new is_done
new-Nested mode = record { shallow = omega arith; closed = λ d. refl }

-- Whatever text is walked from a nested machine, a walk that is not refused ends in a nested machine: at most
-- 64 levels are open, and a document that is done has closed all of them.
pub walk-Within :
    (bs : List ℕ) (mode : JsonMode) (m : JsonMachine) → Nested m → Within (walk bs mode m)
unfolding walk
walk-Within [] mode m v = moved v
walk-Within (b ∷ bs) mode m v = elim (Option-cases (step b mode m)) [
  | inl e ↦ rw e refused
  | inr (m', e) ↦
      rw e (walk-Within bs mode m' (Nested-of_some m' (rw e at (step-Within b mode m v))))
]
