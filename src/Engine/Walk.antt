-- ===== src/Engine/Walk.antt =====
-- src/engine.rs: the loop of `ChunkPlanner::next` returns, and hands out the tokens that come next.
use mathlib.Core.List.{append_assoc}
use oxydllm.Base.{
  ℕ, zero, suc, ◌+◌, ◌-◌, ◌≤◌, ◌<◌, ◌≡◌, refl, sym, ap, ◌∙◌, subst, min, true, false, not, ◌&&◌,
  ◌||◌, ◌⊎◌, inl, inr, List, [], ◌∷◌, ◌++◌, some, length, length-append, get_elem?, replicate,
  range, sum_by-append, ltb, ◌==◌, Bool-cases, Option-cases, ltb→lt, arith, get_elem?-some-lt,
}
use oxydllm.Engine.{Filling, take_from, fill, sum, is_nil}
use oxydllm.Engine.Owners.{owners, left, owners-append_one, left-add, left-whole, get_elem?-none-le}

range-append_one : (i n : ℕ) → range i n ++ (i + n) ∷ [] ≡ range i (n + 1)
unfolding range
range-append_one i zero = ap (λ k. k ∷ []) (omega arith)
range-append_one i (suc n) =
    let here : i + suc n ≡ i + 1 + n = omega arith in
    let all : suc n + 1 ≡ suc (n + 1) = omega arith in
    ap (λ k. i ∷ (range (i + 1) n ++ k ∷ [])) here
    ∙ ap (λ l. i ∷ l) (range-append_one (i + 1) n)
    ∙ ap (range i) (sym all)

same : {n k : ℕ} → some n ≡ some k → n ≡ k
same e = cc

row_added :
    (f : Filling) (t : ℕ)
    → f.finished ≡ range 0 (length f.counts)
    → f.finished ++ (length (f.counts ++ t ∷ []) - 1) ∷ [] ≡ range 0 (length (f.counts ++ t ∷ []))
row_added f t rows =
    let longer : length (f.counts ++ t ∷ []) ≡ length f.counts + 1 =
      omega (arith, length-append f.counts (t ∷ [])) in
    let last : length (f.counts ++ t ∷ []) - 1 ≡ 0 + length f.counts = omega (arith, longer) in
    ap (λ l. l ++ (length (f.counts ++ t ∷ []) - 1) ∷ []) rows
    ∙ ap (λ k. range 0 (length f.counts) ++ k ∷ []) last
    ∙ range-append_one 0 (length f.counts)
    ∙ ap (range 0) (sym longer)

module _ (counts : List ℕ) (split_at base cap : ℕ) (all : List ℕ) where
  -- The loop may go on: whole sequences have been taken, from `base` on.
  pub record Going (f : Filling) : Type 0 where
    pub at : base + length f.counts ≡ f.seq
    pub within : f.seq ≤ length counts
    pub done : (c : ℕ) → get_elem? counts f.seq ≡ some c → f.done_in_seq ≤ c
    pub tokens : owners base f.counts ++ left counts f.seq f.done_in_seq ≡ all
    pub rows : f.finished ≡ range 0 (length f.counts)
    pub full : sum f.counts + f.room ≡ cap
    pub side : base < split_at → f.seq ≤ split_at

  -- Where the loop stops: what it took comes first of what was left, each sequence that ends in it has its row, some
  -- progress was made, and the sequences lie on one side of `split_at`.
  pub record Filled (f : Filling) : Type 0 where
    pub at : base ≤ f.seq
    pub within : f.seq ≤ length counts
    pub done : (c : ℕ) → get_elem? counts f.seq ≡ some c → f.done_in_seq ≤ c
    pub tokens : owners base f.counts ++ left counts f.seq f.done_in_seq ≡ all
    pub rows : f.finished ≡ range 0 (f.seq - base)
    pub most : sum f.counts ≤ cap
    pub side : base < split_at → base + length f.counts ≤ split_at
    pub moved : (base < f.seq) ⊎ (0 < sum f.counts)

  Going-Filled : (f : Filling) → Going f → (base < f.seq) ⊎ (f.room < cap) → Filled f
  Going-Filled f h m = record {
    at = omega (arith, h.at);
    within = h.within;
    done = h.done;
    tokens = h.tokens;
    rows = h.rows ∙ ap (range 0) (omega (arith, h.at));
    most = omega (arith, h.full);
    side = λ s. omega (arith, h.at, h.side s);
    moved = elim m [ inl l ↦ inl l | inr l ↦ inr (omega (arith, h.full, l)) ];
  }

  -- A round takes the tokens that come next.
  took :
      (f : Filling) (c t : ℕ)
      → Going f
      → get_elem? counts f.seq ≡ some c
      → f.done_in_seq + t ≤ c
      → owners base (f.counts ++ t ∷ []) ++ left counts f.seq (f.done_in_seq + t) ≡ all
  took f c t h here le =
      ap (λ l. l ++ left counts f.seq (f.done_in_seq + t))
        (owners-append_one base f.counts t ∙ ap (λ k. owners base f.counts ++ replicate t k) h.at)
      ∙ append_assoc (owners base f.counts) (replicate t f.seq)
          (left counts f.seq (f.done_in_seq + t))
      ∙ ap (λ l. owners base f.counts ++ l) (sym (left-add counts f.seq c here f.done_in_seq t le))
      ∙ h.tokens

  module _ (f : Filling) (c : ℕ) (h : Going f) (here : get_elem? counts f.seq ≡ some c) where
    part : ℕ
    part = min (c - f.done_in_seq) f.room

    part-le : f.done_in_seq + part ≤ c
    unfolding part
    part-le = omega (arith, h.done c here)

    -- The sequence ends in this round.
    take_from-Going :
        (f.done_in_seq + part == c) ≡ true
        → (base < split_at → f.seq < split_at)
        → Going (take_from c f)
    unfolding part take_from
    take_from-Going e side =
        let ends : f.done_in_seq + part ≡ c = ground (arith, e) in
        rw e (record {
          at = omega (arith, h.at, length-append f.counts (part ∷ []));
          within = omega (arith, ltb→lt _ _ (get_elem?-some-lt counts f.seq here));
          done = λ c' e'. omega arith;
          tokens =
              ap (λ l. owners base (f.counts ++ part ∷ []) ++ l)
                (sym (left-whole counts f.seq c here) ∙ ap (left counts f.seq) (sym ends))
              ∙ took f c part h here part-le;
          rows = row_added f part h.rows;
          full = omega (arith, h.full, sum_by-append (λ n. n) f.counts (part ∷ []));
          side = λ s. omega (arith, side s);
        })

    -- The sequence goes on behind this round, which leaves no room.
    take_from-Filled :
        (f.done_in_seq + part == c) ≡ false
        → 0 < f.room
        → (base < split_at → f.seq < split_at)
        → Filled (take_from c f)
    unfolding part take_from
    take_from-Filled e room side =
        let goes_on : part ≡ f.room = ground (arith, e, part-le) in
        rw e (record {
          at = omega (arith, h.at);
          within = h.within;
          done = λ c' e'. subst (λ k. f.done_in_seq + part ≤ k) (same (sym here ∙ e')) part-le;
          tokens = took f c part h here part-le;
          rows = h.rows ∙ ap (range 0) (omega (arith, h.at));
          most = omega (arith, h.full, sum_by-append (λ n. n) f.counts (part ∷ []));
          side = λ s. omega (arith, h.at, side s, length-append f.counts (part ∷ []));
          moved = inr (omega (arith, goes_on, room, sum_by-append (λ n. n) f.counts (part ∷ [])));
        })

  take_from_next :
      (f : Filling) (c : ℕ) (h : Going f) (here : get_elem? counts f.seq ≡ some c)
      → (f.done_in_seq + part f c h here == c) ≡ true
      → (take_from c f).seq ≡ f.seq + 1
  unfolding take_from part
  take_from_next f c h here e = rw e refl

  -- Without room the loop stops at once.
  fill_full : (n : ℕ) (f : Filling) → 0 < n → f.room ≡ 0 → fill counts split_at n f ≡ some f
  unfolding fill
  fill_full zero f pos e = absurd (omega (arith, pos))
  fill_full (suc n) f pos e =
      let full : ltb 0 f.room ≡ false = ground (arith, e) in
      elim (Option-cases (get_elem? counts f.seq)) [
        | inl here ↦ rw (fill, here) refl
        | inr (c, here) ↦ rw (fill, here, full) refl
      ]

  take_from_full :
      (f : Filling) (c : ℕ) (h : Going f) (here : get_elem? counts f.seq ≡ some c)
      → (f.done_in_seq + part f c h here == c) ≡ false
      → (take_from c f).room ≡ 0
  unfolding take_from part
  take_from_full f c h here e =
      let le : f.done_in_seq + part f c h here ≤ c = part-le f c h here in ground (arith, e, le)

  stopped :
      (f : Filling)
      → Going f
      → base < length counts
      → 0 < cap
      → (not (ltb 0 f.room) || (f.seq == split_at && not (is_nil f.counts))) ≡ true
      → (base < f.seq) ⊎ (f.room < cap)
  stopped f h some_left pos stop = elim (Bool-cases (ltb 0 f.room)) [
    | inl room ↦ inl (behind_first f.counts h.at (split room stop))
    | inr full ↦ inr (ground (arith, full, pos))
  ]
    where
      split :
          ltb 0 f.room ≡ true
          → (not (ltb 0 f.room) || (f.seq == split_at && not (is_nil f.counts))) ≡ true
          → is_nil f.counts ≡ false
      split room stop = ground (arith, room, stop)

      behind_first :
          (counts : List ℕ) → base + length counts ≡ f.seq → is_nil counts ≡ false → base < f.seq
      behind_first [] at e = absurd cc
      behind_first (c ∷ cs) at e = omega (arith, at)

  before_split :
      (f : Filling)
      → Going f
      → (not (ltb 0 f.room) || (f.seq == split_at && not (is_nil f.counts))) ≡ false
      → base < split_at
      → f.seq < split_at
  before_split f h on s = elim (Bool-cases (is_nil f.counts)) [
    | inl none_yet ↦ omega (arith, s, first f.counts h.at none_yet)
    | inr taken ↦ ground (arith, on, taken, h.side s)
  ]
    where
      first : (counts : List ℕ) → base + length counts ≡ f.seq → is_nil counts ≡ true → f.seq ≡ base
      first [] at e = omega (arith, at)
      first (c ∷ cs) at e = absurd cc

  -- With fuel for each sequence that is left, the loop returns.
  pub fill-Filled :
      (n : ℕ) (f : Filling)
      → Going f
      → base < length counts
      → 0 < cap
      → length counts < f.seq + n
      → (f' : Filling) × (fill counts split_at n f ≡ some f') × Filled f'
  unfolding fill
  fill-Filled zero f h some_left pos fuel = absurd (omega (arith, h.within))
  fill-Filled (suc n) f h some_left pos fuel = elim (Option-cases (get_elem? counts f.seq)) [
    | inl e ↦ (
      f,
      rw (fill, e) refl,
      Going-Filled f h (inl (omega (arith, get_elem?-none-le counts f.seq e))),
    )
    | inr (c, here) ↦
        elim (Bool-cases (not (ltb 0 f.room) || (f.seq == split_at && not (is_nil f.counts)))) [
          | inl stop ↦
              (f, rw (fill, here, stop) refl, Going-Filled f h (stopped f h some_left pos stop))
          | inr on ↦
              let room : 0 < f.room = ground (arith, on) in
              let side : base < split_at → f.seq < split_at = before_split f h on in
              let inside : f.seq < length counts =
                ltb→lt _ _ (get_elem?-some-lt counts f.seq here) in
              elim (Bool-cases (f.done_in_seq + part f c h here == c)) [
                | inl whole ↦
                    let advanced : (take_from c f).seq ≡ f.seq + 1 =
                      take_from_next f c h here whole in
                    let rest : (f' : Filling) × (fill counts split_at n (take_from c f) ≡ some f')
                        × Filled f' =
                      fill-Filled n (take_from c f) (take_from-Going f c h here whole side)
                        some_left pos (omega (arith, fuel, advanced)) in
                    (rest.0, rw (fill, here, on) rest.1, rest.2)
                | inr partial ↦ (
                  take_from c f,
                  rw (fill, here, on)
                      (fill_full n (take_from c f) (omega (arith, fuel, inside))
                        (take_from_full f c h here partial)),
                  take_from-Filled f c h here partial room side,
                )
              ]
        ]
  ]
