-- ===== src/Constrain/Token/Allowed.antt =====
-- src/constrain.rs, `JsonConstraint`: the mask of allowed tokens and the step by a token agree, and neither panics.
use oxydllm.Base.{
  ℕ, zero, suc, ◌-◌, ◌≤◌, ◌<◌, ◌≡◌, refl, ◌∙◌, subst, inl, inr, Bool, true, false, List, [], ◌∷◌,
  ◌++◌, Option, none, some, if◌then◌else◌, length, length-append, get_elem?, set, length-set,
  get_elem?-set_ne, replicate, length-replicate, take, arith, Bool-cases, Option-cases,
}
use oxydllm.Constrain.Machine.{JsonMode, JsonMachine, accepting}
use oxydllm.Constrain.Schema.{Arena, root}
use oxydllm.Constrain.Events.{in_number, step_ev}
use oxydllm.Constrain.Guide.{GuideState, on_byte}
use oxydllm.Constrain.Guide.Ok.{ArenaOk, GuideOk, Safe, safe, new_guide-Ok}
use oxydllm.Constrain.Guide.Safe.{on_byte-Safe}
use oxydllm.Constrain.Token.{
  TokenByteTable, JsonConstraint, new_constraint, walk_bytes, walk_token, legal, mark_tokens,
  mark_stops, allowed, contains, advance_by, advance,
}

-- A walk that does not panic and leaves the guide well formed.
pub data Walked (arena : Arena) : Option (Option (JsonMachine × GuideState)) → Type 0 where
  refused : Walked arena (some none)
  moved : {m : JsonMachine} {g : GuideState} → GuideOk arena g → Walked arena (some (some (m, g)))

-- The schema's arena and the guide over it are well formed.
pub record ConstraintOk (c : JsonConstraint) : Type 0 where
  pub arena_ok : ArenaOk c.arena
  pub root_ok : c.root_id < length c.arena
  pub guide_ok : GuideOk c.arena c.guide

module _ (arena : Arena) (ok : ArenaOk arena) (root : ℕ) (root_ok : root < length arena)
    (mode : JsonMode) where
  walk_on :
      (r : Option (Bool × GuideState)) (f : GuideState → Option (Option (JsonMachine × GuideState)))
      → Safe arena r
      → ((g : GuideState) → GuideOk arena g → Walked arena (f g))
      → Walked arena (elim r [ none ↦ none | some (false, g) ↦ some none | some (true, g) ↦ f g ])
  walk_on (some (false, g)) f (safe v) next = refused
  walk_on (some (true, g)) f (safe v) next = next g v
  walk_on none f x next = elim x [ ]

  walk_bytes-Walked :
      (bytes : List ℕ) (m : JsonMachine) (g : GuideState)
      → GuideOk arena g
      → Walked arena (walk_bytes arena root mode bytes m g)
  unfolding walk_bytes
  walk_bytes-Walked [] m g v = moved v
  walk_bytes-Walked (b ∷ bytes) m g v = elim (Option-cases (step_ev b mode m)) [
    | inl stops ↦ rw (stops, walk_bytes) refused
    | inr (e, steps) ↦
        rw (steps, walk_bytes)
          (walk_on (on_byte arena root b e.0 (in_number m.state) g)
            (λ g'. walk_bytes arena root mode bytes e.1 g')
            (on_byte-Safe arena ok root root_ok b e.0 (in_number m.state) g v)
            (λ g' w. walk_bytes-Walked bytes e.1 g' w))
  ]

some_same : {A : Type 0} {o : Option A} (a b : A) → o ≡ some a → o ≡ some b → a ≡ b
some_same a b e f = cc

module _ (c : JsonConstraint) (v : ConstraintOk c) where
  walk_token-Walked : (bytes : List ℕ) → Walked c.arena (walk_token c bytes)
  walk_token-Walked bytes =
      walk_bytes-Walked c.arena v.arena_ok c.root_id v.root_ok c.mode bytes c.machine c.guide
        v.guide_ok

  -- The step by a token's entry, when its mark is known.
  pub data Taken (entry : Option (List ℕ)) : Bool → JsonConstraint → Type 0 where
    unmoved : Taken entry false c
    walked :
        {bytes : List ℕ} {m : JsonMachine} {g : GuideState}
        → entry ≡ some bytes
        → walk_token c bytes ≡ some (some (m, g))
        → Taken entry true (record c { machine = m; guide = g })

  abbrev Told : Option (List ℕ) → Type 0
  Told entry =
      (b : Bool) × (c' : JsonConstraint) × (legal c entry ≡ some b)
      × (advance_by (some entry) c ≡ some c')
      × Taken entry b c'
      × ConstraintOk c'

  legal_walk :
      (b : ℕ) (bytes : List ℕ) (r : Option (Option (JsonMachine × GuideState)))
      → walk_token c (b ∷ bytes) ≡ r
      → Walked c.arena r
      → Told (some (b ∷ bytes))
  unfolding legal advance_by
  legal_walk b bytes (some none) e refused = (false, c, rw e refl, rw e refl, unmoved, v)
  legal_walk b bytes (some (some (m, g))) e (moved w) = (
    true,
    record c { machine = m; guide = g },
    rw e refl,
    rw e refl,
    walked refl e,
    record { arena_ok = v.arena_ok; root_ok = v.root_ok; guide_ok = w },
  )
  legal_walk b bytes none e w = elim w [ ]

  told : (entry : Option (List ℕ)) → Told entry
  unfolding legal advance_by walk_bytes
  told none = (false, c, refl, refl, unmoved, v)
  told (some []) = (false, c, refl, refl, unmoved, v)
  told (some (b ∷ bytes)) =
      legal_walk b bytes (walk_token c (b ∷ bytes)) refl (walk_token-Walked (b ∷ bytes))

  mark_tokens_lem :
      (entries : List (Option (List ℕ)))
      → (marks : List Bool) × (mark_tokens c entries ≡ some marks)
        × (length marks ≡ length entries)
        × ((i : ℕ) (entry : Option (List ℕ))
            → get_elem? entries i ≡ some entry
            → (b : Bool) × (legal c entry ≡ some b) × (get_elem? marks i ≡ some b))
  unfolding mark_tokens
  mark_tokens_lem [] = ([], refl, refl, λ i entry e. absurd cc)
  mark_tokens_lem (entry ∷ entries) =
      let (b, _, e, _, _, _) = told entry in
      let (marks, f, n, at) = mark_tokens_lem entries in
      (b ∷ marks, rw (e, f) refl, omega (arith, n), mark_at entry b e entries marks at)
    where
      mark_at :
          (entry : Option (List ℕ)) (b : Bool)
          → legal c entry ≡ some b
          → (entries : List (Option (List ℕ))) (marks : List Bool)
          → ((i : ℕ) (x : Option (List ℕ))
              → get_elem? entries i ≡ some x
              → (y : Bool) × (legal c x ≡ some y) × (get_elem? marks i ≡ some y))
          → (i : ℕ) (x : Option (List ℕ)) → get_elem? (entry ∷ entries) i ≡ some x
          → (y : Bool) × (legal c x ≡ some y) × (get_elem? (b ∷ marks) i ≡ some y)
      mark_at entry b e entries marks at zero x here = (b, cc, refl)
      mark_at entry b e entries marks at (suc i) x here = at i x here

  -- What the mask over a vocabulary and the step by a token have to do with one another.
  pub record Agrees (vocab_size token : ℕ) : Type 0 where
    pub marks : List Bool
    pub after : JsonConstraint
    pub masked : allowed c vocab_size ≡ some marks
    pub whole : length marks ≡ vocab_size
    pub stepped : advance token c ≡ some after
    pub after_ok : ConstraintOk after
    pub agree :
        contains token c.table.stop_ids ≡ false
        → (entry : Option (List ℕ)) → get_elem? c.table.bytes token ≡ some entry
        → token < vocab_size
        → (b : Bool) × (get_elem? marks token ≡ some b) × Taken entry b after

  mark_stops_lem :
      (stops : List ℕ) (all : List Bool) (token : ℕ)
      → (length (mark_stops stops all) ≡ length all)
        × (contains token stops ≡ false
            → get_elem? (mark_stops stops all) token ≡ get_elem? all token)
  unfolding mark_stops contains
  mark_stops_lem [] all token = (refl, λ e. refl)
  mark_stops_lem (id ∷ stops) all token =
      let (n, at) = mark_stops_lem stops (set all id true) token in
      (
        n ∙ length-set all id true,
        λ e.
            at (ground (arith, e))
            ∙ get_elem?-set_ne all true (λ same. absurd (ground (arith, e, same))),
      )

  padded :
      (xs : List Bool) (n i : ℕ) (b : Bool)
      → get_elem? xs i ≡ some b
      → get_elem? (xs ++ replicate n false) i ≡ some b
  padded [] n i b e = absurd cc
  padded (x ∷ xs) n zero b e = e
  padded (x ∷ xs) n (suc i) b e = padded xs n i b e

  get_elem?-take :
      {A : Type 0} (n i : ℕ) (xs : List A) → i < n → get_elem? (take n xs) i ≡ get_elem? xs i
  get_elem?-take zero i xs h = absurd (omega arith)
  get_elem?-take (suc n) i [] h = refl
  get_elem?-take (suc n) zero (x ∷ xs) h = refl
  get_elem?-take (suc n) (suc i) (x ∷ xs) h = get_elem?-take n i xs (omega arith)

  length-take-le : {A : Type 0} (n : ℕ) (xs : List A) → length (take n xs) ≤ n
  length-take-le zero xs = omega arith
  length-take-le (suc n) [] = omega arith
  length-take-le (suc n) (x ∷ xs) = omega (arith, length-take-le n xs)

  masked_with :
      (vocab_size : ℕ) (ok : Bool) (marks : List Bool)
      → accepting c.machine ≡ ok
      → mark_tokens c (take vocab_size c.table.bytes) ≡ some marks
      → allowed c vocab_size
        ≡ some (
            if ok
            then mark_stops c.table.stop_ids (marks ++ replicate (vocab_size - length marks) false)
            else marks ++ replicate (vocab_size - length marks) false)
  unfolding allowed
  masked_with n ok marks e f = rw (f, e) refl

  mask : Bool → ℕ → List Bool → List Bool
  mask ok n marks =
      let all = marks ++ replicate (n - length marks) false in
      if ok then mark_stops c.table.stop_ids all else all

  mask_lem :
      (ok : Bool) (n token : ℕ) (marks : List Bool)
      → length marks ≤ n
      → (length (mask ok n marks) ≡ n)
        × (contains token c.table.stop_ids ≡ false
            → (b : Bool) → get_elem? marks token ≡ some b
            → get_elem? (mask ok n marks) token ≡ some b)
  unfolding mask
  mask_lem true n token marks fit =
      let all = marks ++ replicate (n - length marks) false in
      let (m, at) = mark_stops_lem c.table.stop_ids all token in
      (
        omega (
          arith,
          m,
          length-append marks (replicate (n - length marks) false),
          length-replicate (n - length marks) false,
        ),
        λ e b here. at e ∙ padded marks (n - length marks) token b here,
      )
  mask_lem false n token marks fit = (
    omega (
      arith,
      length-append marks (replicate (n - length marks) false),
      length-replicate (n - length marks) false,
    ),
    λ e b here. padded marks (n - length marks) token b here,
  )

  -- What a step by `token` leaves: well formed, and as the entry's mark says where it is no stop token.
  abbrev Stepped : ℕ → Type 0
  Stepped token =
      (c' : JsonConstraint) × (advance token c ≡ some c')
      × ConstraintOk c'
      × (contains token c.table.stop_ids ≡ false
          → (entry : Option (List ℕ)) → get_elem? c.table.bytes token ≡ some entry
          → (b : Bool) × (legal c entry ≡ some b) × Taken entry b c')

  step_lem : (token : ℕ) → Stepped token
  unfolding advance advance_by
  step_lem token = elim (Bool-cases (contains token c.table.stop_ids)) [
    | inl stops ↦ (c, rw stops refl, v, λ e entry at. absurd cc)
    | inr text ↦ elim (Option-cases (get_elem? c.table.bytes token)) [
      | inl missing ↦ (c, rw (text, missing) refl, v, λ e entry at. absurd cc)
      | inr (entry, at) ↦
          let (b, c', e, f, taken, good) = told entry in
          (
            c',
            rw (text, at) f,
            good,
            λ _ x here. (
              b,
              cc (e, at, here),
              subst (λ (y : Option (List ℕ)). Taken y b c') (some_same entry x at here) taken,
            ),
          )
    ]
  ]

  -- Neither the mask of allowed tokens nor a step panics, whatever the token. The mask has an entry for each token
  -- of the vocabulary. A token of the table and the vocabulary that is no stop token leaves the constraint as it is
  -- where its mark is false, and moves the automaton and the guide over its bytes where it is true. A step leaves
  -- the guide well formed.
  pub allowed-Agrees : (vocab_size token : ℕ) → Agrees vocab_size token
  allowed-Agrees n token =
      let (marks, e, m, at) = mark_tokens_lem (take n c.table.bytes) in
      let (c', f, good, legal_it) = step_lem token in
      let (whole, kept) =
        mask_lem (accepting c.machine) n token marks
          (omega (arith, m, length-take-le n c.table.bytes)) in
      record {
        marks = mask (accepting c.machine) n marks;
        after = c';
        masked = unfold mask in masked_with n (accepting c.machine) marks refl e;
        whole = whole;
        stepped = f;
        after_ok = good;
        agree = λ text entry here fits.
            let (b, legal_b, taken) = legal_it text entry here in
            let (b2, legal_b2, marked) =
              at token entry (get_elem?-take n token c.table.bytes fits ∙ here) in
            (b, kept text b (cc (legal_b, legal_b2, marked)), taken);
      }

-- A constraint over a well-formed arena begins well formed.
pub new_constraint-Ok :
    (table : TokenByteTable) (mode : JsonMode) (arena : Arena)
    → ArenaOk arena
    → ConstraintOk (new_constraint table mode arena)
unfolding new_constraint root
new_constraint-Ok table mode arena ok = record {
  arena_ok = ok;
  root_ok = omega (arith, ok.0);
  guide_ok = new_guide-Ok arena ok;
}
