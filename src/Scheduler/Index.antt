-- ===== src/Scheduler/Index.antt =====
-- src/scheduler/mod.rs, `push_to_running` and `remove_from_running`: the index follows the slots.
use oxydllm.Base.{
  ℕ, zero, suc, ◌+◌, ◌-◌, ◌<◌, ◌≡◌, ◌≢◌, ◌⊎◌, inl, inr, refl, ap, subst, ◌∙◌, List, [], ◌∷◌, ◌++◌,
  none, some, arith, ltb, ltb→lt, ◌==◌, if◌then◌else◌, length, length-set, get_elem?, set,
  Bool-cases, sum_by, sum_by-set, get_elem?-append_one, get_elem?-set_lem, get_elem?-some-lt,
  get_elem?_last,
}
use oxydllm.Sequence.{SequenceState}
use oxydllm.Scheduler.{
  Scheduler, index_get, index_remove, index_insert, drop_last, swap_remove, fix_moved,
  push_to_running, remove_from_running,
}

pub index_get-remove :
    (j k : ℕ) (m : List (ℕ × ℕ))
    → index_get j (index_remove k m) ≡ (if j == k then none else index_get j m)
unfolding index_get index_remove
index_get-remove j k [] = ground arith
index_get-remove j k ((i, v) ∷ m) = ground (arith, index_get-remove j k m)

pub index_get-insert :
    (j k i : ℕ) (m : List (ℕ × ℕ))
    → index_get j (index_insert k i m) ≡ (if j == k then some i else index_get j m)
unfolding index_get index_insert
index_get-insert j k i m = ground (arith, index_get-remove j k m)

module _ {A : Type 0} where
  get_elem?-drop_last :
      (xs : List A) (j : ℕ)
      → get_elem? (drop_last xs) j ≡ (if ltb (j + 1) (length xs) then get_elem? xs j else none)
  unfolding drop_last
  get_elem?-drop_last [] j = ground arith
  get_elem?-drop_last (x ∷ []) zero = ground arith
  get_elem?-drop_last (x ∷ []) (suc j) = ground arith
  get_elem?-drop_last (x ∷ y ∷ xs) zero = ground arith
  get_elem?-drop_last (x ∷ y ∷ xs) (suc j) = ground (arith, get_elem?-drop_last (y ∷ xs) j)

  -- The last element, by the length.
  sum_by-drop_last :
      (f : A → ℕ) (xs : List A) (n : ℕ) {l : A}
      → length xs ≡ suc n
      → get_elem? xs n ≡ some l
      → sum_by f (drop_last xs) + f l ≡ sum_by f xs
  unfolding drop_last
  sum_by-drop_last f [] n e h = absurd (omega arith)
  sum_by-drop_last f (x ∷ []) zero e h = ground arith
  sum_by-drop_last f (x ∷ []) (suc n) e h = absurd (omega arith)
  sum_by-drop_last f (x ∷ y ∷ xs) zero e h = absurd (omega arith)
  sum_by-drop_last f (x ∷ y ∷ xs) (suc n) e h =
      omega (arith, sum_by-drop_last f (y ∷ xs) n (omega arith) h)

  length-drop_last : (xs : List A) → length (drop_last xs) ≡ length xs - 1
  unfolding drop_last
  length-drop_last [] = omega arith
  length-drop_last (x ∷ []) = omega arith
  length-drop_last (x ∷ y ∷ xs) = omega (arith, length-drop_last (y ∷ xs))

  -- `swap_remove` at a slot in range: the last element stands there, and the list is one shorter.
  pub record Swapped (xs : List A) (i : ℕ) (x : A) (ys : List A) : Type 0 where
    pub last : A
    pub last_at : get_elem? xs (length xs - 1) ≡ some last
    pub length_after : length ys + 1 ≡ length xs
    pub get_after :
        (j : ℕ)
        → get_elem? ys j ≡ (
            if ltb (j + 1) (length xs)
            then (if j == i then some last else get_elem? xs j)
            else none)
    pub sum_after : (f : A → ℕ) → sum_by f ys + f x ≡ sum_by f xs

  pub swap_remove-Swapped :
      (xs : List A) (i : ℕ) {x : A} → get_elem? xs i ≡ some x → Swapped xs i x (swap_remove xs i)
  swap_remove-Swapped [] i e = absurd (ground arith)
  swap_remove-Swapped (z ∷ xs) i {x} e =
      let (l, at) = get_elem?_last z xs in
      let n = length xs in
      let written = set (z ∷ xs) i l in
      let len = length-set (z ∷ xs) i l in
      let at' : get_elem? (z ∷ xs) (length (z ∷ xs) - 1) ≡ some l =
        ap (get_elem? (z ∷ xs)) {x = suc n - 1} {y = n} (omega arith) ∙ at in
      let same : swap_remove (z ∷ xs) i ≡ drop_last written =
        unfold swap_remove in ground (arith, at') in
      let read = λ (j : ℕ). get_elem?-set_lem (z ∷ xs) i l j e in
      let lost =
        λ (f : A → ℕ). sum_by-drop_last f written n {l = l} len (ground (arith, read n, at)) in
      rw same (record {
        last = l;
        last_at = at';
        length_after = omega (arith, length-drop_last written, len);
        get_after = λ j. ground (arith, get_elem?-drop_last written j, read j, len);
        sum_after = λ f. omega (arith, lost f, sum_by-set f (z ∷ xs) i l e);
      })

module _ {P C : Type 0} where
  -- The index maps the id of each running sequence to its slot, and knows no other id.
  pub record IndexOk (running : List (SequenceState P C)) (index : List (ℕ × ℕ)) : Type 0 where
    pub to_slot :
        (i : ℕ) (q : SequenceState P C)
        → get_elem? running i ≡ some q
        → index_get q.id index ≡ some i
    pub from_slot :
        (k i : ℕ)
        → index_get k index ≡ some i
        → (q : SequenceState P C) × (get_elem? running i ≡ some q) × (q.id ≡ k)

  module _ (running : List (SequenceState P C)) (index : List (ℕ × ℕ))
      (v : IndexOk running index) where
    push-IndexOk :
        (q : SequenceState P C)
        → index_get q.id index ≡ none
        → IndexOk (running ++ q ∷ []) (index_insert q.id (length running) index)
    push-IndexOk q fresh = record {
      to_slot = λ i r e. ground (
        arith,
        index_get-insert r.id q.id (length running) index,
        get_elem?-append_one running q i,
        v.to_slot i r,
        fresh,
      );
      from_slot = λ k i e.
          let at = index_get-insert k q.id (length running) index in
          elim (Bool-cases (k == q.id)) [
            | inl new ↦ (
              q,
              ground (arith, at, e, new, get_elem?-append_one running q i),
              ground (arith, new),
            )
            | inr old ↦
                let (r, here, named) = v.from_slot k i (ground (arith, at, e, old)) in
                (
                  r,
                  ground (
                    arith,
                    here,
                    get_elem?-append_one running q i,
                    get_elem?-some-lt running i here,
                  ),
                  named,
                )
          ];
    }

    module _ (i : ℕ) (q : SequenceState P C) (here : get_elem? running i ≡ some q) where
      abbrev rest : List (SequenceState P C)
      rest = swap_remove running i

      abbrev kept : List (ℕ × ℕ)
      kept = fix_moved i rest (index_remove q.id index)

      -- A slot other than `i` holds another id.
      other_id :
          (j : ℕ) (r : SequenceState P C) → get_elem? running j ≡ some r → j ≢ i → r.id ≢ q.id
      other_id j r e ne same =
          ground (arith, v.to_slot j r e, v.to_slot i q here, ap (λ k. index_get k index) same)

      -- What the fixed index says, where the last element moves and where it was the one removed.
      kept_moved :
          (w : Swapped running i q rest) (k : ℕ)
          → i + 1 < length running
          → index_get k kept
            ≡ (if k == w.last.id then some i else if k == q.id then none else index_get k index)
      unfolding fix_moved
      kept_moved w k lt = ground (
        arith,
        w.get_after i,
        index_get-insert k w.last.id i (index_remove q.id index),
        index_get-remove k q.id index,
      )

      kept_last :
          (w : Swapped running i q rest) (k : ℕ)
          → i + 1 ≡ length running
          → index_get k kept ≡ (if k == q.id then none else index_get k index)
      unfolding fix_moved
      kept_last w k eq = ground (arith, w.get_after i, index_get-remove k q.id index)

      module _ (w : Swapped running i q rest) where
        rest_slot :
            (j : ℕ) (r : SequenceState P C)
            → get_elem? rest j ≡ some r
            → ((j ≡ i) × (r ≡ w.last) × (i + 1 < length running))
              ⊎ ((j ≢ i) × (get_elem? running j ≡ some r) × (j + 1 < length running))
        rest_slot j r e = ground (arith, w.get_after j)

        -- Only the last slot holds the id of the last element.
        last_id :
            (j : ℕ) (r : SequenceState P C)
            → get_elem? running j ≡ some r
            → r.id ≡ w.last.id
            → j ≡ length running - 1
        last_id j r e same = ground (
          arith,
          v.to_slot j r e,
          v.to_slot (length running - 1) w.last w.last_at,
          ap (λ k. index_get k index) same,
        )

        same_element :
            (j : ℕ) (r t : SequenceState P C)
            → get_elem? running j ≡ some r
            → get_elem? running j ≡ some t
            → r ≡ t
        same_element j r t e f = cc

        not_last :
            (j : ℕ) (r : SequenceState P C)
            → get_elem? running j ≡ some r
            → r.id ≢ w.last.id
            → j ≢ length running - 1
        not_last j r e ne same =
            let e' : get_elem? running (length running - 1) ≡ some r =
              subst (λ n. get_elem? running n ≡ some r) same e in
            ne (ap (λ t. t.id) (same_element (length running - 1) r w.last e' w.last_at))

        other_slot :
            (j : ℕ) (r : SequenceState P C)
            → get_elem? running j ≡ some r
            → j ≢ i
            → j + 1 < length running
            → get_elem? rest j ≡ some r
        other_slot j r e far inside = ground (arith, w.get_after j)

        inside_of :
            (j : ℕ) (r : SequenceState P C) → get_elem? running j ≡ some r → j < length running
        inside_of j r e = ltb→lt j (length running) (get_elem?-some-lt running j e)

        remove_moved : i + 1 < length running → IndexOk rest kept
        remove_moved lt = record {
          to_slot = λ j r e. elim (rest_slot j r e) [
            | inl (at, is_last, _) ↦ ground (arith, kept_moved w r.id lt)
            | inr (ne, e', inside) ↦
                ground (
                  arith,
                  kept_moved w r.id lt,
                  other_id j r e' ne,
                  last_id j r e',
                  v.to_slot j r e',
                )
          ];
          from_slot = λ k j e. elim (Bool-cases (k == w.last.id)) [
            | inl new ↦ (
              w.last,
              ground (arith, kept_moved w k lt, e, new, w.get_after i),
              ground (arith, new),
            )
            | inr old ↦
                let (r, e', named) = v.from_slot k j (ground (arith, kept_moved w k lt, e, old)) in
                let far : j ≢ i = λ same. ground (
                  arith,
                  kept_moved w k lt,
                  e,
                  old,
                  same_element i r q (subst (λ n. get_elem? running n ≡ some r) same e') here,
                ) in
                let inside : j + 1 < length running =
                  omega (arith, inside_of j r e', not_last j r e' (ground (arith, old))) in
                (r, other_slot j r e' far inside, named)
          ];
        }

        remove_last : i + 1 ≡ length running → IndexOk rest kept
        remove_last eq = record {
          to_slot = λ j r e. elim (rest_slot j r e) [
            | inl (at, is_last, lt) ↦ absurd (omega arith)
            | inr (ne, e', inside) ↦
                ground (arith, kept_last w r.id eq, other_id j r e' ne, v.to_slot j r e')
          ];
          from_slot = λ k j e.
              let (r, e', named) = v.from_slot k j (ground (arith, kept_last w k eq)) in
              let far : j ≢ i = λ same. ground (
                arith,
                kept_last w k eq,
                e,
                same_element i r q (subst (λ n. get_elem? running n ≡ some r) same e') here,
              ) in
              (r, other_slot j r e' far (omega (arith, inside_of j r e', far)), named);
        }

        remove-IndexOk : IndexOk rest kept
        remove-IndexOk = elim (Bool-cases (ltb (i + 1) (length running))) [
          | inl lt ↦ remove_moved (ltb→lt _ _ lt)
          | inr ge ↦ remove_last (ground (arith, ge, inside_of i q here))
        ]

module _ {P C Pool : Type 0} (s : Scheduler P C Pool)
    (v : IndexOk s.running_set s.running_index) where
  pub push_to_running-IndexOk :
      (q : SequenceState P C)
      → index_get q.id s.running_index ≡ none
      → IndexOk (push_to_running q s).running_set (push_to_running q s).running_index
  unfolding push_to_running
  push_to_running-IndexOk q fresh = push-IndexOk s.running_set s.running_index v q fresh

  -- A sequence whose id is not running joins the running set behind all others, the index leads from its id to its
  -- slot, and from every id that is running to the slot that holds it, and to no other.
  pub push_to_running-Joined :
      (q : SequenceState P C)
      → index_get q.id s.running_index ≡ none
      → ((push_to_running q s).running_set ≡ s.running_set ++ q ∷ [])
        × (index_get q.id (push_to_running q s).running_index ≡ some (length s.running_set))
        × IndexOk (push_to_running q s).running_set (push_to_running q s).running_index
        × ((push_to_running q s).waiting_queue ≡ s.waiting_queue)
  unfolding push_to_running
  push_to_running-Joined q fresh =
      let ok = push_to_running-IndexOk q fresh in
      let last : get_elem? (s.running_set ++ q ∷ []) (length s.running_set) ≡ some q =
        ground (arith, get_elem?-append_one s.running_set q (length s.running_set)) in
      (refl, ok.to_slot (length s.running_set) q last, ok, refl)

  -- The scheduler after slot `i`, which held `q`, was given up.
  abbrev pub without_slot : ℕ → SequenceState P C → Scheduler P C Pool
  without_slot i q = record s {
    running_set = swap_remove s.running_set i;
    running_index = fix_moved i (swap_remove s.running_set i) (index_remove q.id s.running_index);
  }

  -- Removing the sequence of a slot gives that sequence, keeps all others, and the index still holds exactly
  -- the slots.
  pub remove_from_running-IndexOk :
      (i : ℕ) (q : SequenceState P C)
      → get_elem? s.running_set i ≡ some q
      → (remove_from_running i s ≡ some (q, without_slot i q))
        × IndexOk (without_slot i q).running_set (without_slot i q).running_index
        × ((f : SequenceState P C → ℕ)
            → sum_by f (without_slot i q).running_set + f q ≡ sum_by f s.running_set)
  unfolding remove_from_running
  remove_from_running-IndexOk i q here =
      let w = swap_remove-Swapped s.running_set i here in
      (rw here refl, remove-IndexOk s.running_set s.running_index v i q here w, w.sum_after)
