-- ===== src/Manager/Slots.antt =====
-- src/models/manager.rs: finding the model that was used least recently, and taking its slot away.
use oxydllm.Base.{
  ℕ, suc, ◌+◌, ◌≤◌, ◌≡◌, refl, ap, subst, true, false, inl, inr, List, [], ◌∷◌, Option, none, some,
  leb, ◌==◌, length, Bool-cases, Option-cases, arith, leb→le,
}
use oxydllm.Manager.{
  ReadySlot, SlotState, loading, ready, slot_bytes, total_loaded_bytes, least_recent, slot_of,
  remove_slot,
}

-- No slot has the name.
abbrev pub Absent : ℕ → List (ℕ × SlotState) → Type 0
Absent id [] = Unit
Absent id ((id', s) ∷ slots) = ((id' == id) ≡ false) × Absent id slots

-- Every name has one slot.
abbrev pub Unique : List (ℕ × SlotState) → Type 0
Unique [] = Unit
Unique ((id, s) ∷ slots) = Absent id slots × Unique slots

-- Every ready model was used at `t` or later.
abbrev pub Since : ℕ → List (ℕ × SlotState) → Type 0
Since t [] = Unit
Since t ((id, loading waiters) ∷ slots) = Since t slots
Since t ((id, ready s) ∷ slots) = (t ≤ s.last_used) × Since t slots

-- The models that load, with those who wait for them.
abbrev pub loads : List (ℕ × SlotState) → List (ℕ × List ℕ)
loads [] = []
loads ((id, loading waiters) ∷ slots) = (id, waiters) ∷ loads slots
loads ((id, ready s) ∷ slots) = loads slots

-- `slots'` is `slots` without the ready slot `s`.
pub record Removed (slots slots' : List (ℕ × SlotState)) (s : ReadySlot) : Type 0 where
  pub bytes : total_loaded_bytes slots ≡ slot_bytes s + total_loaded_bytes slots'
  pub fewer : length slots ≡ suc (length slots')
  pub loads_kept : loads slots' ≡ loads slots
  pub absent : (id : ℕ) → Absent id slots → Absent id slots'
  pub unique : Unique slots → Unique slots'
  pub since : (t : ℕ) → Since t slots → Since t slots'

not_ready : {waiters : List ℕ} {s : ReadySlot} → ¬ (some (loading waiters) ≡ some (ready s))
not_ready e = cc

one_slot : {s s' : ReadySlot} → some (ready s) ≡ some (ready s') → s ≡ s'
one_slot e = cc

pub remove_slot-Removed :
    (id : ℕ) (slots : List (ℕ × SlotState)) (s : ReadySlot)
    → slot_of id slots ≡ some (ready s)
    → Removed slots (remove_slot id slots) s
unfolding slot_of remove_slot total_loaded_bytes
remove_slot-Removed id [] s e = absurd cc
remove_slot-Removed id ((id', loading waiters) ∷ slots) s e = elim (Bool-cases (id' == id)) [
  | inl here ↦ absurd (not_ready (rw here at e))
  | inr there ↦
      let r : Removed slots (remove_slot id slots) s =
        remove_slot-Removed id slots s (rw there at e) in
      rw there (record {
        bytes = r.bytes;
        fewer = ap suc r.fewer;
        loads_kept = ap (λ l. (id', waiters) ∷ l) r.loads_kept;
        absent = λ i a. (a.0, r.absent i a.1);
        unique = λ u. (r.absent id' u.0, r.unique u.1);
        since = r.since;
      })
]
remove_slot-Removed id ((id', ready s') ∷ slots) s e = elim (Bool-cases (id' == id)) [
  | inl here ↦
      let same : s' ≡ s = one_slot (rw here at e) in
      subst (λ x. Removed ((id', ready s') ∷ slots) (remove_slot id ((id', ready s') ∷ slots)) x)
        same
        (rw here (record {
          bytes = refl;
          fewer = refl;
          loads_kept = refl;
          absent = λ i a. a.1;
          unique = λ u. u.1;
          since = λ t h. h.1;
        }))
  | inr there ↦
      let r : Removed slots (remove_slot id slots) s =
        remove_slot-Removed id slots s (rw there at e) in
      rw there (record {
        bytes = omega (arith, r.bytes);
        fewer = ap suc r.fewer;
        loads_kept = r.loads_kept;
        absent = λ i a. (a.0, r.absent i a.1);
        unique = λ u. (r.absent id' u.0, r.unique u.1);
        since = λ t h. (h.0, r.since t h.1);
      })
]

Absent-slot_of :
    (i id : ℕ) (slots : List (ℕ × SlotState)) (s : SlotState)
    → Absent i slots
    → slot_of id slots ≡ some s
    → (i == id) ≡ false
unfolding slot_of
Absent-slot_of i id [] s a e = absurd cc
Absent-slot_of i id ((id', s') ∷ slots) s a e = elim (Bool-cases (id' == id)) [
  | inl here ↦ ground (arith, here, a.0)
  | inr there ↦ Absent-slot_of i id slots s a.1 (rw there at e)
]

-- What is evicted: the slot of that name is ready, and no ready model was used before it.
pub record Oldest (slots : List (ℕ × SlotState)) (id : ℕ) (s : ReadySlot) : Type 0 where
  pub found : slot_of id slots ≡ some (ready s)
  pub oldest : Since s.last_used slots

Since-le : (t u : ℕ) (slots : List (ℕ × SlotState)) → t ≤ u → Since u slots → Since t slots
Since-le t u [] le h = tt
Since-le t u ((id, loading waiters) ∷ slots) le h = Since-le t u slots le h
Since-le t u ((id, ready s) ∷ slots) le h = (omega (arith, le, h.0), Since-le t u slots le h.1)

-- Where no slot is ready, all of them load.
pub least_recent-none :
    (slots : List (ℕ × SlotState))
    → least_recent slots ≡ none
    → (length (loads slots) ≡ length slots) × ((t : ℕ) → Since t slots)
unfolding least_recent
least_recent-none [] e = (refl, λ t. tt)
least_recent-none ((id, loading waiters) ∷ slots) e =
    let r = least_recent-none slots e in (ap suc r.0, r.1)
least_recent-none ((id, ready s) ∷ slots) e = absurd (elim (Option-cases (least_recent slots)) [
  | inl o ↦ not_none (rw o at e)
  | inr ((i, t), o) ↦ elim (Bool-cases (leb s.last_used t)) [
    | inl le ↦ not_none (rw (o, le) at e)
    | inr gt ↦ not_none (rw (o, gt) at e)
  ]
])
  where
    not_none : {x : ℕ × ℕ} → ¬ (some x ≡ none)
    not_none e = cc

first_Oldest :
    (id id' used : ℕ) (s : ReadySlot) (slots : List (ℕ × SlotState))
    → ◌≡◌ {A = Option (ℕ × ℕ)} (some (id', s.last_used)) (some (id, used))
    → Since s.last_used slots
    → (s' : ReadySlot) × (s'.last_used ≡ used) × Oldest ((id', ready s) ∷ slots) id s'
unfolding slot_of
first_Oldest id id' used s slots e h =
    let ids : id' ≡ id = first_of e in
    let here : (id' == id) ≡ true = ground (arith, ids) in
    (s, second_of e, record { found = rw (slot_of, here) refl; oldest = (omega arith, h) })
  where
    first_of : {i i' u u' : ℕ} → ◌≡◌ {A = Option (ℕ × ℕ)} (some (i, u)) (some (i', u')) → i ≡ i'
    first_of e = cc

    second_of : {i i' u u' : ℕ} → ◌≡◌ {A = Option (ℕ × ℕ)} (some (i, u)) (some (i', u')) → u ≡ u'
    second_of e = cc

pub least_recent-Oldest :
    (slots : List (ℕ × SlotState)) (id used : ℕ)
    → Unique slots
    → least_recent slots ≡ some (id, used)
    → (s : ReadySlot) × (s.last_used ≡ used) × Oldest slots id s
unfolding least_recent slot_of
least_recent-Oldest [] id used u e = absurd cc
least_recent-Oldest ((id', loading waiters) ∷ slots) id used u e =
    let r : (s : ReadySlot) × (s.last_used ≡ used) × Oldest slots id s =
      least_recent-Oldest slots id used u.1 e in
    let other : (id' == id) ≡ false = Absent-slot_of id' id slots (ready r.0) u.0 r.2.found in
    (r.0, r.1, record { found = rw (slot_of, other) r.2.found; oldest = r.2.oldest })
least_recent-Oldest ((id', ready s') ∷ slots) id used u e =
    elim (Option-cases (least_recent slots)) [
      | inl o ↦
          first_Oldest id id' used s' slots (rw o at e) ((least_recent-none slots o).1 s'.last_used)
      | inr ((i, t), o) ↦
          let r : (s : ReadySlot) × (s.last_used ≡ t) × Oldest slots i s =
            least_recent-Oldest slots i t u.1 o in
          elim (Bool-cases (leb s'.last_used t)) [
            | inl le ↦
                let before : s'.last_used ≤ r.0.last_used = omega (arith, leb→le _ _ le, r.1) in
                first_Oldest id id' used s' slots (rw (o, le) at e)
                  (Since-le s'.last_used r.0.last_used slots before r.2.oldest)
            | inr gt ↦
                let same : ◌≡◌ {A = Option (ℕ × ℕ)} (some (i, t)) (some (id, used)) =
                  rw (o, gt) at e in
                let other : (id' == i) ≡ false =
                  Absent-slot_of id' i slots (ready r.0) u.0 r.2.found in
                let later : t ≤ s'.last_used = ground (arith, gt) in
                subst
                  (λ x.
                    (s : ReadySlot) × (s.last_used ≡ x.1) × Oldest ((id', ready s') ∷ slots) x.0 s)
                  (in_some same)
                  (
                    r.0,
                    r.1,
                    record {
                      found = rw (slot_of, other) r.2.found;
                      oldest = (omega (arith, later, r.1), r.2.oldest);
                    },
                  )
          ]
    ]
  where
    in_some : {x y : ℕ × ℕ} → some x ≡ some y → x ≡ y
    in_some e = cc
