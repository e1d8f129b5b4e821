-- ===== src/Scheduler/Order.antt =====
-- src/scheduler/mod.rs, `schedule`: what one step does to the queues, and that it cannot panic.
use mathlib.Core.List.{append_assoc, append-nil}
use oxydllm.Base.{
  ℕ, ◌+◌, ◌-◌, ◌%◌, ◌==◌, if◌then◌else◌, ◌≤◌, ◌<◌, ◌≡◌, inl, inr, refl, sym, ap, ◌∙◌, ◌&&◌, List,
  [], ◌∷◌, ◌++◌, map, Option, some, arith, ltb, max, length, length-append, count, sum_by,
  sum_by-append, Bool-cases,
}
use oxydllm.Lru.{LruCache}
use oxydllm.Paged.Allocator.{num_free_blocks}
use oxydllm.PrefixCache.{Hasher, PrefixEntry, PrefixCache}
use oxydllm.PrefixCache.Accounts.{Accounts-eq}
use oxydllm.Sequence.{SequenceState, running, prefill}
use oxydllm.Scheduler.{Scheduler, ScheduledSequence, push_to_running}
use oxydllm.Scheduler.Index.{push_to_running-IndexOk}
use oxydllm.Scheduler.Schedule.{Progress, Admission, Scan, admit, admit_from}
use oxydllm.Scheduler.Good.{Good, is, holds_at, draft_at, misfit, tally, fresh_id}
use oxydllm.Scheduler.Preempt.{Kept}
use oxydllm.Scheduler.Grant.{Kept-refl, Kept-trans, decoding}
use oxydllm.Scheduler.Admit.{RoomFor, prefill_room-RoomFor}

-- A sequence as it starts to run.
abbrev pub started : {P C : Type 0} → SequenceState P C → SequenceState P C
started q = record q { status = running; phase = prefill }

-- A prompt as it is scheduled.
abbrev pub prefilling : {P C : Type 0} → SequenceState P C → ScheduledSequence
prefilling q = record { id = q.id; phase = prefill }

module _ {P C : Type 0} where
  -- One where the sequence is `j` and its next token needs a new block: it has processed tokens, and filled its blocks.
  abbrev pub on_boundary : ℕ → ℕ → SequenceState P C → ℕ
  on_boundary block_size j q =
      if ltb 0 q.num_processed_tokens && q.num_processed_tokens % block_size == 0 then is j q else 0

  -- One where it is `j` and there is room for its next token.
  abbrev pub off_boundary : ℕ → ℕ → SequenceState P C → ℕ
  off_boundary block_size j q = is j q - on_boundary block_size j q

  pub sum_by-boundary :
      (block_size j : ℕ) (qs : List (SequenceState P C))
      → sum_by (on_boundary block_size j) qs + sum_by (off_boundary block_size j) qs
        ≡ sum_by (is j) qs
  sum_by-boundary bs j [] = refl
  sum_by-boundary bs j (q ∷ qs) = ground (arith, sum_by-boundary bs j qs)

  -- What the scan of the running set does: the decodes that need no block are scheduled while the budget lasts.
  record Scanned (block_size : ℕ) (qs : List (SequenceState P C)) (r r' : Scan) : Type 0 where
    plain : List ℕ
    scheduled : r'.scheduled ≡ r.scheduled ++ map decoding plain
    among : (j : ℕ) → count j plain ≤ sum_by (off_boundary block_size j) qs
    needing :
        (j : ℕ) → count j r'.needing ≤ count j r.needing + sum_by (on_boundary block_size j) qs
    spent : r'.budget + length plain ≡ r.budget

module _ (h : Hasher) (L : LruCache PrefixEntry) {P C Pool : Type 0} where
  -- What the admission loop does: a first part of the queue runs, in order, and is scheduled in order.
  pub record Admitted (ws : List (SequenceState P C)) (a b : Admission h L P C Pool) : Type 0 where
    pub kept : Kept h L a.progress b.progress
    pub taken : List (SequenceState P C)
    pub order : taken ++ b.progress.scheduler.waiting_queue ≡ ws
    pub runs :
        b.progress.scheduler.running_set ≡ a.progress.scheduler.running_set ++ map started taken
    pub scheduled : b.progress.scheduled ≡ a.progress.scheduled ++ map prefilling taken
    pub limit :
        length b.progress.scheduler.running_set
        ≤ max
            (length a.progress.scheduler.running_set)
            a.progress.scheduler.config.max_num_sequences

  -- The loop stops here.
  stopped :
      (ws : List (SequenceState P C)) (a b : Admission h L P C Pool)
      → RoomFor h L a b
      → a.progress.scheduler.waiting_queue ≡ ws
      → Admitted ws a b
  stopped ws a b r e = record {
    kept = r.kept;
    taken = [];
    order = r.same_waiting ∙ e;
    runs = r.same_running ∙ sym (append-nil _);
    scheduled = r.same_scheduled ∙ sym (append-nil _);
    limit = omega (arith, ap length r.same_running);
  }

  pub admit-Kept :
      (q : SequenceState P C) (rest : List (SequenceState P C)) (needed : ℕ)
      (a : Admission h L P C Pool)
      → Good h L a.progress.scheduler a.progress.cache
      → a.progress.scheduler.waiting_queue ≡ q ∷ rest
      → Kept h L a.progress (admit h L q rest needed a).progress
  unfolding admit push_to_running
  admit-Kept q rest needed a v e =
      let s = a.progress.scheduler in
      let split = λ (f : SequenceState P C → ℕ). ap (sum_by f) e in
      let grown = λ (f : SequenceState P C → ℕ). sum_by-append f s.running_set (started q ∷ []) in
      record {
        good = record {
          index_ok =
              push_to_running-IndexOk (record s { waiting_queue = rest }) v.index_ok (started q)
                (fresh_id h L s a.progress.cache q.id v (ground (arith, split (is q.id))));
          distinct = λ k. omega (arith, v.distinct k, split (is k), grown (is k));
          layered =
              let f : SequenceState P C → ℕ =
                misfit (length s.allocators) (length s.draft_allocators) in
              omega (arith, v.layered, split f, grown f);
          accounts =
              Accounts-eq _ _ s.allocators
                (λ l b. omega (arith, split (holds_at l b), grown (holds_at l b))) v.accounts;
          drafts =
              Accounts-eq _ _ s.draft_allocators
                (λ l b. omega (arith, split (draft_at l b), grown (draft_at l b))) v.drafts;
          small = λ l b. omega (arith, v.small l b, split (holds_at l b), grown (holds_at l b));
          draft_small =
              λ l b. omega (arith, v.draft_small l b, split (draft_at l b), grown (draft_at l b));
        };
        same_ids = λ k. omega (arith, split (is k), grown (is k));
        more_free = omega arith;
        same_config = refl;
        same_block_size = refl;
      }

  admit_one-Admitted :
      (q : SequenceState P C) (rest : List (SequenceState P C)) (n : ℕ)
      (a b d : Admission h L P C Pool)
      → RoomFor h L a b
      → length a.progress.scheduler.running_set < a.progress.scheduler.config.max_num_sequences
      → Kept h L b.progress (admit h L q rest n b).progress
      → Admitted rest (admit h L q rest n b) d
      → Admitted (q ∷ rest) a d
  unfolding admit push_to_running
  admit_one-Admitted q rest n a b d room below k m = record {
    kept = Kept-trans h L room.kept (Kept-trans h L k m.kept);
    taken = q ∷ m.taken;
    order = ap (◌∷◌ q) m.order;
    runs =
        m.runs
        ∙ append_assoc b.progress.scheduler.running_set (started q ∷ []) (map started m.taken)
        ∙ ap (λ l. l ++ started q ∷ map started m.taken) room.same_running;
    scheduled =
        m.scheduled
        ∙ append_assoc b.progress.scheduled (prefilling q ∷ []) (map prefilling m.taken)
        ∙ ap (λ l. l ++ prefilling q ∷ map prefilling m.taken) room.same_scheduled;
    limit = omega (
      arith,
      m.limit,
      ap length room.same_running,
      length-append b.progress.scheduler.running_set (started q ∷ []),
      ap (λ c. c.max_num_sequences) room.kept.same_config,
    );
  }

  pub admit-waiting :
      (q : SequenceState P C) (rest : List (SequenceState P C)) (n : ℕ) (b : Admission h L P C Pool)
      → (admit h L q rest n b).progress.scheduler.waiting_queue ≡ rest
  unfolding admit push_to_running
  admit-waiting q rest n b = refl

  -- From good states the admission loop cannot panic: it admits a first part of the queue, in order, and runs
  -- no more than the configured number of sequences or than were running.
  pub admit_from-Admitted :
      (ws : List (SequenceState P C)) (a : Admission h L P C Pool)
      → Good h L a.progress.scheduler a.progress.cache
      → a.progress.scheduler.waiting_queue ≡ ws
      → (b : Admission h L P C Pool) × (admit_from h L ws a ≡ some b) × Admitted ws a b
  unfolding admit_from
  admit_from-Admitted [] a v e = (
    a,
    refl,
    stopped [] a a
        (record {
          kept = Kept-refl h L a.progress v;
          same_running = refl;
          same_waiting = refl;
          same_scheduled = refl;
        })
        e,
  )
  admit_from-Admitted (q ∷ rest) a v e =
      let (n, b, r, room) = prefill_room-RoomFor h L q a v in
      let k = admit-Kept q rest n b room.kept.good (room.same_waiting ∙ e) in
      let (d, further, m) =
        admit_from-Admitted rest (admit h L q rest n b) k.good (admit-waiting q rest n b) in
      let same : RoomFor h L a a = record {
        kept = Kept-refl h L a.progress v;
        same_running = refl;
        same_waiting = refl;
        same_scheduled = refl;
      } in
      let s = a.progress.scheduler in
      elim (Bool-cases
        (ltb (length s.running_set) s.config.max_num_sequences && ltb 0 a.progress.budget)) [
          | inr full ↦ (a, rw full refl, stopped (q ∷ rest) a a same e)
          | inl open_slot ↦ elim (Bool-cases (ltb b.free_blocks n)) [
            | inl short ↦ (b, rw (open_slot, r, short) refl, stopped (q ∷ rest) a b room e)
            | inr fits ↦
                elim (Bool-cases
                  (ltb b.progress.budget (length q.all_tokens) && b.prefill_scheduled)) [
                    | inl wait ↦
                        (b, rw (open_slot, r, fits, wait) refl, stopped (q ∷ rest) a b room e)
                    | inr go ↦ (
                      d,
                      rw (open_slot, r, fits, go) further,
                      admit_one-Admitted q rest n a b d room (ground (arith, open_slot)) k m,
                    )
                  ]
          ]
        ]

  -- One step: the decodes of `plain`, who need no block, and of `granted`, who need one and have one free, are scheduled;
  -- `front` was preempted and `taken` admitted, in this order of the queue.
  pub record Stepped (s : Scheduler P C Pool) (cache : Option (PrefixCache h L))
      (r : Progress h L P C Pool) : Type 0 where
    pub good : Good h L r.scheduler r.cache
    pub same_ids : (k : ℕ) → tally (is k) r.scheduler ≡ tally (is k) s
    pub same_config : r.scheduler.config ≡ s.config
    pub plain : List ℕ
    pub granted : List ℕ
    pub plain_ok : (j : ℕ) → count j plain ≤ sum_by (off_boundary s.block_size j) s.running_set
    pub granted_ok : (j : ℕ) → count j granted ≤ sum_by (on_boundary s.block_size j) s.running_set
    pub running : (j : ℕ) → count j plain + count j granted ≤ sum_by (is j) r.scheduler.running_set
    pub backed : length granted ≤ num_free_blocks r.scheduler.allocators
    pub within_budget : length plain + length granted ≤ s.config.max_tokens_per_step
    pub front : List (SequenceState P C)
    pub taken : List (SequenceState P C)
    pub order : taken ++ r.scheduler.waiting_queue ≡ front ++ s.waiting_queue
    pub scheduled :
        r.scheduled ≡ (map decoding plain ++ map decoding granted) ++ map prefilling taken
    pub limit :
        length r.scheduler.running_set ≤ max (length s.running_set) s.config.max_num_sequences
