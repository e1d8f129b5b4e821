-- ===== src/Scheduler/Liveness.antt =====
-- src/scheduler/mod.rs, `schedule`: an idle scheduler starts the first prompt whose blocks are there, whatever its
-- length.
use oxydllm.Base.{
  ℕ, ◌-◌, ◌≤◌, ◌<◌, ◌≡◌, refl, ap, ◌∙◌, false, List, [], ◌∷◌, ◌++◌, map, Option, some, arith,
  length, inl, inr, Option-cases,
}
use oxydllm.Lru.{LruCache}
use oxydllm.Paged.Allocator.{num_free_blocks}
use oxydllm.PrefixCache.{Hasher, PrefixEntry, PrefixCache}
use oxydllm.Sequence.{SequenceState}
use oxydllm.Scheduler.{Scheduler, push_to_running}
use oxydllm.Scheduler.Schedule.{
  Progress, Admission, blocks_needed_for_prefill, prefill_room, admit, admit_from, prefills, start,
  needing_block, grant_blocks, scan_running, schedule,
}
use oxydllm.Scheduler.Good.{Good}
use oxydllm.Scheduler.Order.{admit_from-Admitted, admit-Kept, admit-waiting, started}

module _ (h : Hasher) (L : LruCache PrefixEntry) {P C Pool : Type 0} where
  prefill_room_fits :
      (q : SequenceState P C) (a : Admission h L P C Pool) (n : ℕ)
      → blocks_needed_for_prefill h L a.progress.scheduler.block_size q a.progress.cache ≡ n
      → n ≤ a.free_blocks
      → prefill_room h L q a ≡ some (n, a)
  unfolding prefill_room
  prefill_room_fits q a n e fits = elim (Option-cases a.progress.cache) [
    | inl none_there ↦ ground (arith, e, none_there)
    | inr (pc, there) ↦ ground (arith, e, there)
  ]

  -- The first prompt starts, before what `more` says.
  pub record Starts (s : Scheduler P C Pool) (q : SequenceState P C) (r : Progress h L P C Pool)
      : Type 0 where
    pub more : List (SequenceState P C)
    pub scheduled : r.scheduled ≡ prefills q.id ∷ map (λ x. prefills x.id) more
    pub runs : r.scheduler.running_set ≡ started q ∷ map started more

  module _ (s : Scheduler P C Pool) (cache : Option (PrefixCache h L)) (q : SequenceState P C)
      (ws : List (SequenceState P C)) where
    idle_start :
        s.running_set ≡ []
        → (needing_block h L s ≡ [])
          × (start h L s cache ≡ record {
            scheduler = s;
            cache = cache;
            scheduled = [];
            budget = s.config.max_tokens_per_step;
            reserved = 0;
          })
    unfolding scan_running
    idle_start e = (rw (e, scan_running) refl, rw (e, scan_running) refl)

    -- The step as the admission loop finds it.
    abbrev idle : Admission h L P C Pool
    idle = record {
      progress = record {
        scheduler = s;
        cache = cache;
        scheduled = [];
        budget = s.config.max_tokens_per_step;
        reserved = 0;
      };
      free_blocks = num_free_blocks s.allocators - 0;
      prefill_scheduled = false;
    }

    schedule-idle :
        (d : Admission h L P C Pool)
        → s.running_set ≡ []
        → s.waiting_queue ≡ q ∷ ws
        → admit_from h L (q ∷ ws) idle ≡ some d
        → schedule h L s cache ≡ some d.progress
    unfolding schedule grant_blocks
    schedule-idle d none_running waits e =
        let (needs, begun) = idle_start none_running in
        let begins : admit_from h L s.waiting_queue idle ≡ some d =
          ap (λ l. admit_from h L l idle) waits ∙ e in
        rw (needs, begun) (rw begins refl)

    admit_first :
        (n : ℕ) (d : Admission h L P C Pool)
        → s.running_set ≡ []
        → 0 < s.config.max_num_sequences
        → 0 < s.config.max_tokens_per_step
        → prefill_room h L q idle ≡ some (n, idle)
        → n ≤ num_free_blocks s.allocators
        → admit_from h L ws (admit h L q ws n idle) ≡ some d
        → admit_from h L (q ∷ ws) idle ≡ some d
    unfolding admit_from
    admit_first n d none_running seqs budget room fits further =
        ground (arith, ap length none_running, room, further)

    -- From a good state in which nothing runs, with room for a sequence and for a token, the first waiting prompt
    -- is scheduled in this step and runs, before all others, as soon as the free blocks are enough for what it
    -- needs beyond its cached prefix: however long it is, and whatever the token budget of the step.
    pub schedule-Starts :
        Good h L s cache
        → s.running_set ≡ []
        → s.waiting_queue ≡ q ∷ ws
        → 0 < s.config.max_num_sequences
        → 0 < s.config.max_tokens_per_step
        → blocks_needed_for_prefill h L s.block_size q cache ≤ num_free_blocks s.allocators
        → (r : Progress h L P C Pool) × (schedule h L s cache ≡ some r) × Starts s q r
    unfolding admit push_to_running
    schedule-Starts v none_running waits seqs budget fits =
        let n = blocks_needed_for_prefill h L s.block_size q cache in
        let room = prefill_room_fits q idle n refl (omega (arith, fits)) in
        let k = admit-Kept h L q ws n idle v waits in
        let (d, further, m) =
          admit_from-Admitted h L ws (admit h L q ws n idle) k.good
            (admit-waiting h L q ws n idle) in
        (
          d.progress,
          schedule-idle d none_running waits
              (admit_first n d none_running seqs budget room fits further),
          record {
            more = m.taken;
            scheduled = m.scheduled;
            runs =
                m.runs
                ∙ ap
                    (λ (l : List (SequenceState P C)). (l ++ started q ∷ []) ++ map started m.taken)
                    none_running;
          },
        )
