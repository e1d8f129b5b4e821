-- ===== src/Engine/Forward.antt =====
-- src/engine.rs: a pass runs every token of its batch once, in order, or stops at the forward that the device refuses.
use mathlib.Core.List.{append_assoc, append-nil}
use oxydllm.Base.{
  ℕ, zero, suc, ◌+◌, ◌-◌, ◌≤◌, ◌<◌, ◌≡◌, refl, sym, ap, ◌∙◌, subst, max, Bool, true, false, inl,
  inr, List, [], ◌∷◌, ◌++◌, map, Option, none, some, length, length-append, get_elem?, range, ltb,
  leb, if◌then◌else◌, Bool-cases, Option-cases, ltb→lt, leb→le, arith,
}
use oxydllm.Engine.{
  prefill, decode, ForwardChunk, chunk_len, sum, ChunkPlanner, new_planner, Filling, fill, next,
  PrefillPacer, shrink, PassResult, ran, failed, paced, run_chunks,
}
use oxydllm.Engine.Owners.{owners, left, length-owners}
use oxydllm.Engine.Walk.{Going, Filled, fill-Filled}
use oxydllm.Engine.Pacer.{PacerOk, observe-PacerOk, shrink-PacerOk}
use oxydllm.Engine.Handed.{
  left_end, handed, handed-append_one, ChunkOk, ChunksOk, ChunksOk-append_one, map-range,
  range-append,
}

module _ (counts : List ℕ) (split_at : ℕ) where
  abbrev at : ℕ → ℕ → ℕ → ChunkPlanner
  at seq done start = record {
    counts = counts;
    split_at = split_at;
    seq = seq;
    done_in_seq = done;
    start = start;
  }

  -- Between two forwards: `before` ran, and gave the rows of the sequences that are done.
  record Between (seq done start : ℕ) (before : List ForwardChunk) (rows : List ℕ) : Type 0 where
    within : seq ≤ length counts
    some_left : (c : ℕ) → get_elem? counts seq ≡ some c → done ≤ c
    tokens : handed before ++ left counts seq done ≡ owners 0 counts
    stands : start ≡ length (handed before)
    rows_ok : rows ≡ range 0 seq
    chunks : ChunksOk split_at 0 before

  -- What is left to do.
  abbrev todo : ℕ → ℕ → ℕ
  todo seq done = length (left counts seq done) + (length counts - seq)

  module _ (seq done start cap : ℕ) (before : List ForwardChunk) (rows : List ℕ)
      (h : Between seq done start before rows) where
    abbrev chunk_of : Filling → ForwardChunk
    chunk_of f = record {
      start = start;
      counts = f.counts;
      seq_base = seq;
      finished = f.finished;
      phase = if ltb seq split_at then prefill else decode;
    }

    begin : Filling
    begin = record { counts = []; finished = []; room = max cap 1; seq = seq; done_in_seq = done }

    begin-Going : Going counts split_at seq (max cap 1) (left counts seq done) begin
    unfolding begin range
    begin-Going = record {
      at = omega arith;
      within = h.within;
      done = h.some_left;
      tokens = refl;
      rows = refl;
      full = omega arith;
      side = λ s. omega (arith, s);
    }

    module _ (f : Filling)
        (k : Filled counts split_at seq (max cap 1) (left counts seq done) f) where
      chunk-ChunkOk : cap ≤ 1024 → ChunkOk split_at (length (handed before)) (chunk_of f)
      chunk-ChunkOk most = record {
        start = h.stands;
        most = omega (arith, k.most, most);
        side = elim (Bool-cases (ltb seq split_at)) [
          | inl e ↦ inl (rw e refl, k.side (ltb→lt _ _ e))
          | inr e ↦ inr (rw e refl, ground (arith, e))
        ];
      }

      todo-lt : seq < length counts → todo f.seq f.done_in_seq < todo seq done
      todo-lt more =
          let longer : sum f.counts + length (left counts f.seq f.done_in_seq)
              ≡ length (left counts seq done) =
            omega (
              arith,
              ap length k.tokens,
              length-append (owners seq f.counts) (left counts f.seq f.done_in_seq),
              length-owners seq f.counts,
            ) in
          elim k.moved [
            | inl further ↦ omega (arith, longer, further, more, k.within)
            | inr some_tokens ↦ omega (arith, longer, some_tokens, k.at, k.within)
          ]

      chunk-Between :
          cap ≤ 1024
          → Between f.seq f.done_in_seq
              (start + sum f.counts)
              (before ++ chunk_of f ∷ [])
              (rows ++ map (λ row. seq + row) f.finished)
      chunk-Between most = record {
        within = k.within;
        some_left = k.done;
        tokens =
            ap (λ l. l ++ left counts f.seq f.done_in_seq) (handed-append_one before (chunk_of f))
            ∙ append_assoc (handed before) (owners seq f.counts) (left counts f.seq f.done_in_seq)
            ∙ ap (λ l. handed before ++ l) k.tokens
            ∙ h.tokens;
        stands = omega (
          arith,
          h.stands,
          ap length (handed-append_one before (chunk_of f)),
          length-append (handed before) (owners seq f.counts),
          length-owners seq f.counts,
        );
        rows_ok = rows_lem;
        chunks =
            ChunksOk-append_one split_at 0 before (chunk_of f) h.chunks
              (subst (λ n. ChunkOk split_at n (chunk_of f)) (omega arith) (chunk-ChunkOk most));
      }
        where
          rows_lem : rows ++ map (λ row. seq + row) f.finished ≡ range 0 f.seq
          rows_lem =
              ap (λ l. l ++ map (λ row. seq + row) f.finished) h.rows_ok
              ∙ ap (λ l. range 0 seq ++ map (λ row. seq + row) l) k.rows
              ∙ ap (λ l. range 0 seq ++ l)
                  (map-range seq 0 (f.seq - seq) ∙ ap (λ i. range i (f.seq - seq)) (omega arith))
              ∙ range-append 0 seq (f.seq - seq)
              ∙ ap (range 0) (omega (arith, k.at))

    -- The planner hands out a chunk.
    next_chunk :
        seq < length counts
        → (f : Filling) × Filled counts split_at seq (max cap 1) (left counts seq done) f
          × (next cap (at seq done start)
              ≡ some (some (chunk_of f), at f.seq f.done_in_seq (start + sum f.counts)))
    unfolding next begin
    next_chunk more =
        let filled : (f : Filling) × (fill counts split_at (suc (length counts)) begin ≡ some f)
            × Filled counts split_at seq (max cap 1) (left counts seq done) f =
          fill-Filled counts split_at seq (max cap 1) (left counts seq done) (suc (length counts))
            begin begin-Going more (omega arith) (omega arith) in
        let not_done : leb (length counts) seq ≡ false = ground (arith, more) in
        (filled.0, filled.2, rw (next, not_done, filled.1) refl)

  next_end :
      (cap seq done start : ℕ)
      → leb (length counts) seq ≡ true
      → next cap (at seq done start) ≡ some (none, at seq done start)
  unfolding next
  next_end cap seq done start e = rw (next, e) refl

  Between-all_ran :
      (seq done start : ℕ) (before : List ForwardChunk) (rows : List ℕ)
      → Between seq done start before rows
      → length counts ≤ seq
      → (handed before ≡ owners 0 counts) × (rows ≡ range 0 (length counts))
  Between-all_ran seq done start before rows h e = (
    sym (append-nil (handed before))
        ∙ ap (λ l. handed before ++ l) (sym (left_end counts seq done e))
        ∙ h.tokens,
    h.rows_ok ∙ ap (range 0) (omega (arith, e, h.within)),
  )

  module _ {Rate : Type 0} (rate_of : ℕ → ℕ → Rate) (no_better : Rate → Rate → Bool)
      (forward : List ForwardChunk → ForwardChunk → Option ℕ) where
    -- All forwards ran, every token of the batch in one of them, in the batch's order, and every sequence gave one row; or
    -- the device refused a forward, after those before it.
    pub data Passed : PassResult → Type 0 where
      all_ran :
          (chunks : List ForwardChunk) (rows : List ℕ)
          → handed chunks ≡ owners 0 counts
          → rows ≡ range 0 (length counts)
          → ChunksOk split_at 0 chunks
          → Passed (ran chunks rows)
      one_failed :
          (before : List ForwardChunk) (chunk : ForwardChunk)
          → forward before chunk ≡ none
          → ChunksOk split_at 0 (before ++ chunk ∷ [])
          → Passed (failed before chunk)

    paced-PacerOk :
        (c : ForwardChunk) (elapsed : ℕ) (p : PrefillPacer Rate)
        → PacerOk p
        → chunk_len c ≤ p.cap
        → PacerOk (paced rate_of no_better forward c elapsed p)
    paced-PacerOk c elapsed p h few = elim (Bool-cases (ltb (length c.counts) (chunk_len c))) [
      | inl e ↦ rw e (observe-PacerOk rate_of no_better (chunk_len c) elapsed p h few)
      | inr e ↦ rw e h
    ]

    run_chunks-Passed :
        (n seq done start : ℕ) (p : PrefillPacer Rate) (before : List ForwardChunk) (rows : List ℕ)
        → Between seq done start before rows
        → PacerOk p
        → todo seq done < n
        → (r : PassResult) × (p' : PrefillPacer Rate) × (run_chunks rate_of no_better forward n
              (at seq done start)
              p
              before
              rows
            ≡ some (r, p'))
          × Passed r
          × PacerOk p'
    unfolding run_chunks
    run_chunks-Passed zero seq done start p before rows h ok fuel = absurd (omega arith)
    run_chunks-Passed (suc n) seq done start p before rows h ok fuel =
        elim (Bool-cases (leb (length counts) seq)) [
          | inl e ↦
              let over : (handed before ≡ owners 0 counts) × (rows ≡ range 0 (length counts)) =
                Between-all_ran seq done start before rows h (leb→le _ _ e) in
              (
                ran before rows,
                p,
                rw (run_chunks, next_end p.cap seq done start e) refl,
                all_ran before rows over.0 over.1 h.chunks,
                ok,
              )
          | inr e ↦
              let more : seq < length counts = ground (arith, e) in
              let found = next_chunk seq done start p.cap before rows h more in
              let f : Filling = found.0 in
              let k : Filled counts split_at seq (max p.cap 1) (left counts seq done) f = found.1 in
              let chunk : ForwardChunk = chunk_of seq done start p.cap before rows h f in
              let then_on : Between f.seq f.done_in_seq (start + sum f.counts)
                  (before ++ chunk ∷ []) (rows ++ map (λ row. seq + row) f.finished) =
                chunk-Between seq done start p.cap before rows h f k ok.most in
              elim (Option-cases (forward before chunk)) [
                | inl refused ↦ (
                  failed before chunk,
                  (shrink p).1,
                  rw (run_chunks, found.2, refused) refl,
                  one_failed before chunk refused then_on.chunks,
                  shrink-PacerOk p ok,
                )
                | inr (elapsed, answered) ↦
                    let less : todo f.seq f.done_in_seq < todo seq done =
                      todo-lt seq done start p.cap before rows h f k more in
                    let rest =
                      run_chunks-Passed n f.seq f.done_in_seq (start + sum f.counts)
                        (paced rate_of no_better forward chunk elapsed p) (before ++ chunk ∷ [])
                        (rows ++ map (λ row. seq + row) f.finished) then_on
                        (paced-PacerOk chunk elapsed p ok (omega (arith, k.most, ok.least)))
                        (omega (arith, less, fuel)) in
                    (rest.0, rest.1, rw (run_chunks, found.2, answered) rest.2, rest.3, rest.4)
              ]
        ]

    -- A pass over a batch returns, with fuel for its tokens and sequences and one more: with a cap from 16 to 1024, every
    -- token ran in one forward, in the batch's order, and every sequence gave one row; or the device refused a forward. The
    -- forwards stand one behind the other, hold 1024 tokens at most and none mixes prefills with decodes; the cap stays in its
    -- bounds.
    pub pass-Passed :
        (p : PrefillPacer Rate)
        → PacerOk p
        → (r : PassResult) × (p' : PrefillPacer Rate) × (run_chunks rate_of no_better forward
              (suc (sum counts + length counts))
              (new_planner counts split_at)
              p
              []
              []
            ≡ some (r, p'))
          × Passed r
          × PacerOk p'
    unfolding range
    pass-Passed p ok =
        run_chunks-Passed (suc (sum counts + length counts)) 0 0 0 p [] []
          (record {
            within = omega arith;
            some_left = λ c e. omega arith;
            tokens = refl;
            stands = refl;
            rows_ok = refl;
            chunks = tt;
          })
          ok (omega (arith, length-owners 0 counts))
