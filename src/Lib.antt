-- ===== src/Lib.antt =====
-- oxydllm: the memory and scheduling core of the inference engine, its JSON grammar, and its text and file formats.
--
-- The program serves prompts with a language model. The scheduler (src/scheduler/mod.rs) keeps a queue of waiting
-- sequences and a set of running ones and decides at each step what runs. A sequence (src/scheduler/sequence.rs)
-- holds, for each layer, a table of key/value blocks (`PagedKvCache`, src/common/paged.rs); the blocks come from
-- the layer's allocator (`BlockAllocator`, src/common/paged.rs) and are counted by reference. The prefix cache
-- (src/common/prefix_cache.rs) holds references to the blocks of earlier prompts and gives them up when memory is
-- short. Under a grammar constraint the sampled bytes are walked through a JSON automaton and a guide that follows
-- a schema (src/constrain.rs), which tell the tokens that may come next.
-- The engine (src/engine.rs) runs what was scheduled as a sequence of forwards of bounded size.
-- The model manager (src/models/manager.rs) decides which models stay in memory.
-- Keys and values may be kept as indices of a few bits, packed into bytes (src/common/kv_quant.rs).
-- The sampled tokens become text as they come (src/common/incremental_decode.rs), and the text of an answer passes a
-- scanner for stop strings (src/server/routes/stop_scan.rs). A model's file starts with a header that states its
-- metadata and its tensors (src/common/gguf_header.rs).
--
-- Which file models what:
--   Base and its children: names of the library, numbers, lists, counts and machine words.
--   Paged/Allocator.antt: `BlockAllocator`, one function for each of `growing`, `grow`, `allocate`, `share`,
--     `free`, `num_free`; the head of `free_list` is the end of the code's `Vec`. Proofs in its children.
--   Paged/Cache.antt: `PagedKvCache` with its block table, without its tensors; the proof on
--     `truncate_to` in Truncate, with what freeing a list of blocks does in Release.
--   Paged/Append.antt: the loop of `PagedKvCache::append` that takes blocks, records slots and stages the runs of
--     rows to be written; proofs in Runs, Room, Table, Placed and Blocks.
--   Lru.antt: the `lru` crate's cache as an interface, its documented behaviour as laws over a list of entries,
--     and a list that meets them.
--   Paged/Contig.antt: `GlobalKvBudget`, `ContigBudget` and `ContigBufferPool` (src/common/paged.rs); proofs in Bytes.
--   PrefixCache.antt, PrefixCache/Update.antt: `PrefixCache`, with the hasher as a parameter. Proofs in
--     Accounts, Evict, Register and Lookup.
--   Sequence.antt: `SequenceState`. Scheduler.antt: the state of `Scheduler` and the operations on its queues;
--     Scheduler/Schedule.antt: `schedule`, cut at its loops. Proofs in Index, Good, Preempt, Grant, Admit, Order and
--     Liveness for a step, in Intake for requests, in Release, Retire, Abort and Drain for sequences that leave.
--   Constrain/Machine.antt, Constrain/Step.antt: `JsonMachine` with `step_inner` and `step`; proofs in Stack.
--   Constrain/Events.antt: the events of `step_ev`. Constrain/Schema.antt: `SchemaNode` and `SchemaArena`.
--   Constrain/Keys.antt, Constrain/Compile.antt: `SchemaArena::compile`, over what it asks of a JSON value
--     (`JsonValue`, for the crate serde_json); proofs in Arenas.
--   Constrain/Guide.antt: `GuideState`, with `on_byte` cut at its early returns; proofs in Ok, Levels, Ends and Safe.
--   Constrain/Token.antt: `JsonConstraint`, the mask of the tokens that may come next; proofs in Allowed and Runs.
--   StopScan.antt: `StopScanner` (src/server/routes/stop_scan.rs); proofs in Find and Held.
--   KvQuant.antt: the packing of quantized indices (src/common/kv_quant.rs); proofs in Fields.
--   IncrementalDecode.antt: `IncrementalDecoder` and what it calls; proofs in Text, Window and Stream.
--   Gguf.antt: `GgufHeader::parse` with `Cursor`, as readers over a cursor; Gguf/Write.antt: the format, as what it
--     writes. Gguf/Stated.antt: what the format says a header states. Proofs in Reads,
--     Nested, RoundTrip and Parsed.
--   Engine.antt: `ChunkPlanner`, `PrefillPacer` and the loop of `run_forward_pass` (src/engine.rs), which splits a step's
--     batch into forwards; the device's answers are a parameter. Proofs in Owners, Walk, Pacer, Handed and Forward.
--   Manager.antt: the slots of `ModelManager` and its eviction for memory (src/models/manager.rs); proofs in Slots, Evict.
--   Tests: the theorems at concrete inputs.
--
-- How the code is read. A panic (an index out of range, `unwrap` of a missing entry) is `none`; an error is a value
-- of `Result`. The shared allocators behind `Arc<Mutex<..>>` are lists in the state, one for each layer, passed
-- along explicitly; a sequence reaches its allocator by its layer. Counts of references (`u32`) and
-- the position in a literal or key (`u16` in `ValCtx`) wrap, as in a release build; the difference of `num_free` is
-- taken modulo 2 ^ 64. Setting the count of a block that the pool does not hold panics in the code and changes
-- nothing here; the allocator's invariant rules it out. Other `usize` numbers are natural numbers,
-- and a `debug_assert!` is left out. A block size is positive. `HashMap` is an association list with one entry for
-- each key. The device is a function that gives the slots of a segment or none. A bitmask of `u64` is the list of
-- its bits: `compile` keeps the properties and literals of a node few enough for 64 bits.
-- Text is UTF-8 bytes where the code reads bytes, and code points with positions in bytes in the incremental decoder.
-- The tokenizer is a pair of functions that may fail; that its decoding joins the pieces of a text is a hypothesis.
-- A GGUF file's integers and floats are their bits, and `lossy` is `String::from_utf8_lossy`.
--
-- Fuel. The two eviction loops of `schedule` have as fuel the number of entries of the prefix cache and one more:
-- each round that goes on drops an entry. The loop of `append` has the number of tokens, since a round places one
-- at least; the forwards of a pass have the tokens and the sequences of the batch and one more, the eviction of models
-- their slots and one more; `compile_node` and `Cursor::value` have the depths that their bounds leave, as the code
-- counts them. That this is enough is part of the proofs that they return.
--
-- Not modelled: tensors, kernels, the arithmetic of quantization, model loading, the tokenizer, sampling and the
-- server, which are floating-point code, input and output or calls of other crates; of src/constrain.rs
-- `TokenByteTable::build`, which reads the tokenizer; of `PagedKvCache` the contiguous buffer of `append`, `flush` and
-- the recurrent state, which are tensors; of the GGUF files their opening, their weights and the names of their types.
pub mod Base
pub mod Paged
pub mod Lru
pub mod PrefixCache
pub mod Sequence
pub mod Scheduler
pub mod Constrain
pub mod StopScan
pub mod KvQuant
pub mod IncrementalDecode
pub mod Gguf
pub mod Engine
pub mod Manager
mod Tests
