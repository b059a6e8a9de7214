-- ===== src/Lib.antt =====
-- agent-vigilo runs evaluators over datasets of agent cases. A dataset is stored as immutable objects:
-- case batches, an interval index over them, and a manifest. A run has a plan of the same kind: pages
-- of chunks of cases under an index, and linked pages of gate counts for every shard. Workers follow
-- those objects, call dependencies behind circuit breakers, normalize what the evaluators measure, and
-- aggregate the results of an execution; the executions of a shard add up to a shard scorecard, and
-- the shard scorecards are merged into the scorecard of the run.
--
-- The files and what they model, with paths from the repository's root:
--   Storage        vigilo/src/contracts/case_storage: Limits is limits.rs and the small checks of
--                  formats.rs; Object (`ObjectRef`, `VerifiedObject`), Index (`IndexPage`,
--                  `IndexDescriptor`), Chunks (`RunChunkPage`), Gates (`GateCountPage`,
--                  `GateCountChainValidator`) and Manifest (`DatasetManifest`, `RunPlanManifest`)
--                  are formats.rs. A `validate` method is a function that ends in an error or in
--                  nothing. Batch and BatchReader are codec.rs: `CaseBatchBuilder` and
--                  `encode_batch`, and `decode_case_batch` with the iterator `CaseBatchReader`.
--   Cache          vigilo/src/case_reader/cache.rs: `Scope::read` with the lookup and the admission
--                  under the lock as two steps, between which other readers come, and
--                  `read_cached` of vigilo/src/case_reader.rs, which reads with or without it. Every
--                  binding has a store of its own. Fetching is `read_bytes` of
--                  vigilo/src/dataset_ingestion.rs over that store, and the budget is that of
--                  vigilo/src/blob_storage.rs.
--   Breaker        vigilo/src/circuit_breaker.rs: `acquire`, `record_success` and
--                  `record_failure` take the breakers and return them beside the method's result.
--                  The mutex of the source makes each method one step, and a list of calls is one
--                  interleaving of the workers.
--   Normalization  vigilo/src/contracts/normalization.rs, with the types of contracts/run.rs.
--   Aggregation    vigilo/src/contracts/aggregation.rs; Execution is the part after completeness.
--   Scorecard      vigilo/src/contracts/scorecard.rs: entries and chunks, the gates in Evaluation and the
--                  shards in Merging.
--   Planning       vigilo/src/run_planning/accumulator.rs, `Manifest::push` of
--                  vigilo/src/db/workflows/run_shard_summary/plan.rs, and the loop over the cases
--                  in vigilo/src/run_planning.rs; the last tests of a plan are in Validation.
--   Outbox         vigilo/src/db/tables/outbox_events.rs over the ledger and the delivery queue, one
--                  function per SQL statement, with the trigger and the cascade of the migrations;
--                  Publisher is vigilo/src/outbox.rs, with the window of parallel publications. A
--                  lease is the token that a claim draws. Which publication in flight completes
--                  next, at what time, and what other transactions do before it, are functions.
--   EvaluatorRef   vigilo/src/contracts/evaluator_ref.rs.
--   Profile        vigilo/src/db/workflows/run_profile_validation.rs: which groups and gates of a profile a
--                  case matches, and the validation of a case.
--   Retry          vigilo/src/agent_client/failure.rs: what an HTTP status and a Retry-After
--                  header make of a failed call of an agent.
--   ShardAdmin     vigilo/src/db/workflows/shard_admin.rs: the lengths of copied pages, what an abort of
--                  a move finds, and the shards that a rebalancing plan moves.
--   Prelude        tests and lists over the native numbers, results, machine integers
--                  (`checked_add`, `checked_sub`, `i32::try_from`), strings as code points,
--                  `BTreeMap` as a sorted list, and the interface of `f64`.
--   Examples       the theorems at concrete inputs, and runs of the definitions.
--
-- How values are modelled. Integers of the source are integers, with the checked operations testing
-- the range of `i32` or `i64`; the unchecked products and differences of the source stand behind
-- tests that keep them in range. The generation of a breaker's entry wraps at 2 ^ 64, and its
-- counter of failures saturates at the maximum of `u32`. `f64` is an interface of operations, and
-- the laws of IEEE 754 that the theorems need are a record, which whole thousandths meet. BLAKE3,
-- the hasher of the jitter, the scaling of a duration and the digests of a plan are parameters.
-- What a case's record and the profile's gates say enters the planning as the outcome of the calls.
-- The loops of the modelled code run over lists, and the model recurses on those lists. Two loops
-- have fuel: the reading of a batch takes one call more than the batch has lines, and the round trip
-- is proved with exactly that fuel; the publishing pass takes one round more than it claimed events,
-- with which the window is proved to settle every one of them. JSON is an interface: the pieces that
-- the serializer writes, the strict parser, and the fields read from a value. The parser of
-- serde_json rounds some numbers, so the round trip asks of the values that are written that their
-- compact text parses to them again.
--
-- Not modelled: the SQL of the other database tables and of the workflows, object storage, message queues,
-- HTTP, the WebAssembly runtime, the command line and the tooling, which call other systems and keep
-- little logic apart from those calls; the JSON parser of the case-storage codec, and the
-- validators that walk JSON values (`DatasetSourceFields`, `RunConfiguration`).
pub mod Prelude
pub mod Aggregation
pub mod Breaker
pub mod Cache
pub mod EvaluatorRef
pub mod Examples
pub mod Normalization
pub mod Outbox
pub mod Planning
pub mod Profile
pub mod Retry
pub mod Scorecard
pub mod ShardAdmin
pub mod Storage
