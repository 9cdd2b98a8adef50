-- ===== src/Lib.antt =====
-- Verification of the market-data pipeline: the contracts that its parts share, the stream watermarks
-- that say how far a feed was consumed, the projection of manifests to watermarks, the realtime
-- ingestion of market events from a durable queue, the gate before a consumer's start, the worker's
-- local queue, the checks before an interrupted run is resumed, the feature snapshot batches, the
-- review of corporate actions, the rate limiter, the traversal of pages, and the checkpoints of the
-- daily pipeline.
--
-- The parts and their files:
--   * Contracts (market_pipeline_lib/contracts.py): `Calendar` is Python's proleptic Gregorian date,
--     `Partition` is `partition_bounds`, `Shard` is `stable_shard_number` and `stable_shard_key`.
--   * Watermarks (market_pipeline_lib/watermarks.py): `Position` is `StreamPosition`, `Row` is
--     `StreamWatermark` and its record, `Repository` the port and `InMemoryWatermarkRepository`, `Sql`
--     is `SqlWatermarkRepository` on a keyed table, `Ledger` is `WatermarkLedger`. `Heads`, `Floor`,
--     `Monotone`, `Restart` and `Racing` hold the proofs, the last one for several workers on one table.
--   * ManifestWatermarks (market_pipeline_lib/manifest_watermarks.py): the function
--     `advance_available_manifest_watermarks` over any repository that meets the port's contract;
--     `Latest`, `Advance` and `Project` hold the proofs.
--   * RealtimeIngest (market_pipeline_lib/realtime_ingest.py): `Json` is a decoded message, `Event` is
--     `parse_market_event`, `Ingestor` the state of `RealtimeIngestor` with `_prepare`, `Commit` its
--     `_retain`, `_commit`, `submit` and `submit_batch`, `Consumer` is `RealtimeIngestConsumer` over the
--     queue and the ingestor as ports. `Envelope`, `Admission`, `Redelivery`, `Filing`, `Batch`,
--     `Bars`, `Retention`, `Settlement` and `Delivery` hold the proofs.
--   * WarmupGate (market_pipeline_lib/warmup_gate.py): `Coverage` is `WarmupCoverage` and the rows that
--     the gate reads, `Gate` is `evaluate` of `WarmupReadinessGate` and `Recording` its `record`, with the
--     incident's row of quality.py and its upsert of catalog.py; `Verdict` and `Hidden` hold the proofs.
--   * Messaging (apps/pipeline_worker/messaging.py): `InProcessMessageSource`; `Taking`, `Reachable` and
--     `Redelivery` hold the proofs.
--   * ResumeVerification (market_pipeline_lib/resume_verification.py): the checks on the objects of an
--     interrupted run; `Complete` says what a complete file is, `FirstRejection` is about a set of them.
--   * Features (market_pipeline_lib/features): `Hashing` and its version grammar, `Plan` for the plan of a
--     batch, `Builder` and `Seal` for `FeatureSnapshotBatchBuilder`, `Document` for the document and the
--     validator. `Version`, `Rows`, `Sealing`, `Counting`, `Writing`, `Refusing`, `Sealed`, `Finality`,
--     `Coherent` and `Accepted` hold the proofs.
--   * CorporateActions (market_pipeline_lib/corporate_actions): `Decisions` is decisions.py; of
--     service.py, `Row` is the table, `Review` the recording, the approved actions and an administrator's
--     decisions, `Approval` and `Verified` the provider's. `Table`, `Moves`, `Recording`, `Admin`, `Moved`,
--     `Delivery`, `Calls`, `Settled`, `Again`, `Refusals` and `Withdrawal` hold the proofs.
--   * RateLimit (market_pipeline_lib/rate_limit.py): `Bucket` is `TokenBucketRateLimiter` and
--     `ManualClock`, over the integers of `Balance`; `Waiting` and `Admission` hold the proofs.
--   * Pagination (market_pipeline_lib/alpaca/pagination.py): `iter_pages`; `Termination` holds the proofs.
--   * PipelineState (pipeline_state.py): `Replace` is `replace_with_retry`, `Store` the partition checkpoints
--     of `PipelineStateStore`; `Retry`, `Key` and `Restart` hold the proofs.
--
-- The ingestor names its partitions by Contracts and tells a ledger of Watermarks of each position; the
-- ledger is resumed from and checkpointed to a repository, which the projection also writes and whose
-- watermark the gate reads.
--
-- How state and errors are written: a method takes the object's state and returns it beside its result;
-- a call that may raise returns a `Result`. A call that raises after it changed something returns the
-- changed state too, as in `Commit`. A `dict` is a list of pairs in insertion order, a `set` a list.
--
-- Parameters: the parser of ISO timestamps, the float and Decimal types with their conversions, the
-- trading date of an instant, midnight in New York, UUID parsing and SHA-256, JSON text, UUIDs of names
-- and the rendering of instants, the file system, the queue, the publication of a flush, the fetcher of
-- pages, and the regenerator with the directories of the review.
--
-- Floats: the balance of RateLimit is a whole number of quanta and its waits are whole ticks, so the rounding
-- of the source's floats is left out: there a balance may end a rounding error below 0 after a wait.
--
-- Bounds: an instant is a natural number of microseconds, in RateLimit of ticks, and a sleep of
-- PipelineState one of tenths of a second; Python's limit of year 9999 and the BIGINT range of the
-- sequence column are not modelled. Every loop is over a list or a count, but that of `iter_pages`, where
-- fuel bounds the requests and a theorem says how much is enough.
--
-- Not modelled here: the publication engine and its Arrow tables, the SQS adapter, `drain` and
-- `run_until_stopped`, which poll until told to stop, the validation of stream specifications, text
-- dates of manifests, which are taken as parsed, the texts of verdicts, the stage checkpoints and
-- run records of the daily pipeline, and log messages.
pub mod Prelude
pub mod Contracts
pub mod Watermarks
pub mod ManifestWatermarks
pub mod RealtimeIngest
pub mod WarmupGate
pub mod Messaging
pub mod ResumeVerification
pub mod Features
pub mod CorporateActions
pub mod RateLimit
pub mod Pagination
pub mod PipelineState
