-- ===== src/RealtimeIngest.antt =====
-- market_pipeline_lib/realtime_ingest.py: realtime market-event ingestion.
pub mod Json
pub mod Fault
pub mod Event
pub mod Envelope
pub mod Ingestor
pub mod Commit
pub mod Filing
pub mod Admission
pub mod Redelivery
pub mod Batch
pub mod Bars
pub mod Retention
pub mod Consumer
pub mod Settlement
pub mod Delivery
pub mod Examples
pub mod Runs
