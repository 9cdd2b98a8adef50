-- ===== src/Watermarks.antt =====
-- market_pipeline_lib/watermarks.py: stream watermark tracking.
pub mod Position
pub mod Row
pub mod Repository
pub mod Ledger
pub mod Heads
pub mod Floor
pub mod Restart
pub mod Sql
pub mod Racing
pub mod Monotone
pub mod Examples
