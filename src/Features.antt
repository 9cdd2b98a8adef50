-- ===== src/Features.antt =====
-- The feature snapshots of market_pipeline_lib/features: the version grammar of hashing.py, the batches of
-- snapshots.py and the document check of validation.py.
pub mod Hashing
pub mod Version
pub mod Plan
pub mod Builder
pub mod Seal
pub mod Document
pub mod Rows
pub mod Sealing
pub mod Counting
pub mod Writing
pub mod Refusing
pub mod Sealed
pub mod Finality
pub mod Coherent
pub mod Accepted
pub mod Examples
