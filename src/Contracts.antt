-- ===== src/Contracts.antt =====
-- market_pipeline_lib/contracts.py: partitions and the dataset contracts.
pub mod Calendar
pub mod Order
pub mod Partition
pub mod Shard
pub mod Examples
