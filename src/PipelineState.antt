-- ===== src/PipelineState.antt =====
-- The state of the daily pipeline (pipeline_state.py).
pub mod Replace
pub mod Store
pub mod Retry
pub mod Key
pub mod Restart
pub mod Examples
