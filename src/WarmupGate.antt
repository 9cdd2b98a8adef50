-- ===== src/WarmupGate.antt =====
-- market_pipeline_lib/warmup_gate.py: whether a consumer may start from a session.
pub mod Coverage
pub mod Gate
pub mod Recording
pub mod Verdict
pub mod Hidden
pub mod Examples
