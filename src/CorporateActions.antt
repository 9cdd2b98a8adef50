-- ===== src/CorporateActions.antt =====
-- The review of researched corporate actions: market_pipeline_lib/corporate_actions/decisions.py and
-- service.py.
pub mod Decisions
pub mod Row
pub mod Review
pub mod Approval
pub mod Verified
pub mod Table
pub mod Moves
pub mod Recording
pub mod Admin
pub mod Moved
pub mod Delivery
pub mod Calls
pub mod Settled
pub mod Again
pub mod Refusals
pub mod Withdrawal
pub mod Examples
