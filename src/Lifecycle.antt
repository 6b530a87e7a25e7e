-- ===== src/Lifecycle.antt =====
-- The policy lifecycle: app/services/policy_lifecycle.py over the two repositories that it uses.
pub mod Records
pub mod Approval
pub mod Activation
mod Tests
