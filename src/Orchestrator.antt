-- ===== src/Orchestrator.antt =====
-- app/orchestrator: the classification of a request, and the choice of a model for it.
pub mod Classification
pub mod Selection
pub mod Plan
pub mod Execution
mod Tests
