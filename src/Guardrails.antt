-- ===== src/Guardrails.antt =====
-- app/guardrails: the context that reaches a model, the budget of one execution, and the tools that
-- a model may call.
pub mod Context
pub mod Limits
pub mod Tools
mod Tests
