-- ===== src/Gateway.antt =====
-- app/integrations/llm/client.py: the retry policy, the circuit breaker and the wrapper that runs
-- one logical operation with both.
pub mod Breaker
pub mod Retry
mod Tests
