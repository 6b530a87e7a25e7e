-- ===== src/Cost.antt =====
-- What a request costs: app/services/cost_engine.py and app/services/currency.py.
pub mod Engine
pub mod Currency
mod Tests
