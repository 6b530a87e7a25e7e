-- ===== src/Optimization.antt =====
-- The what-if simulation and the engine of app/optimization.
pub mod Simulation
pub mod Engine
mod Tests
