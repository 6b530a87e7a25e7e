-- ===== src/Intelligence.antt =====
-- The detectors of app/intelligence.
pub mod Sensors
pub mod Spikes
mod Tests
