-- ===== src/Workloads.antt =====
-- app/workloads: the logic of the workloads.
pub mod Quality
mod Tests
