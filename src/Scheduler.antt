-- ===== src/Scheduler.antt =====
-- components/scheduler/scheduler: recurring HTTP calls.
pub mod Jobs
pub mod Refreshing
mod Tests
