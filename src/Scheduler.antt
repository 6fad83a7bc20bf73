-- ===== src/Scheduler.antt =====
-- The job scheduler, server/scheduler/scheduler.go.
pub mod Builds
pub mod Queue
pub mod Workers
pub mod Env
pub mod State
pub mod Start
pub mod Ops
