-- ===== src/Events/Projection.antt =====
-- src/runtime/events/projections.py: state as a projection of the log, rebuilt by strict replay.
pub mod View
pub mod Checks
pub mod Issues
pub mod Executions
pub mod Containments
pub mod Runs
pub mod Replay
pub mod StepRelation
pub mod Steps
pub mod Refinement
pub mod Consistency
pub mod Attempts
pub mod OneRunning
pub mod SpawnOnly
pub mod Counting
