-- ===== src/Events.antt =====
-- src/runtime/events: the event schema, the replayed projection and the log.
pub mod Schema
pub mod Projection
pub mod Log
