-- ===== src/Queue.antt =====
-- src/runtime/queue: the local issue queue and the selection planner.
pub mod Selection
pub mod Topology
pub mod Planner
