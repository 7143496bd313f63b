-- ===== src/Dashboard.antt =====
-- src/draindeck_dashboard: the run-command queue and the launcher.
pub mod Commands
pub mod Transactions
pub mod Machine
pub mod RunPlan
pub mod RunQueue
pub mod Launcher
pub mod Rows
pub mod Slots
pub mod Kept
pub mod Requests
pub mod Effects
pub mod Served
pub mod Revalidated
pub mod LaunchSlots
pub mod Reachable
pub mod ClaimOrder
pub mod CancelRace
pub mod LaunchEnv
pub mod AckGates
pub mod Retries
pub mod ServedAnswers
