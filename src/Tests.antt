-- ===== src/Tests.antt =====
-- The theorems at concrete inputs, and small runs of the code.
pub mod ProjectionTests
pub mod PlannerTests
pub mod LogTests
pub mod RecoveryTests
pub mod StartupTests
pub mod LoopTests
pub mod BindingsTests
pub mod DashboardTests
pub mod OrchestratorTests
pub mod ValidationTests
