-- ===== src/Validation.antt =====
-- src/runtime/validation: the gates that an execution has to pass.
pub mod Runner
pub mod Tries
pub mod Reports
pub mod Overlay
