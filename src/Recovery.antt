-- ===== src/Recovery.antt =====
-- src/runtime/recovery: what runs at every start, before the loop.
pub mod State
pub mod Reconciler
pub mod Effects
pub mod Orphans
pub mod Gate
pub mod LogKept
pub mod Containment
pub mod Proofs
pub mod Release
pub mod Bindings
pub mod Witness
