-- ===== src/Events/Log.antt =====
-- src/runtime/events/log.py: the append-only event log, as the bytes of its file.
pub mod Codec
pub mod Lines
pub mod Replay
pub mod Append
pub mod Durability
