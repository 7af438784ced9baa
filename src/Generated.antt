-- ===== src/Generated.antt =====
-- The generated records of the protocol (python/copilot/generated).
pub mod Rpc
pub mod SessionEvents
pub mod Examples
