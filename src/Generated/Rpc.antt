-- ===== src/Generated/Rpc.antt =====
-- The parameters and results of the typed remote calls (python/copilot/generated/rpc.py).
pub mod Models
pub mod Tools
pub mod Modes
pub mod Workspace
pub mod Agents
pub mod Api
