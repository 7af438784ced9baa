-- ===== src/CopilotClient.antt =====
-- `CopilotClient` (python/copilot/client.py).
pub mod Url
pub mod State
pub mod Options
pub mod Command
pub mod Status
pub mod Connection
pub mod Sessions
pub mod Payload
pub mod Serving
pub mod Lifecycle
pub mod Queries
pub mod Runs
pub mod Examples
