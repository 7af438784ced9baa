-- ===== src/JsonRpc.antt =====
-- The JSON-RPC 2.0 client over stdio (python/copilot/jsonrpc.py).
pub mod Framing
pub mod Client
pub mod Examples
