-- ===== src/Session.antt =====
-- `CopilotSession` (python/copilot/session.py). A handler is a number; what a call of it does is an
-- argument of the operation that calls it.
pub mod Events
pub mod Tools
pub mod Requests
pub mod Waiting
pub mod Lifecycle
pub mod Examples
use copilot_sdk.Prelude.{ℕ, String, Option, none, Dict, List, []}

-- `SessionHooks`
pub record Hooks : Type 0 where
  pub on_pre_tool_use : Option ℕ
  pub on_post_tool_use : Option ℕ
  pub on_user_prompt_submitted : Option ℕ
  pub on_session_start : Option ℕ
  pub on_session_end : Option ℕ
  pub on_error_occurred : Option ℕ

pub record Session : Type 0 where
  pub session_id : String
  pub workspace_path : Option String
  -- a set, as a list of its members
  pub event_handlers : List ℕ
  pub tool_handlers : Dict ℕ
  pub permission_handler : Option ℕ
  pub user_input_handler : Option ℕ
  pub hooks : Option Hooks

-- `__init__`
unfoldable pub new : String → Option String → Session
new session_id workspace_path = record {
  session_id = session_id;
  workspace_path = workspace_path;
  event_handlers = [];
  tool_handlers = [];
  permission_handler = none;
  user_input_handler = none;
  hooks = none;
}

-- `_register_permission_handler`
unfoldable pub register_permission_handler : Option ℕ → Session → Session
register_permission_handler handler s = record s { permission_handler = handler }

-- `_register_user_input_handler`
unfoldable pub register_user_input_handler : Option ℕ → Session → Session
register_user_input_handler handler s = record s { user_input_handler = handler }

-- `_register_hooks`
unfoldable pub register_hooks : Option Hooks → Session → Session
register_hooks hooks s = record s { hooks = hooks }
