-- ===== src/CopilotClient/State.antt =====
-- The state of `CopilotClient` (python/copilot/client.py).
use copilot_sdk.Prelude.{ℕ, String, Bool, Option, List, Dict}
use copilot_sdk.Text.{Text}
use copilot_sdk.Session.{Session}
use copilot_sdk.Types.Models.{ModelInfo}

-- `ConnectionState`
pub data ConnectionState : Type 0 where
  disconnected connecting connected error : ConnectionState

-- What `_process` holds: nothing, the spawned process, or the wrapper of a socket.
pub data Process : Type 0 where
  no_process popen socket : Process

-- `self.options`, with every default filled in.
pub record Options : Type 0 where
  pub cli_path : String
  pub cli_args : List String
  pub cwd : String
  pub port : ℕ
  pub use_stdio : Bool
  pub cli_url : Option Text
  pub log_level : String
  pub auto_start : Bool
  pub auto_restart : Bool
  pub env : Option (Dict String)
  pub github_token : Option String
  pub use_logged_in_user : Bool

pub record Client : Type 0 where
  pub options : Options
  pub actual_host : Text
  pub actual_port : Option ℕ
  pub is_external_server : Bool
  pub process : Process
  -- whether `_client` is set
  pub has_client : Bool
  -- what it has outside, whether a field leads to it or not: how many CLI processes it has spawned and not
  -- ended, and how many connections it has opened and not closed
  pub cli_processes : ℕ
  pub connections : ℕ
  pub state : ConnectionState
  pub sessions : Dict Session
  pub models_cache : Option (List ModelInfo)
  pub lifecycle_handlers : List ℕ
  pub typed_lifecycle_handlers : Dict (List ℕ)
