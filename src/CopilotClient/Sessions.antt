-- ===== src/CopilotClient/Sessions.antt =====
-- Opening sessions: `create_session` and `resume_session` of python/copilot/client.py.
pub mod Opened
use copilot_sdk.Prelude.{
  String, Bool, true, false, Option, none, some, Dict, insert, if◌then◌else◌, is_some, Result, ok,
  err, raise, ◌>>=◌, runtime_error, value_error, type_error,
}
use copilot_sdk.Value.{Value, Fields, null, str, obj, dict, get_or}
use copilot_sdk.Session.{
  Session, Hooks, new, register_permission_handler, register_user_input_handler, register_hooks,
}
use copilot_sdk.Session.Tools.{register_tools}
use copilot_sdk.Session.Waiting.{item}
use copilot_sdk.CopilotClient.State.{Client}
use copilot_sdk.CopilotClient.Payload.{Config, any_hook, create_payload, resume_payload}
use copilot_sdk.CopilotClient.Connection.{World, Exec, start}

-- The id of a session; the protocol has a text here, and any other value is taken as a failure.
abbrev id_of : Value → Result String
id_of (str s) = ok s
id_of _ = raise type_error "a session's id is a text"

abbrev text_or_none : Value → Option String
text_or_none (str s) = some s
text_or_none _ = none

-- `response.get("workspacePath")`, which the protocol has as a text or leaves out
abbrev workspace_path_of : Value → Option String
workspace_path_of (obj fs) = text_or_none (get_or "workspacePath" null fs)
workspace_path_of _ = none

abbrev pub with_user_input : Config → Session → Session
with_user_input cfg s =
    if is_some cfg.on_user_input_request
    then register_user_input_handler cfg.on_user_input_request s
    else s

-- A dict of hooks with no hook in it registers none.
abbrev pub with_hooks : Option Hooks → Session → Session
with_hooks none s = s
with_hooks (some h) s = if any_hook h then register_hooks (some h) s else s

-- A new session with the handlers of a configuration.
unfoldable pub configured : Config → String → Option String → Session
configured cfg session_id workspace_path = with_hooks cfg.hooks (
    with_user_input cfg (
      register_permission_handler cfg.on_permission_request
        (register_tools cfg.tools (new session_id workspace_path))))

-- The session that the answer of the server describes.
unfoldable pub opened : Config → Result Value → Result Session
unfolding configured
opened cfg answer = do
  response ← answer
  id ← item "sessionId" response
  session_id ← id_of id
  ok (configured cfg session_id (workspace_path_of response))

abbrev pub stored : Result Session → Client → Result Session × Client
stored (err e) c = (err e, c)
stored (ok s) c = (ok s, record c { sessions = insert s.session_id s c.sessions })

-- The end of `create_session` and of `resume_session`
unfoldable pub open_session :
    World → String → Dict Value → Config → Client → Result Session × Client
unfolding opened
open_session w method payload cfg c =
    if c.has_client
    then stored (opened cfg (w.request method (dict payload))) c
    else (raise runtime_error "Client not connected", c)

-- A client that is not connected is started, if it may be.
unfoldable pub ensure_started : World → Exec
ensure_started w c =
    if c.has_client
    then (ok tt, c)
    else if c.options.auto_start
    then start w c
    else (raise runtime_error "Client not connected. Call start() first.", c)

abbrev pub after_started :
    World → String → Dict Value → Config → Result (Unit {0}) × Client → Result Session × Client
after_started w method payload cfg (err e, c) = (err e, c)
after_started w method payload cfg (ok u, c) =
    if is_some cfg.on_permission_request
    then open_session w method payload cfg c
    else (raise value_error "An on_permission_request handler is required", c)

-- `create_session`
unfoldable pub create_session : World → Config → Client → Result Session × Client
unfolding ensure_started open_session
create_session w cfg c =
    after_started w "session.create" (create_payload cfg) cfg (ensure_started w c)

-- `resume_session`
unfoldable pub resume_session : World → String → Config → Client → Result Session × Client
unfolding ensure_started open_session
resume_session w session_id cfg c =
    after_started w "session.resume" (resume_payload session_id cfg) cfg (ensure_started w c)
