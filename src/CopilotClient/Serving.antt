-- ===== src/CopilotClient/Serving.antt =====
-- The requests that the CLI makes of the client: `_handle_permission_request`,
-- `_handle_user_input_request`, `_handle_hooks_invoke`, `_handle_tool_call_request`,
-- `_execute_tool_call`, `_normalize_tool_result` and `_build_unsupported_tool_result` of
-- python/copilot/client.py.
pub mod Answers
use Prim.Native.String.{◌++◌ as append}
use copilot_sdk.Prelude.{
  ℕ, String, Bool, true, false, not, ◌||◌, Option, none, some, List, [], ◌∷◌, lookup, if◌then◌else◌,
  Result, ok, err, raise, ◌>>=◌, value_error, type_error, Error,
}
use copilot_sdk.Value.{Value, Fields, null, str, arr, obj, end, get_or, dict, truthy}
use copilot_sdk.Session.{Session, Hooks}
use copilot_sdk.Session.Tools.{get_tool_handler}
use copilot_sdk.Session.Waiting.{item}
use copilot_sdk.Session.Requests.{
  Call, handle_permission_request as session_permission,
  handle_user_input_request as session_user_input, handle_hooks_invoke as session_hooks,
}
use copilot_sdk.CopilotClient.State.{Client}

abbrev pub known : String → Option Session → Result Session
known id none = raise value_error (append "unknown session " id)
known id (some s) = ok s

-- `self._sessions.get(session_id)`, with the test behind it. Only a text is the id of a session, and a
-- list or a dict cannot be looked up.
unfoldable pub find_session : Value → Client → Result Session
find_session (str id) c = known id (lookup id c.sessions)
find_session (arr xs) c = raise type_error "unhashable type"
find_session (obj fs) c = raise type_error "unhashable type"
find_session v c = raise value_error "unknown session"

-- `_handle_permission_request`. The session's method catches what its handler raises.
unfoldable pub handle_permission_request : Call → Fields → Client → Result Value
unfolding find_session
handle_permission_request call params c =
    if not (truthy (get_or "sessionId" null params))
      || not (truthy (get_or "permissionRequest" null params))
    then raise value_error "invalid permission request payload"
    else (find_session (get_or "sessionId" null params) c >>= λ s. ok (
        dict (("result", session_permission call (get_or "permissionRequest" null params) s) ∷ [])))

-- The two entries of the user's answer
abbrev user_answer : Value → Result Value
user_answer result = item "answer" result >>= λ answer. item "wasFreeform" result >>= λ freeform.
    ok (dict (("answer", answer) ∷ ("wasFreeform", freeform) ∷ []))

-- `_handle_user_input_request`
unfoldable pub handle_user_input_request : Call → Fields → Client → Result Value
unfolding find_session
handle_user_input_request call params c =
    if not (truthy (get_or "sessionId" null params)) || not (truthy (get_or "question" null params))
    then raise value_error "invalid user input request payload"
    else (find_session (get_or "sessionId" null params) c >>= λ s.
        session_user_input call params s >>= user_answer)

abbrev no_hooks_or_raise : Option Hooks → Result Value
no_hooks_or_raise none = ok null
no_hooks_or_raise (some h) = raise type_error "unhashable type"

-- The output of a hook whose type is any value
abbrev hook_output : Call → Value → Value → Session → Result Value
hook_output call (str hook_type) input s = ok (session_hooks call hook_type input s)
hook_output call (arr xs) input s = no_hooks_or_raise s.hooks
hook_output call (obj fs) input s = no_hooks_or_raise s.hooks
hook_output call v input s = ok null

-- `_handle_hooks_invoke`
unfoldable pub handle_hooks_invoke : Call → Fields → Client → Result Value
unfolding find_session
handle_hooks_invoke call params c =
    if not (truthy (get_or "sessionId" null params)) || not (truthy (get_or "hookType" null params))
    then raise value_error "invalid hooks invoke payload"
    else (find_session (get_or "sessionId" null params) c >>= λ s.
        hook_output call (get_or "hookType" null params) (get_or "input" null params) s
        >>= λ output. ok (dict (("output", output) ∷ [])))

-- What a tool returns: a plain value, or an instance of a dataclass with its fields.
pub data Outcome : Type 0 where
  plain : Value → Outcome
  dataclass : Fields → Outcome

-- What the call of a tool's handler with an invocation gives.
abbrev pub ToolCall : Type 0
ToolCall = ℕ → Value → Result Outcome

-- A `ToolResult` for a failure
abbrev pub failure : String → String → Value
failure text error = dict (
    ("textResultForLlm", str text)
    ∷ ("resultType", str "failure")
    ∷ ("error", str error)
    ∷ ("toolTelemetry", obj end)
    ∷ [])

-- `_build_unsupported_tool_result`
unfoldable pub build_unsupported_tool_result : String → Value
build_unsupported_tool_result tool_name =
    failure (append "Tool '" (append tool_name "' is not supported."))
      (append "tool '" (append tool_name "' not supported"))

-- `_normalize_tool_result`
unfoldable pub normalize_tool_result : Outcome → Value
normalize_tool_result (plain v) = v
normalize_tool_result (dataclass fs) = obj fs

abbrev pub hidden : String
hidden = "Invoking this tool produced an error. Detailed information is not available."

abbrev pub after_call : Result Outcome → Outcome
after_call (err e) = plain (failure hidden e.message)
after_call (ok o) = o

abbrev pub if_no_result : Outcome → Outcome
if_no_result (plain null) = plain (failure "Tool returned no result." "tool returned no result")
if_no_result o = o

abbrev pub invocation : Value → Value → Value → Value → Value
invocation session_id tool_call_id tool_name arguments = dict (
    ("session_id", session_id)
    ∷ ("tool_call_id", tool_call_id)
    ∷ ("tool_name", tool_name)
    ∷ ("arguments", arguments)
    ∷ [])

-- `_execute_tool_call`
unfoldable pub execute_tool_call : ToolCall → Value → Value → Value → Value → ℕ → Value
unfolding normalize_tool_result
execute_tool_call call session_id tool_call_id tool_name arguments handler = normalize_tool_result (
    if_no_result
      (after_call (call handler (invocation session_id tool_call_id tool_name arguments))))

abbrev pub answer_with : ToolCall → Fields → String → Option ℕ → Value
answer_with call params tool_name none = build_unsupported_tool_result tool_name
answer_with call params tool_name (some h) =
    execute_tool_call call (get_or "sessionId" null params) (get_or "toolCallId" null params)
      (get_or "toolName" null params) (get_or "arguments" null params) h

-- The answer of a session for a tool whose name is any value; `show_value` is Python's `str`. Only a text
-- is the name of a tool.
abbrev pub tool_answer : (Value → String) → ToolCall → Fields → Value → Session → Result Value
tool_answer show_value call params (str name) s =
    ok (answer_with call params name (get_tool_handler name s))
tool_answer show_value call params (arr xs) s = raise type_error "unhashable type"
tool_answer show_value call params (obj fs) s = raise type_error "unhashable type"
tool_answer show_value call params v s = ok (build_unsupported_tool_result (show_value v))

-- `_handle_tool_call_request`
unfoldable pub handle_tool_call_request :
    (Value → String) → ToolCall → Fields → Client → Result Value
unfolding find_session
handle_tool_call_request show_value call params c =
    if not (truthy (get_or "sessionId" null params))
      || not (truthy (get_or "toolCallId" null params))
      || not (truthy (get_or "toolName" null params))
    then raise value_error "invalid tool call payload"
    else (find_session (get_or "sessionId" null params) c >>= λ s.
        tool_answer show_value call params (get_or "toolName" null params) s >>= λ result.
        ok (dict (("result", result) ∷ [])))
