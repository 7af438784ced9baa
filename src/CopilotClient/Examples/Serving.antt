-- ===== src/CopilotClient/Examples/Serving.antt =====
-- Tests of the requests of the CLI (python/copilot/client.py).
use copilot_sdk.Prelude.{
  ℕ, String, ◌≡◌, ◌≢◌, refl, none, some, [], ◌∷◌, ok, err, Error, os_error, lookup, insert, Returns,
}
use copilot_sdk.Value.{Value, Fields, null, str, obj, end, field, dict, get?, truthy}
use copilot_sdk.Session.{Session, new as new_session, register_permission_handler}
use copilot_sdk.Session.Tools.{get_tool_handler, register_tools}
use copilot_sdk.Session.Requests.{Call}
use copilot_sdk.CopilotClient.Sessions.{configured}
use copilot_sdk.CopilotClient.Serving.{
  Outcome, plain, ToolCall, handle_permission_request, handle_tool_call_request,
  build_unsupported_tool_result, failure, hidden, normalize_tool_result,
}
use copilot_sdk.CopilotClient.Serving.Answers.{
  IsDecided, permission-from_session, IsToolCall, invocation_of, tool_call-answered,
}
use copilot_sdk.CopilotClient.Examples.{config, with_session}

abbrev params : Fields
params = field "sessionId" (str "s1") (
    field "toolCallId" (str "t1") (
      field "toolName" (str "read")
        (field "permissionRequest" (obj (field "kind" (str "shell") end)) end)))

abbrev approves : Call
approves h v id = ok (dict (("kind", str "approved") ∷ []))

permission-from_session_example :
    Returns
      (IsDecided approves params with_session)
      (handle_permission_request approves params with_session)
permission-from_session_example = permission-from_session approves params with_session

abbrev the_session : Session
the_session = configured config "s1" none

params-IsToolCall : IsToolCall params with_session the_session "read"
unfolding get? truthy lookup insert configured new_session register_tools
    register_permission_handler
params-IsToolCall = record {
  session = record { id = "s1"; named = refl; listed = refl };
  id_given = refl;
  call_given = refl;
  name_given = refl;
  tool = refl;
}

abbrev fails : ToolCall
fails h v = err (record { kind = os_error; message = "no disk" })

abbrev show_text : Value → String
show_text v = "value"

tool_call-answered_example :
    (result : Value) × (handle_tool_call_request show_text fails params with_session
      ≡ ok (dict (("result", result) ∷ [])))
    × (get_tool_handler "read" the_session ≡ none → result ≡ build_unsupported_tool_result "read")
    × ((h : ℕ) (e : Error)
        → get_tool_handler "read" the_session ≡ some h
        → fails h (invocation_of params) ≡ err e
        → result ≡ failure hidden e.message)
    × ((h : ℕ)
        → get_tool_handler "read" the_session ≡ some h
        → fails h (invocation_of params) ≡ ok (plain null)
        → result ≡ failure "Tool returned no result." "tool returned no result")
    × ((h : ℕ) (o : Outcome)
        → get_tool_handler "read" the_session ≡ some h
        → fails h (invocation_of params) ≡ ok o
        → o ≢ plain null
        → result ≡ normalize_tool_result o)
tool_call-answered_example =
    tool_call-answered show_text fails params with_session the_session "read" params-IsToolCall
