-- ===== src/Session/Examples.antt =====
-- Tests of `CopilotSession` (python/copilot/session.py) on concrete inputs.
use mathlib.Core.List.{Perm}
use mathlib.Core.List.Perm
use copilot_sdk.Prelude.{◌≡◌, refl, false, none, some, List, [], ◌∷◌, ok, raise, os_error}
use copilot_sdk.Value.{Value, null, str, obj, end, field, get?}
use copilot_sdk.Session.{Session, new}
use copilot_sdk.Session.Events.{
  Calls, add, contains, subscribe, unsubscribe, dispatch_event, dispatch_event-all,
  unsubscribe-subscribe,
}
use copilot_sdk.Session.Tools.{
  Tool, register_tools, get_tool_handler, last_handler, get_tool_handler-register_tools,
}
use copilot_sdk.Session.Waiting.{
  Request, MessageOptions, Event, assistant_message, session_idle, send, send_and_wait, expected,
  send_and_wait-expected,
}
use copilot_sdk.Session.Lifecycle.{destroy, IsDestroyed, destroy-IsDestroyed}

abbrev sample : Session
sample = new "s1" none

no_handlers : sample.event_handlers ≡ []
unfolding new
no_handlers = refl

abbrev listening : Session
listening = subscribe 8 (subscribe 7 sample)

-- The first handler raises.
abbrev calls : Calls Value Session
calls h e s = (raise os_error "no disk", s)

dispatch_event-all_example :
    Perm (dispatch_event (λ hs. hs) calls null listening listening).0 listening.event_handlers
dispatch_event-all_example =
    dispatch_event-all (λ hs. hs) calls null listening listening (λ hs. Perm.refl hs)

not_listening : contains 9 listening.event_handlers ≡ false
unfolding subscribe add contains new
not_listening = refl

unsubscribe-subscribe_example : unsubscribe 9 (subscribe 9 listening) ≡ listening
unsubscribe-subscribe_example = unsubscribe-subscribe 9 listening not_listening

-- Two tools of one name.
abbrev tools : List Tool
tools =
    record { name = "read"; description = ""; parameters = none; handler = some 1 }
    ∷ record { name = "read"; description = ""; parameters = none; handler = some 2 }
    ∷ []

get_tool_handler-register_tools_example :
    get_tool_handler "read" (register_tools (some tools) sample) ≡ last_handler "read" tools
get_tool_handler-register_tools_example = get_tool_handler-register_tools "read" (some tools) sample

abbrev options : MessageOptions
options = record { prompt = "hello"; attachments = none; mode = none }

abbrev server : Request
server method params = ok (obj (field "messageId" (str "m1") end))

sent : send server options sample ≡ ok (str "m1")
unfolding send get?
sent = refl

-- An answer, and then the end of the turn.
abbrev turn : List Event
turn =
    record { type = assistant_message; message = none; text = "hi" }
    ∷ record { type = session_idle; message = none; text = "" }
    ∷ []

send_and_wait-expected_example :
    let r = send_and_wait server options turn 9 (subscribe 4) sample in
    (r.0 ≡ expected turn) × (contains 9 r.1.event_handlers ≡ false)
send_and_wait-expected_example =
    send_and_wait-expected server options turn 9 (subscribe 4) sample (str "m1") sent

destroy-IsDestroyed_example :
    ((destroy server sample).0 ≡ ok tt) × IsDestroyed sample (destroy server sample).1
destroy-IsDestroyed_example =
    destroy-IsDestroyed server sample (obj (field "messageId" (str "m1") end)) refl
