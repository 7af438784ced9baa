-- ===== src/CopilotClient/Examples/Lifecycle.antt =====
-- Tests of the events of `CopilotClient` (python/copilot/client.py).
use mathlib.Core.List.Perm
use copilot_sdk.Prelude.{◌≡◌, refl, none, some, [], ◌∷◌, ◌++◌, ok, raise, runtime_error, lookup}
use copilot_sdk.Value.{Value, Fields, str, end, field, get?}
use copilot_sdk.Session.{Session, new as new_session}
use copilot_sdk.CopilotClient.State.{Client}
use copilot_sdk.Session.Events.{Calls, subscribe, dispatch_event, call_all, add, contains}
use copilot_sdk.CopilotClient.Lifecycle.{
  handle_notification, session_event, session_of, LifecycleEvent, callable, event_type,
  typed_handlers, on, unsubscribe_wildcard, unsubscribe_typed, dispatch_lifecycle_event,
}
use copilot_sdk.CopilotClient.Lifecycle.Notified.{
  IsDelivered, handle_notification-IsDelivered, dispatch_lifecycle_event-all,
}
use copilot_sdk.CopilotClient.Lifecycle.Subscriptions.{SameHandlers, on-unsubscribe}
use copilot_sdk.CopilotClient.Examples.{fresh, running}

abbrev created : LifecycleEvent
created = record { type = str "session.created"; session_id = str "s1"; metadata = none }

abbrev subscribed : Client
subscribed = (on (event_type "session.created") (some 4) (on (callable 3) none fresh).1).1

dispatch_lifecycle_event-all_example :
    (dispatch_lifecycle_event (λ h e c. (raise runtime_error "", c)) created subscribed).0
    ≡ ok (typed_handlers "session.created" subscribed ++ subscribed.lifecycle_handlers)
dispatch_lifecycle_event-all_example =
    dispatch_lifecycle_event-all (λ h e c. (raise runtime_error "", c)) created "session.created"
      subscribed refl

on-unsubscribe_example :
    SameHandlers subscribed (unsubscribe_wildcard 3 (on (callable 3) none subscribed).1)
    × SameHandlers subscribed (
        unsubscribe_typed "session.created" 3
          (on (event_type "session.created") (some 3) subscribed).1)
on-unsubscribe_example = on-unsubscribe "session.created" 3 subscribed

abbrev event_params : Fields
event_params = field "sessionId" (str "s1") (field "event" (str "idle") end)

abbrev listener : Session
listener = subscribe 7 (new_session "s1" none)

abbrev listening : Client
listening = record running { sessions = ("s1", listener) ∷ [] }

-- A handler that makes the client forget all its sessions.
abbrev forget : Calls Value Client
forget h e c = (ok tt, record c { sessions = [] })

handle_notification-IsDelivered_example : IsDelivered event_params listening (
    handle_notification ok
      (λ hs. hs)
      forget
      (λ h e c. (ok tt, c))
      "session.event"
      event_params
      listening)
handle_notification-IsDelivered_example =
    handle_notification-IsDelivered ok (λ hs. hs) forget (λ h e c. (ok tt, c)) (λ hs. Perm.refl hs)
      event_params listening

-- The notification above reaches the session that is listed.
delivered :
    (handle_notification ok
      (λ hs. hs)
      forget
      (λ h e c. (ok tt, c))
      "session.event"
      event_params
      listening).0
    ≡ ok (7 ∷ [])
unfolding get? lookup handle_notification session_event session_of dispatch_event call_all subscribe
    add contains new_session
delivered = refl
