-- ===== src/Generated/SessionEvents/Delivered.antt =====
-- Session events on their way to the application: the events that the server writes with `to_dict` of
-- python/copilot/generated/session_events.py, read by `handle_notification` of python/copilot/client.py and
-- by `get_messages` of python/copilot/session.py.
use copilot_sdk.Prelude.{
  ℕ, String, ◌≡◌, refl, ap, ◌∙◌, some, List, [], ◌∷◌, map, All, lookup, ok, ◌>>=◌,
}
use copilot_sdk.Value.{Value, Fields, str, arr, dict, of_list, of_dict, get?, iterate}
use copilot_sdk.Session.{Session}
use copilot_sdk.Session.Events.{Calls, dispatch_event}
use copilot_sdk.Session.Waiting.{Request, item}
use copilot_sdk.Session.Lifecycle.{own_id, parse_each, parse_each-of_list, get_messages}
use copilot_sdk.CopilotClient.State.{Client}
use copilot_sdk.CopilotClient.Lifecycle.{LifecycleCalls, handle_notification}
use copilot_sdk.CopilotClient.Lifecycle.Notified.{handle_notification-event}
use copilot_sdk.Generated.SessionEvents.{Library, Lawful}
use copilot_sdk.Generated.SessionEvents.Events.{
  SessionEvent, session_event_from_dict, session_event_to_dict,
}
use copilot_sdk.Generated.SessionEvents.Events.RoundTrip.{session_event-round_trip}

-- The parameters of the notification for an event of a session
abbrev pub notified : (lib : Library) → String → SessionEvent lib → Fields
notified lib id x = of_dict (("sessionId", str id) ∷ ("event", session_event_to_dict lib x) ∷ [])

-- The answer with the events so far
abbrev pub recorded : (lib : Library) → List (SessionEvent lib) → Value
recorded lib xs = dict (("events", arr (of_list (map (session_event_to_dict lib) xs))) ∷ [])

events-back :
    (lib : Library)
    → Lawful lib
    → (xs : List (SessionEvent lib))
    → All (λ x. session_event_from_dict lib (session_event_to_dict lib x) ≡ ok x) xs
events-back lib laws [] = tt
events-back lib laws (x ∷ xs) = (session_event-round_trip lib laws x, events-back lib laws xs)

-- Session events reach the application as the server sent them, with everything in their data: an event in a
-- notification is dispatched to the session that it is for, whose handlers may change all of the client, and
-- `get_messages` returns exactly the events that the server has recorded, in order. Dates and UUIDs are
-- assumed to be parsed from what they print as, and None to be no date.
pub events-delivered :
    (lib : Library)
    → Lawful lib
    → (order : List ℕ → List ℕ) (call : Calls (SessionEvent lib) Client)
      (lifecycle : LifecycleCalls) (request : Request) (c : Client) (id : String) (s : Session)
      (x : SessionEvent lib) (xs : List (SessionEvent lib))
    → lookup id c.sessions ≡ some s
    → request "session.getMessages" (own_id s) ≡ ok (recorded lib xs)
    → let r =
        handle_notification
          (session_event_from_dict lib)
          order
          call
          lifecycle
          "session.event"
          (notified lib id x)
          c in
      let d = dispatch_event order call x s c in
      (r ≡ (ok d.0, d.1)) × (get_messages request (session_event_from_dict lib) s ≡ ok xs)
unfolding get_messages get? of_dict iterate
events-delivered lib laws order call lifecycle request c id s x xs listed answered = (
  handle_notification-event (session_event_from_dict lib) order call lifecycle (notified lib id x) c
      id (session_event_to_dict lib x) x s refl refl (session_event-round_trip lib laws x) listed,
  ap
        (λ r. r >>= λ v. item "events" v >>= λ vs.
          iterate vs >>= λ items. parse_each (session_event_from_dict lib) items)
        answered
      ∙ parse_each-of_list (session_event_from_dict lib) (session_event_to_dict lib) xs
          (events-back lib laws xs),
)
