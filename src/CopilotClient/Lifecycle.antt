-- ===== src/CopilotClient/Lifecycle.antt =====
-- Events of the session lifecycle and the notifications of the CLI: `on`, its two functions that
-- unsubscribe, `_dispatch_lifecycle_event` and `handle_notification` of python/copilot/client.py, with
-- `SessionLifecycleEvent` of python/copilot/types.py. A handler is a number.
pub mod Notified
pub mod Subscriptions
use copilot_sdk.Prelude.{
  ℕ, zero, suc, String, Bool, true, false, Option, none, some, List, [], ◌∷◌, ◌++◌, ◌==◌,
  if◌then◌else◌, Dict, lookup, insert, or_else, str_eq, Result, ok, err, raise, ◌>>=◌, value_error,
  type_error, other_error,
}
use copilot_sdk.Value.{Value, Fields, null, str, arr, obj, get?, get_or, truthy}
use copilot_sdk.Session.{Session}
use copilot_sdk.Session.Events.{Calls, dispatch_event}
use copilot_sdk.Session.Waiting.{item}
use copilot_sdk.CopilotClient.State.{Client}

-- `SessionLifecycleEventMetadata`
pub record Metadata : Type 0 where
  pub start_time : Value
  pub modified_time : Value
  pub summary : Value

-- `SessionLifecycleEvent`
pub record LifecycleEvent : Type 0 where
  pub type : Value
  pub session_id : Value
  pub metadata : Option Metadata

-- `SessionLifecycleEventMetadata.from_dict`
unfoldable pub metadata_from_dict : Value → Result Metadata
metadata_from_dict (obj data') = ok (record {
  start_time = get_or "startTime" (str "") data';
  modified_time = get_or "modifiedTime" (str "") data';
  summary = get_or "summary" null data';
})
metadata_from_dict v = raise other_error "object has no attribute 'get'"

-- `if "metadata" in data and data["metadata"]`
abbrev metadata_of : Option Value → Result (Option Metadata)
metadata_of none = ok none
metadata_of (some v) = if truthy v then (metadata_from_dict v >>= λ m. ok (some m)) else ok none

-- `SessionLifecycleEvent.from_dict`
unfoldable pub lifecycle_event_from_dict : Fields → Result LifecycleEvent
unfolding metadata_from_dict
lifecycle_event_from_dict data' = metadata_of (get? "metadata" data') >>= λ metadata. ok (record {
  type = get_or "type" (str "session.updated") data';
  session_id = get_or "sessionId" (str "") data';
  metadata = metadata;
})

-- The first argument of `on`
pub data Argument : Type 0 where
  callable : ℕ → Argument
  event_type : String → Argument
  neither : Argument

abbrev pub typed_handlers : String → Client → List ℕ
typed_handlers t c = or_else (lookup t c.typed_lifecycle_handlers) []

-- `on`
unfoldable pub on : Argument → Option ℕ → Client → Result (Unit {0}) × Client
on (callable h) none c = (ok tt, record c { lifecycle_handlers = c.lifecycle_handlers ++ h ∷ [] })
on (event_type t) (some h) c = (
  ok tt,
  record c {
    typed_lifecycle_handlers = insert t (typed_handlers t c ++ h ∷ []) c.typed_lifecycle_handlers;
  },
)
on _ _ c = (raise value_error "Invalid arguments: use on(handler) or on(event_type, handler)", c)

-- `if h in hs: hs.remove(h)`
unfoldable pub remove : ℕ → List ℕ → List ℕ
remove h [] = []
remove h (g ∷ gs) = let rest = remove h gs in if g == h then gs else g ∷ rest

-- `unsubscribe_wildcard`
unfoldable pub unsubscribe_wildcard : ℕ → Client → Client
unfolding remove
unsubscribe_wildcard h c = record c { lifecycle_handlers = remove h c.lifecycle_handlers }

abbrev pub remove_typed : String → ℕ → Option (List ℕ) → Dict (List ℕ) → Dict (List ℕ)
remove_typed t h none d = d
remove_typed t h (some hs) d = insert t (remove h hs) d

-- `unsubscribe_typed`: the list in the dict is changed in place.
unfoldable pub unsubscribe_typed : String → ℕ → Client → Client
unsubscribe_typed t h c = record c {
  typed_lifecycle_handlers =
      remove_typed t h (lookup t c.typed_lifecycle_handlers) c.typed_lifecycle_handlers;
}

-- What a call of a lifecycle handler does: it may raise, and it may change the client.
abbrev pub LifecycleCalls : Type 0
LifecycleCalls = ℕ → LifecycleEvent → Client → Result (Unit {0}) × Client

-- A loop over handlers that were copied, with a trace of the calls; exceptions are ignored.
unfoldable pub call_each : LifecycleCalls → LifecycleEvent → List ℕ → Client → List ℕ × Client
call_each call event [] c = ([], c)
call_each call event (h ∷ hs) c =
    let rest = call_each call event hs (call h event c).1 in (h ∷ rest.0, rest.1)

-- `self._typed_lifecycle_handlers.get(event.type, [])`
unfoldable pub handlers_for : Value → Client → Result (List ℕ)
handlers_for (str t) c = ok (typed_handlers t c)
handlers_for (arr xs) c = raise type_error "unhashable type"
handlers_for (obj fs) c = raise type_error "unhashable type"
handlers_for v c = ok []

-- Both loops, one behind the other, over lists that were copied before the first.
abbrev call_both : LifecycleCalls → LifecycleEvent → List ℕ → List ℕ → Client → List ℕ × Client
call_both call event typed wildcard c =
    let first = call_each call event typed c in
    let second = call_each call event wildcard first.1 in (first.0 ++ second.0, second.1)

abbrev pub with_handlers :
    LifecycleCalls → LifecycleEvent → Result (List ℕ) → Client → Result (List ℕ) × Client
with_handlers call event (err e) c = (err e, c)
with_handlers call event (ok typed) c =
    let r = call_both call event typed c.lifecycle_handlers c in (ok r.0, r.1)

-- `_dispatch_lifecycle_event`
unfoldable pub dispatch_lifecycle_event :
    LifecycleCalls → LifecycleEvent → Client → Result (List ℕ) × Client
unfolding call_each handlers_for
dispatch_lifecycle_event call event c = with_handlers call event (handlers_for event.type c) c

-- `self._sessions.get(session_id)` for any value
unfoldable pub session_of : Value → Client → Result (Option Session)
session_of (str id) c = ok (lookup id c.sessions)
session_of (arr xs) c = raise type_error "unhashable type"
session_of (obj fs) c = raise type_error "unhashable type"
session_of v c = ok none

module _ {E : Type 0} (parse : Value → Result E) (order : List ℕ → List ℕ)
    (call : Calls E Client) where
  -- The event, and the session that it is for
  unfoldable pub session_event : Fields → Client → Result (E × Option Session)
  unfolding session_of
  session_event params c = do
    id ← item "sessionId" (obj params)
    event_dict ← item "event" (obj params)
    event ← parse event_dict
    s ← session_of id c
    ok (event, s)

  -- `if session: session._dispatch_event(event)`, with a trace of the calls. A handler may change the
  -- client and every session in it.
  abbrev pub deliver : Result (E × Option Session) → Client → Result (List ℕ) × Client
  deliver (err e) c = (err e, c)
  deliver (ok (event, none)) c = (ok [], c)
  deliver (ok (event, some s)) c = let r = dispatch_event order call event s c in (ok r.0, r.1)

  abbrev dispatch_parsed :
      LifecycleCalls → Result LifecycleEvent → Client → Result (List ℕ) × Client
  dispatch_parsed lifecycle (err e) c = (err e, c)
  dispatch_parsed lifecycle (ok event) c = dispatch_lifecycle_event lifecycle event c

  -- `handle_notification`, with a trace of the handlers that it calls
  unfoldable pub handle_notification :
      LifecycleCalls → String → Fields → Client → Result (List ℕ) × Client
  unfolding session_event
  handle_notification lifecycle method params c =
      if str_eq method "session.event"
      then deliver (session_event params c) c
      else if str_eq method "session.lifecycle"
      then dispatch_parsed lifecycle (lifecycle_event_from_dict params) c
      else (ok [], c)
