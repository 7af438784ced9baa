-- ===== src/Session/Waiting.antt =====
-- Sending a message and waiting for the session to be idle: `send` and `send_and_wait` of
-- python/copilot/session.py.
use Prim.Native.String.{◌++◌ as append}
use copilot_sdk.Prelude.{
  ℕ, ErrorKind, if_true, if_both, String, ◌≡◌, refl, ap, ◌∙◌, Bool, true, false, ◌||◌, Option, none,
  some, List, [], ◌∷◌, arith, Result, ok, err, raise, Error, key_error, other_error, timeout_error,
  type_error, ◌>>=◌, or_else, if◌then◌else◌,
}
use copilot_sdk.Value.{Value, null, str, obj, get?, dict}
use copilot_sdk.Session.{Session}
use copilot_sdk.Session.Events.{subscribe, unsubscribe, contains, contains-discard}

-- The events that the code tells apart, and all others.
pub data EventType : Type 0 where
  assistant_message session_idle session_error : EventType
  other_event : String → EventType

-- `message` is `event.data.message`, if the data has one, and `text` is `str(event.data)`.
pub record Event : Type 0 where
  pub type : EventType
  pub message : Option String
  pub text : String

-- `JsonRpcClient.request` as a session uses it: a method and its parameters.
abbrev pub Request : Type 0
Request = String → Value → Result Value

-- `d[k]`
abbrev pub item : String → Value → Result Value
item k (obj fs) = elim (get? k fs) [ none ↦ raise key_error k | some v ↦ ok v ]
item k _ = raise type_error "indices must be integers"

-- `MessageOptions`; a missing option is sent as None.
pub record MessageOptions : Type 0 where
  pub prompt : String
  pub attachments : Option Value
  pub mode : Option Value

-- `send`
unfoldable pub send : Request → MessageOptions → Session → Result Value
send request options s = do
  response ← request "session.send" (
      dict (
        ("sessionId", str s.session_id)
        ∷ ("prompt", str options.prompt)
        ∷ ("attachments", or_else options.attachments null)
        ∷ ("mode", or_else options.mode null)
        ∷ []))
  item "messageId" response

-- The variables of `send_and_wait` that its handler writes.
pub record Waiter : Type 0 where
  pub idle : Bool
  pub error_event : Option Error
  pub last_assistant_message : Option Event

unfoldable pub waiter : Waiter
waiter = record { idle = false; error_event = none; last_assistant_message = none }

abbrev error_text : Event → String
error_text event = append "Session error: " (or_else event.message event.text)

-- What `handler` does for a type of event.
abbrev on_type : EventType → Event → Waiter → Waiter
on_type assistant_message event w = record w { last_assistant_message = some event }
on_type session_idle event w = record w { idle = true }
on_type session_error event w = record w {
  idle = true;
  error_event = some (record { kind = other_error; message = error_text event });
}
on_type (other_event t) event w = w

-- `handler`
unfoldable pub on_event : Event → Waiter → Waiter
on_event event w = on_type event.type event w

-- The events that are dispatched until the caller goes on, in order.
unfoldable pub on_events : List Event → Waiter → Waiter
on_events [] w = w
on_events (e ∷ es) w = on_events es (on_event e w)

abbrev raise_or : Option Error → Option Event → Result (Option Event)
raise_or none m = ok m
raise_or (some e) m = err e

-- The end of the wait: it times out unless the event was set meanwhile.
abbrev finish : Waiter → Result (Option Event)
finish w =
    if w.idle
    then raise_or w.error_event w.last_assistant_message
    else raise timeout_error "Timeout waiting for session.idle"

-- `except asyncio.TimeoutError`: a timeout is raised again with another text, also one that `send` raised.
unfoldable pub rewrite_timeout : ErrorKind → Error → Error
rewrite_timeout timeout_error e = record {
  kind = timeout_error;
  message = "Timeout waiting for session.idle";
}
rewrite_timeout _ e = e

abbrev except_timeout : Result (Option Event) → Result (Option Event)
except_timeout (ok m) = ok m
except_timeout (err e) = err (rewrite_timeout e.kind e)

-- `send_and_wait`, given the events that are dispatched from the subscription until the wait is over, the
-- handler that it makes, and what else happens to the session meanwhile. The handler is subscribed before
-- `send` and taken away at the end, whether the method raises or not.
unfoldable pub send_and_wait :
    Request
    → MessageOptions
    → List Event
    → ℕ
    → (Session → Session)
    → Session
    → Result (Option Event) × Session
unfolding on_events waiter
send_and_wait request options events handler meanwhile s = (
  except_timeout (send request options s >>= λ _. finish (on_events events waiter)),
  unsubscribe handler (meanwhile (subscribe handler s)),
)

abbrev ends_type : EventType → Bool
ends_type session_idle = true
ends_type session_error = true
ends_type _ = false

abbrev is_error : EventType → Bool
is_error session_error = true
is_error _ = false

abbrev is_message : EventType → Bool
is_message assistant_message = true
is_message _ = false

-- Some event of the list is of a type.
unfoldable pub any : (EventType → Bool) → List Event → Bool
any p [] = false
any p (e ∷ es) = p e.type || any p es

abbrev or_later : Option Event → Option Event → Option Event
or_later e none = e
or_later e (some f) = some f

abbrev keep_if : Bool → Event → Option Event
keep_if true e = some e
keep_if false e = none

-- The last event of the list of a type.
unfoldable pub last_of : (EventType → Bool) → List Event → Option Event
last_of p [] = none
last_of p (e ∷ es) = or_later (keep_if (p e.type) e) (last_of p es)

idle-on_event : (e : Event) (w : Waiter) → (on_event e w).idle ≡ (w.idle || ends_type e.type)
unfolding on_event
idle-on_event e w = ground arith

idle-on_events :
    (es : List Event) (w : Waiter) → (on_events es w).idle ≡ (w.idle || any ends_type es)
unfolding on_events any
idle-on_events [] w = ground arith
idle-on_events (e ∷ es) w = idle-on_events es (on_event e w) ∙ ground (arith, idle-on_event e w)

message-on_event :
    (e : Event) (w : Waiter)
    → (on_event e w).last_assistant_message
      ≡ or_later w.last_assistant_message (keep_if (is_message e.type) e)
unfolding on_event
message-on_event e w = ground arith

message-on_events :
    (es : List Event) (w : Waiter)
    → (on_events es w).last_assistant_message
      ≡ or_later w.last_assistant_message (last_of is_message es)
unfolding on_events last_of
message-on_events [] w = refl
message-on_events (e ∷ es) w =
    message-on_events es (on_event e w)
    ∙ ap (λ m. or_later m (last_of is_message es)) (message-on_event e w)
    ∙ or_later-assoc w.last_assistant_message (keep_if (is_message e.type) e)
        (last_of is_message es)
  where
    or_later-assoc : (a b c : Option Event) → or_later (or_later a b) c ≡ or_later a (or_later b c)
    or_later-assoc a b none = refl
    or_later-assoc a b (some c) = refl

-- The exception that `handler` makes of an error event.
abbrev pub session_failure : Event → Error
session_failure e = record { kind = other_error; message = error_text e }

abbrev failure_after : Option Error → Option Event → Option Error
failure_after old none = old
failure_after old (some e) = some (session_failure e)

failure-on_event :
    (e : Event) (w : Waiter)
    → (on_event e w).error_event ≡ failure_after w.error_event (keep_if (is_error e.type) e)
unfolding on_event
failure-on_event e w = ground arith

failure-on_events :
    (es : List Event) (w : Waiter)
    → (on_events es w).error_event ≡ failure_after w.error_event (last_of is_error es)
unfolding on_events last_of
failure-on_events [] w = refl
failure-on_events (e ∷ es) w =
    failure-on_events es (on_event e w)
    ∙ ap (λ m. failure_after m (last_of is_error es)) (failure-on_event e w)
    ∙ later w.error_event (keep_if (is_error e.type) e) (last_of is_error es)
  where
    later :
        (a : Option Error) (b c : Option Event)
        → failure_after (failure_after a b) c ≡ failure_after a (or_later b c)
    later a b none = refl
    later a b (some c) = refl

-- What a caller of `send_and_wait` gets for the events that arrive: a timeout unless one of them is
-- an idle or an error event, the last error if there is one, and else the last assistant message.
abbrev pub expected : List Event → Result (Option Event)
expected events =
    if any ends_type events
    then raise_or (failure_after none (last_of is_error events)) (last_of is_message events)
    else raise timeout_error "Timeout waiting for session.idle"

or_later-none : (m : Option Event) → or_later none m ≡ m
or_later-none none = refl
or_later-none (some e) = refl

handler-gone :
    (handler : ℕ) (s : Session) → contains handler (unsubscribe handler s).event_handlers ≡ false
unfolding unsubscribe
handler-gone handler s =
    contains-discard handler handler s.event_handlers
    ∙ if_true false (contains handler s.event_handlers) (ground arith)

expected-kept : (events : List Event) → except_timeout (expected events) ≡ expected events
unfolding rewrite_timeout
expected-kept events =
    if_both (λ r. except_timeout r ≡ r) (any ends_type events)
      (kept (last_of is_error events) (last_of is_message events)) refl
  where
    kept :
        (e m : Option Event)
        → except_timeout (raise_or (failure_after none e) m) ≡ raise_or (failure_after none e) m
    kept none m = refl
    kept (some e) m = refl

finished : (events : List Event) → finish (on_events events waiter) ≡ expected events
unfolding waiter any
finished events = rw (idle-on_events events waiter) (
    rw (message-on_events events waiter)
      (rw (failure-on_events events waiter) (rw (or_later-none (last_of is_message events)))))

-- `send_and_wait` after a message that was sent: a timeout if no idle and no error event arrives,
-- else the exception of the last error event if there is one, else the last assistant message, or None
-- if there was none. Other events change nothing. In every case its own handler is not subscribed any more
-- when it ends, whatever else has happened to the session.
pub send_and_wait-expected :
    (request : Request) (options : MessageOptions) (events : List Event) (handler : ℕ)
    (meanwhile : Session → Session) (s : Session) (id : Value)
    → send request options s ≡ ok id
    → let r = send_and_wait request options events handler meanwhile s in
      (r.0 ≡ expected events) × (contains handler r.1.event_handlers ≡ false)
unfolding send_and_wait
send_and_wait-expected request options events handler meanwhile s id sent = (
  ap (λ r. except_timeout (r >>= λ _. finish (on_events events waiter))) sent
      ∙ ap except_timeout (finished events)
      ∙ expected-kept events,
  handler-gone handler (meanwhile (subscribe handler s)),
)

-- If sending fails, the caller does not wait, and gets that exception, but for a timeout, whose text is
-- replaced; the handler is taken away as well.
pub send_and_wait-unsent :
    (request : Request) (options : MessageOptions) (events : List Event) (handler : ℕ)
    (meanwhile : Session → Session) (s : Session) (e : Error)
    → send request options s ≡ err e
    → let r = send_and_wait request options events handler meanwhile s in
      (r.0 ≡ err (rewrite_timeout e.kind e)) × (contains handler r.1.event_handlers ≡ false)
unfolding send_and_wait
send_and_wait-unsent request options events handler meanwhile s e sent = (
  ap (λ r. except_timeout (r >>= λ _. finish (on_events events waiter))) sent,
  handler-gone handler (meanwhile (subscribe handler s)),
)
