-- ===== src/Session/Lifecycle.antt =====
-- The other calls of a session: `get_messages`, `destroy` and `abort` of python/copilot/session.py.
use copilot_sdk.Prelude.{
  String, ◌≡◌, refl, none, List, [], ◌∷◌, Result, ok, err, Error, ◌>>=◌, lookup-nil, map, All,
}
use copilot_sdk.Value.{Value, Items, str, nil, cons, dict, iterate, of_list}
use copilot_sdk.Session.{Session}
use copilot_sdk.Session.Tools.{get_tool_handler}
use copilot_sdk.Session.Requests.{Call, denied, handle_permission_request}
use copilot_sdk.Session.Waiting.{Request, item}

-- `{"sessionId": self.session_id}`
abbrev pub own_id : Session → Value
own_id s = dict (("sessionId", str s.session_id) ∷ [])

-- `[session_event_from_dict(d) for d in items]`
unfoldable pub parse_each : {E : Type 0} → (Value → Result E) → Items → Result (List E)
parse_each parse nil = ok []
parse_each parse (cons v vs) = do e ← parse v; es ← parse_each parse vs; ok (e ∷ es)

-- Items that are read back one by one are read back together.
pub parse_each-of_list :
    {M : Type 0} (read : Value → Result M) (write : M → Value) (ms : List M)
    → All (λ m. read (write m) ≡ ok m) ms
    → parse_each read (of_list (map write ms)) ≡ ok ms
unfolding parse_each of_list
parse_each-of_list read write [] h = refl
parse_each-of_list read write (m ∷ ms) (h, hs) = rw (h, parse_each-of_list read write ms hs)

-- `get_messages`
unfoldable pub get_messages :
    {E : Type 0} → Request → (Value → Result E) → Session → Result (List E)
unfolding parse_each
get_messages request parse s = do
  response ← request "session.getMessages" (own_id s)
  events ← item "events" response
  items ← iterate events
  parse_each parse items

abbrev after_destroy : Session → Result Value → Result (Unit {0}) × Session
after_destroy s (err e) = (err e, s)
after_destroy s (ok _) =
    (ok tt, record s { event_handlers = []; tool_handlers = []; permission_handler = none })

-- `destroy`: the handlers are cleared only once the server has agreed.
unfoldable pub destroy : Request → Session → Result (Unit {0}) × Session
destroy request s = after_destroy s (request "session.destroy" (own_id s))

-- `abort`
unfoldable pub abort : Request → Session → Result (Unit {0})
abort request s = request "session.abort" (own_id s) >>= λ _. ok tt

-- A destroyed session has no event handlers and no tools and denies every permission; its user input
-- handler and its hooks are still registered.
pub record IsDestroyed (before after : Session) : Type 0 where
  pub no_events : after.event_handlers ≡ []
  pub no_tools : (name : String) → get_tool_handler name after ≡ none
  pub denies :
      (call : Call) (request : Value) → handle_permission_request call request after ≡ denied
  pub keeps_input : after.user_input_handler ≡ before.user_input_handler
  pub keeps_hooks : after.hooks ≡ before.hooks

-- When the server agrees, `destroy` leaves a session with no event handlers, no tools and every
-- permission denied, and with its user input handler and its hooks as they were.
pub destroy-IsDestroyed :
    (request : Request) (s : Session) (v : Value)
    → request "session.destroy" (own_id s) ≡ ok v
    → ((destroy request s).0 ≡ ok tt) × IsDestroyed s (destroy request s).1
unfolding destroy get_tool_handler handle_permission_request
destroy-IsDestroyed request s v agreed = rw agreed (
  refl,
  record {
    no_events = refl;
    no_tools = λ name. lookup-nil name;
    denies = λ call r. refl;
    keeps_input = refl;
    keeps_hooks = refl;
  },
)

-- When the server refuses, `destroy` raises what the request raised and the session is as before.
destroy-refused :
    (request : Request) (s : Session) (e : Error)
    → request "session.destroy" (own_id s) ≡ err e
    → destroy request s ≡ (err e, s)
unfolding destroy
destroy-refused request s e refused = rw refused
