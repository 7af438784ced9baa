-- ===== src/Session/Requests.antt =====
-- The requests that the CLI makes of a session: `_handle_permission_request`,
-- `_handle_user_input_request` and `_handle_hooks_invoke` of python/copilot/session.py. A call of a
-- handler, awaited if need be, gives a value or raises.
use copilot_sdk.Prelude.{
  ℕ, String, ◌≡◌, ◌≢◌, refl, true, Option, none, some, [], ◌∷◌, Result, ok, err, raise,
  runtime_error, str_eq, if◌then◌else◌,
}
use copilot_sdk.Value.{Value, Fields, null, bool, str, arr, nil, dict, get_or, truthy}
use copilot_sdk.Session.{Session, Hooks}

-- What the call of a handler with an argument and the session's id gives.
abbrev pub Call : Type 0
Call = ℕ → Value → String → Result Value

abbrev pub denied : Value
denied = dict (("kind", str "denied-no-approval-rule-and-could-not-request-from-user") ∷ [])

-- `except Exception: return d`
abbrev pub or_on_error : Value → Result Value → Value
or_on_error d (ok v) = v
or_on_error d (err e) = d

-- The decision of a handler, or the denial where there is none or it fails.
abbrev pub decide_permission : Call → Value → String → Option ℕ → Value
decide_permission call request session_id none = denied
decide_permission call request session_id (some h) = or_on_error denied (call h request session_id)

-- `_handle_permission_request`
unfoldable pub handle_permission_request : Call → Value → Session → Value
handle_permission_request call request s =
    decide_permission call request s.session_id s.permission_handler

abbrev or_empty : Value → Value
or_empty v = if truthy v then v else arr nil

-- The `UserInputRequest` made from the fields of a request
unfoldable pub user_input_request : Fields → Value
user_input_request request = dict (
    ("question", get_or "question" (str "") request)
    ∷ ("choices", or_empty (get_or "choices" null request))
    ∷ ("allowFreeform", get_or "allowFreeform" (bool true) request)
    ∷ [])

-- `_handle_user_input_request`
unfoldable pub handle_user_input_request : Call → Fields → Session → Result Value
unfolding user_input_request
handle_user_input_request call request s = elim s.user_input_handler [
  | none ↦ raise runtime_error "User input requested but no handler registered"
  | some h ↦ call h (user_input_request request) s.session_id
]

-- The entries of `handler_map`
unfoldable pub hook_handler : Hooks → String → Option ℕ
hook_handler hooks hook_type =
    if str_eq hook_type "preToolUse"
    then hooks.on_pre_tool_use
    else if str_eq hook_type "postToolUse"
    then hooks.on_post_tool_use
    else if str_eq hook_type "userPromptSubmitted"
    then hooks.on_user_prompt_submitted
    else if str_eq hook_type "sessionStart"
    then hooks.on_session_start
    else if str_eq hook_type "sessionEnd"
    then hooks.on_session_end
    else if str_eq hook_type "errorOccurred"
    then hooks.on_error_occurred
    else none

abbrev call_hook : Call → Option ℕ → Value → String → Value
call_hook call none input session_id = null
call_hook call (some h) input session_id = or_on_error null (call h input session_id)

-- `_handle_hooks_invoke`; `null` is Python's None.
unfoldable pub handle_hooks_invoke : Call → String → Value → Session → Value
unfolding hook_handler
handle_hooks_invoke call hook_type input s = elim s.hooks [
  | none ↦ null
  | some hooks ↦ call_hook call (hook_handler hooks hook_type) input s.session_id
]

not_denied : (r : Result Value) → or_on_error denied r ≢ denied → r ≡ ok (or_on_error denied r)
not_denied (ok v) h = refl
not_denied (err e) h = absurd (h refl)

decided :
    (call : Call) (request : Value) (session_id : String) (p : Option ℕ)
    → decide_permission call request session_id p ≢ denied
    → (h : ℕ) × (p ≡ some h)
      × (call h request session_id ≡ ok (decide_permission call request session_id p))
decided call request session_id none h = absurd (h refl)
decided call request session_id (some g) h = (g, refl, not_denied (call g request session_id) h)

-- A permission decision other than the denial is what the registered handler returned for this
-- request: with no handler, or if it raises, the request is denied.
pub permission-from_handler :
    (call : Call) (request : Value) (s : Session)
    → handle_permission_request call request s ≢ denied
    → (h : ℕ) × (s.permission_handler ≡ some h)
      × (call h request s.session_id ≡ ok (handle_permission_request call request s))
unfolding handle_permission_request
permission-from_handler call request s granted =
    decided call request s.session_id s.permission_handler granted
