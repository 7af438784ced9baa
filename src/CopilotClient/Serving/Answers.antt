-- ===== src/CopilotClient/Serving/Answers.antt =====
-- Which session and which handler an answer of the client comes from.
use copilot_sdk.Prelude.{
  ℕ, String, ◌≡◌, ◌≢◌, refl, ap, ◌∙◌, Bool, true, false, arith, not, ◌||◌, if_false, Option, none,
  some, lookup, Result, ok, err, ◌>>=◌, Returns, Returns-bind, if_split, subst, Error, [], ◌∷◌,
}
use copilot_sdk.Value.{Value, Fields, null, bool, int, float, str, obj, arr, get_or, dict, truthy}
use copilot_sdk.Session.{Session}
use copilot_sdk.Session.Tools.{get_tool_handler}
use copilot_sdk.Session.Requests.{
  Call, denied, handle_permission_request as session_permission, permission-from_handler,
}
use copilot_sdk.CopilotClient.State.{Client}
use copilot_sdk.CopilotClient.Serving.{
  known, find_session, handle_permission_request, ToolCall, Outcome, plain, dataclass, after_call,
  if_no_result, failure, hidden, invocation, normalize_tool_result, execute_tool_call, answer_with,
  tool_answer, build_unsupported_tool_result, handle_tool_call_request,
}

-- The invocation that the parameters describe
abbrev pub invocation_of : Fields → Value
invocation_of params =
    invocation (get_or "sessionId" null params) (get_or "toolCallId" null params)
      (get_or "toolName" null params) (get_or "arguments" null params)

-- The session is listed by the client under the id that the parameters name.
pub record IsNamed (params : Fields) (c : Client) (s : Session) : Type 0 where
  pub id : String
  pub named : get_or "sessionId" null params ≡ str id
  pub listed : lookup id c.sessions ≡ some s

find_session-some :
    (v : Value) (c : Client)
    → Returns
        (λ s. (id : String) × (v ≡ str id) × (lookup id c.sessions ≡ some s))
        (find_session v c)
unfolding find_session
find_session-some null c = tt
find_session-some (str id) c = found (lookup id c.sessions) refl
  where
    found :
        (o : Option Session)
        → lookup id c.sessions ≡ o
        → Returns
            (λ s. (j : String) × (str id ≡ str j) × (lookup j c.sessions ≡ some s))
            (known id o)
    found none e = tt
    found (some s) e = (id, refl, e)
find_session-some (arr xs) c = tt
find_session-some (obj fs) c = tt
find_session-some (bool b) c = tt
find_session-some (int n) c = tt
find_session-some (float t) c = tt

named :
    (params : Fields) (c : Client) (s : Session)
    → find_session (get_or "sessionId" null params) c ≡ ok s
    → IsNamed params c s
named params c s e =
    let (id, n, l) =
      subst
        (Returns (λ z.
          (id : String) × (get_or "sessionId" null params ≡ str id)
          × (lookup id c.sessions ≡ some z)))
        e (find_session-some (get_or "sessionId" null params) c) in
    record { id = id; named = n; listed = l }

-- A value is a dict with one entry, result, for the session that the parameters name; and a result other
-- than the denial is what the permission handler of that session returned for the request.
pub record IsDecided (call : Call) (params : Fields) (c : Client) (v : Value) : Type 0 where
  pub decision : Value
  pub shape : v ≡ dict (("result", decision) ∷ [])
  pub session : Session
  pub named : IsNamed params c session
  pub granted :
      decision ≢ denied
      → (h : ℕ) × (session.permission_handler ≡ some h)
        × (call h (get_or "permissionRequest" null params) session.session_id ≡ ok decision)

-- When `_handle_permission_request` returns, it returns a dict with one entry, result, for a session that
-- is listed under the sessionId of the parameters; and a result other than the denial is what the
-- permission handler of that session returned for the permissionRequest of the parameters.
pub permission-from_session :
    (call : Call) (params : Fields) (c : Client)
    → Returns (IsDecided call params c) (handle_permission_request call params c)
unfolding handle_permission_request
permission-from_session call params c =
    let request = get_or "permissionRequest" null params in
    if_split (Returns (IsDecided call params c))
      (not (truthy (get_or "sessionId" null params)) || not (truthy request)) _ _ (λ _. tt)
      (λ _.
        Returns-bind (IsDecided call params c) (find_session (get_or "sessionId" null params) c) _
          (λ s e. record {
            decision = session_permission call request s;
            shape = refl;
            session = s;
            named = named params c s e;
            granted = permission-from_handler call request s;
          }))

-- A valid request of a tool: the three ids are given, and the session is listed.
pub record IsToolCall (params : Fields) (c : Client) (s : Session) (name : String) : Type 0 where
  pub session : IsNamed params c s
  pub id_given : truthy (get_or "sessionId" null params) ≡ true
  pub call_given : truthy (get_or "toolCallId" null params) ≡ true
  pub name_given : truthy (get_or "toolName" null params) ≡ true
  pub tool : get_or "toolName" null params ≡ str name

find_session-named :
    (params : Fields) (c : Client) (s : Session)
    → IsNamed params c s
    → find_session (get_or "sessionId" null params) c ≡ ok s
unfolding find_session
find_session-named params c s n = ap (λ v. find_session v c) n.named ∙ ap (known n.id) n.listed

all_given : {a b d : Bool} → a ≡ true → b ≡ true → d ≡ true → (not a || not b || not d) ≡ false
all_given a b d = ground (arith, a, b, d)

abbrev finish : Result Outcome → Value
finish r = normalize_tool_result (if_no_result (after_call r))

execute-raised :
    (call : ToolCall) (params : Fields) (h : ℕ) {e : Error}
    → call h (invocation_of params) ≡ err e
    → answer_with call params "" (some h) ≡ failure hidden e.message
unfolding execute_tool_call normalize_tool_result
execute-raised call params h r = ap finish r

finish-value : (o : Outcome) → o ≢ plain null → finish (ok o) ≡ normalize_tool_result o
unfolding normalize_tool_result
finish-value (plain null) n = absurd (n refl)
finish-value (plain (bool b)) n = refl
finish-value (plain (int i)) n = refl
finish-value (plain (float t)) n = refl
finish-value (plain (str t)) n = refl
finish-value (plain (arr xs)) n = refl
finish-value (plain (obj fs)) n = refl
finish-value (dataclass fs) n = refl

execute-silent :
    (call : ToolCall) (params : Fields) (h : ℕ)
    → call h (invocation_of params) ≡ ok (plain null)
    → answer_with call params "" (some h)
      ≡ failure "Tool returned no result." "tool returned no result"
unfolding execute_tool_call normalize_tool_result
execute-silent call params h r = ap finish r

execute-returned :
    (call : ToolCall) (params : Fields) (h : ℕ) (o : Outcome)
    → call h (invocation_of params) ≡ ok o
    → o ≢ plain null
    → answer_with call params "" (some h) ≡ normalize_tool_result o
unfolding execute_tool_call
execute-returned call params h o r n = ap finish r ∙ finish-value o n

-- `_handle_tool_call_request` never raises for a valid request: when the session has no handler for the
-- tool, the result is the failure of an unsupported tool; when the handler raises, it is a failure whose
-- text for the model is the same for every exception, with the exception's own text only under error;
-- when the handler returns None, it is the failure of a tool without a result; when it returns another value,
-- it is that value.
pub tool_call-answered :
    (show_value : Value → String) (call : ToolCall) (params : Fields) (c : Client) (s : Session)
    (name : String)
    → IsToolCall params c s name
    → (result : Value) × (handle_tool_call_request show_value call params c
        ≡ ok (dict (("result", result) ∷ [])))
      × (get_tool_handler name s ≡ none → result ≡ build_unsupported_tool_result name)
      × ((h : ℕ) (e : Error)
          → get_tool_handler name s ≡ some h
          → call h (invocation_of params) ≡ err e
          → result ≡ failure hidden e.message)
      × ((h : ℕ)
          → get_tool_handler name s ≡ some h
          → call h (invocation_of params) ≡ ok (plain null)
          → result ≡ failure "Tool returned no result." "tool returned no result")
      × ((h : ℕ) (o : Outcome)
          → get_tool_handler name s ≡ some h
          → call h (invocation_of params) ≡ ok o
          → o ≢ plain null
          → result ≡ normalize_tool_result o)
unfolding handle_tool_call_request
tool_call-answered show_value call params c s name t = (
  answer_with call params name (get_tool_handler name s),
  if_false _ _ (all_given t.id_given t.call_given t.name_given)
      ∙ ap
          (λ r. r >>= λ z.
            tool_answer show_value call params (get_or "toolName" null params) z >>= λ result.
            ok (dict (("result", result) ∷ [])))
          (find_session-named params c s t.session)
      ∙ ap
          (λ v. tool_answer show_value call params v s >>= λ result.
            ok (dict (("result", result) ∷ [])))
          t.tool,
  λ e. ap (answer_with call params name) e,
  λ h e g r. ap (answer_with call params name) g ∙ execute-raised call params h r,
  λ h g r. ap (answer_with call params name) g ∙ execute-silent call params h r,
  λ h o g r n. ap (answer_with call params name) g ∙ execute-returned call params h o r n,
)
