-- ===== src/CopilotClient/Sessions/Opened.antt =====
-- What a session that `create_session` or `resume_session` returns is able to answer.
use copilot_sdk.Prelude.{
  ℕ, String, ◌≡◌, refl, Bool, true, false, Option, none, some, Dict, lookup, lookup-insert,
  if_split, if_both, if_true, ap, ◌∙◌, eq_refl, is_some, if◌then◌else◌, Result, ok, err, Returns,
  Returns-bind,
}
use copilot_sdk.Value.{Value, dict}
use copilot_sdk.Session.{
  Session, Hooks, new, register_permission_handler, register_user_input_handler, register_hooks,
}
use copilot_sdk.Session.Tools.{
  register_tools, tools_of, get_tool_handler, last_handler, get_tool_handler-register_tools,
}
use copilot_sdk.Session.Waiting.{item}
use copilot_sdk.CopilotClient.State.{Client}
use copilot_sdk.CopilotClient.Payload.{Config, any_hook, create_payload, resume_payload}
use copilot_sdk.CopilotClient.Connection.{World}
use copilot_sdk.CopilotClient.Sessions.{
  with_user_input, with_hooks, id_of, workspace_path_of, configured, opened, stored, open_session,
  ensure_started, after_started, create_session, resume_session,
}

-- The hooks that count: a dict without a hook in it is none.
abbrev pub useful_hooks : Option Hooks → Option Hooks
useful_hooks none = none
useful_hooks (some h) = if any_hook h then some h else none

-- The session answers with the handlers of the configuration.
pub record Answers (cfg : Config) (s : Session) : Type 0 where
  pub tools : (name : String) → get_tool_handler name s ≡ last_handler name (tools_of cfg.tools)
  pub permission : s.permission_handler ≡ cfg.on_permission_request
  pub user_input : s.user_input_handler ≡ cfg.on_user_input_request
  pub hooks : s.hooks ≡ useful_hooks cfg.hooks

-- What the optional registrations leave alone, and what they set.
with_user_input-keeps :
    {A : Type 0} (f : Dict ℕ → Option ℕ → Option Hooks → A) (cfg : Config) (s : Session)
    → (let z = with_user_input cfg s in f z.tool_handlers z.permission_handler z.hooks)
      ≡ f s.tool_handlers s.permission_handler s.hooks
unfolding register_user_input_handler
with_user_input-keeps f cfg s =
    if_both
      (λ (z : Session).
        f z.tool_handlers z.permission_handler z.hooks
        ≡ f s.tool_handlers s.permission_handler s.hooks)
      (is_some cfg.on_user_input_request) refl refl

not_some : (o : Option ℕ) → is_some o ≡ false → none ≡ o
not_some none e = refl
not_some (some n) e = cc

with_user_input-sets :
    (cfg : Config) (s : Session)
    → s.user_input_handler ≡ none
    → (with_user_input cfg s).user_input_handler ≡ cfg.on_user_input_request
unfolding register_user_input_handler
with_user_input-sets cfg s e =
    if_split (λ (z : Session). z.user_input_handler ≡ cfg.on_user_input_request)
      (is_some cfg.on_user_input_request) _ _ (λ _. refl)
      (λ f. e ∙ not_some cfg.on_user_input_request f)

with_hooks-keeps :
    {A : Type 0} (f : Dict ℕ → Option ℕ → Option ℕ → A) (h : Option Hooks) (s : Session)
    → (let z = with_hooks h s in f z.tool_handlers z.permission_handler z.user_input_handler)
      ≡ f s.tool_handlers s.permission_handler s.user_input_handler
unfolding register_hooks
with_hooks-keeps f none s = refl
with_hooks-keeps f (some h) s =
    if_both
      (λ (z : Session).
        f z.tool_handlers z.permission_handler z.user_input_handler
        ≡ f s.tool_handlers s.permission_handler s.user_input_handler)
      (any_hook h) refl refl

with_hooks-sets :
    (h : Option Hooks) (s : Session) → s.hooks ≡ none → (with_hooks h s).hooks ≡ useful_hooks h
unfolding register_hooks
with_hooks-sets none s e = e
with_hooks-sets (some h) s e = by_test (any_hook h)
  where
    by_test :
        (b : Bool)
        → (if b then record s { hooks = some h } else s).hooks ≡ (if b then some h else none)
    by_test true = refl
    by_test false = e

-- A session before the optional registrations.
abbrev bare : Config → String → Option String → Session
bare cfg id path =
    register_permission_handler cfg.on_permission_request (register_tools cfg.tools (new id path))

configured-Answers :
    (cfg : Config) (id : String) (path : Option String) → Answers cfg (configured cfg id path)
unfolding configured register_permission_handler register_tools new
configured-Answers cfg id path = record {
  tools = λ name.
      unfold get_tool_handler in
      with_hooks-keeps (λ t p u. lookup name t) cfg.hooks (with_user_input cfg (bare cfg id path))
      ∙ with_user_input-keeps (λ t p h. lookup name t) cfg (bare cfg id path)
      ∙ get_tool_handler-register_tools name cfg.tools (new id path);
  permission =
      with_hooks-keeps (λ t p u. p) cfg.hooks (with_user_input cfg (bare cfg id path))
      ∙ with_user_input-keeps (λ t p h. p) cfg (bare cfg id path);
  user_input =
      with_hooks-keeps (λ t p u. u) cfg.hooks (with_user_input cfg (bare cfg id path))
      ∙ with_user_input-sets cfg (bare cfg id path) refl;
  hooks =
      with_hooks-sets cfg.hooks (with_user_input cfg (bare cfg id path))
        (with_user_input-keeps (λ t p h. h) cfg (bare cfg id path));
}

-- `P` holds of the session and the client that a method returns.
abbrev pub PostSession : (Session → Client → Type 0) → Result Session × Client → Type 0
PostSession P (ok s, c) = P s c
PostSession P (err e, c) = Unit

-- The client has the session under its id, and answers for it as the configuration says.
pub record IsOpened (cfg : Config) (s : Session) (c : Client) : Type 0 where
  pub answers : Answers cfg s
  pub listed : lookup s.session_id c.sessions ≡ some s
  pub permitted : is_some s.permission_handler ≡ true

opened-Answers : (cfg : Config) (answer : Result Value) → Returns (Answers cfg) (opened cfg answer)
unfolding opened
opened-Answers cfg answer = Returns-bind (Answers cfg) answer _ (λ v _.
    Returns-bind (Answers cfg) (item "sessionId" v) _ (λ i _.
      Returns-bind (Answers cfg) (id_of i) _
        (λ id _. configured-Answers cfg id (workspace_path_of v))))

stored-IsOpened :
    (cfg : Config) (r : Result Session) (c : Client)
    → is_some cfg.on_permission_request ≡ true
    → Returns (Answers cfg) r
    → PostSession (IsOpened cfg) (stored r c)
stored-IsOpened cfg (err e) c p a = tt
stored-IsOpened cfg (ok s) c p a = record {
  answers = a;
  listed =
      lookup-insert s.session_id s.session_id s c.sessions ∙ if_true _ _ (eq_refl s.session_id);
  permitted = ap is_some a.permission ∙ p;
}

after_started-IsOpened :
    (w : World) (method : String) (payload : Dict Value) (cfg : Config)
    (r : Result (Unit {0}) × Client)
    → PostSession (IsOpened cfg) (after_started w method payload cfg r)
unfolding open_session
after_started-IsOpened w method payload cfg (err e, c) = tt
after_started-IsOpened w method payload cfg (ok u, c) =
    if_split (PostSession (IsOpened cfg)) (is_some cfg.on_permission_request) _ _
      (λ p.
        if_split (PostSession (IsOpened cfg)) c.has_client _ _
          (λ _.
            stored-IsOpened cfg (opened cfg (w.request method (dict payload))) c p
              (opened-Answers cfg (w.request method (dict payload))))
          (λ _. tt))
      (λ _. tt)

-- A session that `create_session` or `resume_session` returns is listed by the client under the id that
-- the server gave it; it has a permission handler; its tools, permission handler, user input handler
-- and hooks are those of the configuration.
pub open-IsOpened :
    (w : World) (session_id : String) (cfg : Config) (c : Client)
    → PostSession (IsOpened cfg) (create_session w cfg c)
      × PostSession (IsOpened cfg) (resume_session w session_id cfg c)
unfolding create_session resume_session
open-IsOpened w session_id cfg c = (
  after_started-IsOpened w "session.create" (create_payload cfg) cfg (ensure_started w c),
  after_started-IsOpened w "session.resume" (resume_payload session_id cfg) cfg
      (ensure_started w c),
)
