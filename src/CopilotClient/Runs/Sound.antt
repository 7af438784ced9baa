-- ===== src/CopilotClient/Runs/Sound.antt =====
-- What holds of a client throughout its life.
use copilot_sdk.Prelude.{
  String, ◌≡◌, true, Option, none, some, List, [], ◌∷◌, if_split, Dict, Result, ok, err, is_some,
}
use copilot_sdk.Value.{Value, dict}
use copilot_sdk.Session.{Session}
use copilot_sdk.Types.Models.{ModelInfo}
use copilot_sdk.CopilotClient.State.{Client}
use copilot_sdk.CopilotClient.Connection.{World, stop, force_stop, shut_down}
use copilot_sdk.CopilotClient.Connection.Sound.{IsSound, start-IsSound, down-IsSound}
use copilot_sdk.CopilotClient.Connection.Stopping.{shut_down-IsDown}
use copilot_sdk.CopilotClient.Payload.{Config}
use copilot_sdk.CopilotClient.Sessions.{
  create_session, resume_session, open_session, opened, stored, ensure_started, after_started,
}
use copilot_sdk.CopilotClient.Queries.{list_models, cached, from_cache, delete_session, deleted}
use copilot_sdk.CopilotClient.Options.{Machine, Given, new, new-IsDown}
use copilot_sdk.CopilotClient.Runs.{
  Action, starts, stops, force_stops, lists_models, creates, resumes, deletes, perform, perform_all,
}

abbrev AfterSound {ℓ} : {A : Type ℓ} → A × Client → Type 0
AfterSound r = IsSound r.1

-- A client that has an rpc client may store sessions and models.
stored-IsSound :
    (r : Result Session) (c : Client) → c.has_client ≡ true → IsSound c → IsSound (stored r c).1
stored-IsSound (err e) c on s = s
stored-IsSound (ok z) c on s = record {
  linked = s.linked;
  idle = s.idle;
  forgotten = λ e. absurd (cc (e, on));
}

cached-IsSound :
    (r : Result (List ModelInfo)) (c : Client)
    → c.has_client ≡ true
    → IsSound c
    → IsSound (cached r c).1
cached-IsSound (err e) c on s = s
cached-IsSound (ok ms) c on s = record {
  linked = s.linked;
  idle = s.idle;
  forgotten = λ e. absurd (cc (e, on));
}

deleted-IsSound :
    (id : String) (r : Result (Unit {0})) (c : Client)
    → c.has_client ≡ true
    → IsSound c
    → IsSound (deleted id r c).1
deleted-IsSound id (err e) c on s = s
deleted-IsSound id (ok u) c on s = record {
  linked = s.linked;
  idle = s.idle;
  forgotten = λ e. absurd (cc (e, on));
}

from_cache-IsSound :
    (w : World) (o : Option (List ModelInfo)) (c : Client)
    → c.has_client ≡ true
    → IsSound c
    → IsSound (from_cache o w.conversions w.request c).1
from_cache-IsSound w (some ms) c on s = s
from_cache-IsSound w none c on s = cached-IsSound _ c on s

ensure_started-IsSound : (w : World) (c : Client) → IsSound c → IsSound (ensure_started w c).1
unfolding ensure_started
ensure_started-IsSound w c s =
    if_split AfterSound c.has_client _ _ (λ _. s)
      (λ _. if_split AfterSound c.options.auto_start _ _ (λ _. start-IsSound w c s) (λ _. s))

after_started-IsSound :
    (w : World) (method : String) (payload : Dict Value) (cfg : Config)
    (r : Result (Unit {0}) × Client)
    → IsSound r.1
    → IsSound (after_started w method payload cfg r).1
unfolding open_session
after_started-IsSound w method payload cfg (err e, c) s = s
after_started-IsSound w method payload cfg (ok u, c) s =
    if_split AfterSound (is_some cfg.on_permission_request) _ _
      (λ _.
        if_split AfterSound c.has_client _ _
          (λ on. stored-IsSound (opened cfg (w.request method (dict payload))) c on s) (λ _. s))
      (λ _. s)

-- No operation makes a client unsound, whether it raises or not.
perform-IsSound : (w : World) (a : Action) (c : Client) → IsSound c → IsSound (perform w a c)
unfolding perform stop force_stop list_models create_session resume_session delete_session
perform-IsSound w starts c s = start-IsSound w c s
perform-IsSound w stops c s = down-IsSound (shut_down w c) (shut_down-IsDown w c)
perform-IsSound w force_stops c s = down-IsSound (shut_down w c) (shut_down-IsDown w c)
perform-IsSound w lists_models c s =
    if_split AfterSound c.has_client _ _ (λ on. from_cache-IsSound w c.models_cache c on s) (λ _. s)
perform-IsSound w (creates cfg) c s =
    after_started-IsSound w "session.create" _ cfg _ (ensure_started-IsSound w c s)
perform-IsSound w (resumes id cfg) c s =
    after_started-IsSound w "session.resume" _ cfg _ (ensure_started-IsSound w c s)
perform-IsSound w (deletes id) c s =
    if_split AfterSound c.has_client _ _ (λ on. deleted-IsSound id _ c on s) (λ _. s)

perform_all-IsSound :
    (steps : List (World × Action)) (c : Client) → IsSound c → IsSound (perform_all steps c)
unfolding perform_all
perform_all-IsSound [] c s = s
perform_all-IsSound ((w, a) ∷ rest) c s =
    perform_all-IsSound rest (perform w a c) (perform-IsSound w a c s)

-- Whatever operations an application performs on a client that the constructor accepted, in any order, in any
-- worlds, and whether they raise or not: when the client is CONNECTED it has an rpc client, when it is
-- DISCONNECTED it has none, and while it has none it knows no sessions and keeps no models.
pub run-IsSound :
    (m : Machine) (opts : Given) (c : Client)
    → new m opts ≡ ok c
    → (steps : List (World × Action)) → IsSound (perform_all steps c)
run-IsSound m opts c made steps =
    perform_all-IsSound steps c (down-IsSound c (new-IsDown m opts c made))
