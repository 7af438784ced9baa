-- ===== src/CopilotClient/Queries/Answered.antt =====
-- What the answers of the server change in the client.
use copilot_sdk.Prelude.{
  String, ◌≡◌, ◌≢◌, refl, ap, ◌∙◌, true, Option, none, some, List, lookup, lookup-erase, if_split,
  if_true, eq_refl, eq_iff, arith, Result, ok, err,
}
use copilot_sdk.Value.{Value}
use copilot_sdk.Session.Waiting.{Request}
use copilot_sdk.Types.{Conversions}
use copilot_sdk.Types.Models.{ModelInfo}
use copilot_sdk.CopilotClient.State.{Client}
use copilot_sdk.CopilotClient.Queries.{
  cached, from_cache, list_models, deleted, check_success, delete_session,
}

-- What is the case after a deletion: the session is forgotten and every other one is still there, or
-- there was an exception and the client is as it was.
abbrev pub AfterDeletion : String → Client → Result (Unit {0}) × Client → Type 0
AfterDeletion id c (ok u, z) =
    (lookup id z.sessions ≡ none)
    × ((other : String) → id ≢ other → lookup other z.sessions ≡ lookup other c.sessions)
AfterDeletion id c (err e, z) = z ≡ c

deleted-after :
    (id : String) (r : Result (Unit {0})) (c : Client) → AfterDeletion id c (deleted id r c)
deleted-after id (err e) c = refl
deleted-after id (ok u) c = (
  lookup-erase id id c.sessions ∙ if_true _ _ (eq_refl id),
  λ other n. lookup-erase id other c.sessions ∙ ground (arith, n, eq_iff id other),
)

-- After `delete_session` returns, the client no longer lists the session, and lists every other session
-- as before; after it raises, whatever the server answered, the client is unchanged.
pub delete_session-after :
    (show_value : Value → String) (request : Request) (id : String) (c : Client)
    → AfterDeletion id c (delete_session show_value request id c)
unfolding delete_session
delete_session-after show_value request id c =
    if_split (AfterDeletion id c) c.has_client _ _
      (λ _. deleted-after id (check_success show_value _ _) c) (λ _. refl)

-- A later `list_models` returns the models and leaves the client alone, whatever the server would answer.
abbrev pub IsCached : Result (List ModelInfo) × Client → Type 0
IsCached (err e, z) = Unit
IsCached (ok ms, z) =
    (conversions : Conversions) (request : Request) → list_models conversions request z ≡ (ok ms, z)

cached-IsCached :
    (c : Client) → c.has_client ≡ true → (a : Result (List ModelInfo)) → IsCached (cached a c)
unfolding list_models
cached-IsCached c on (err x) = tt
cached-IsCached c on (ok ms) = λ v r. if_true _ _ on

from_cache-IsCached :
    (conversions : Conversions) (request : Request) (c : Client)
    → c.has_client ≡ true
    → (o : Option (List ModelInfo)) → c.models_cache ≡ o
    → IsCached (from_cache o conversions request c)
unfolding list_models
from_cache-IsCached conversions request c on (some ms) e =
    λ v r. if_true _ _ on ∙ ap (λ o. from_cache o v r c) e
from_cache-IsCached conversions request c on none e = cached-IsCached c on _

-- When `list_models` returns a list of models, every later call on that client returns the same list,
-- with no change of the client, whatever the server would answer by then.
pub list_models-IsCached :
    (conversions : Conversions) (request : Request) (c : Client)
    → IsCached (list_models conversions request c)
unfolding list_models
list_models-IsCached conversions request c =
    if_split IsCached c.has_client _ _
      (λ on. from_cache-IsCached conversions request c on c.models_cache refl) (λ _. tt)
