-- ===== src/CopilotClient/Queries/Served.antt =====
-- The questions of the client, put to a server that writes its answers with the `to_dict` of
-- python/copilot/types.py.
use copilot_sdk.Prelude.{
  String, ◌≡◌, refl, ap, ◌∙◌, true, Option, none, some, List, [], ◌∷◌, map, str_eq, if◌then◌else◌,
  if_true, All, Result, ok, raise, value_error, ◌>>=◌,
}
use copilot_sdk.Value.{Value, Fields, arr, nil, obj, get_or, of_list, of_dict, get?, iterate}
use copilot_sdk.Session.Waiting.{Request}
use copilot_sdk.Session.Lifecycle.{parse_each, parse_each-of_list}
use copilot_sdk.Types.{Conversions}
use copilot_sdk.Types.Responses.{
  PingResponse, ping_response_to_dict, ping_response-round_trip, GetStatusResponse,
  get_status_response_to_dict, status-round_trip, GetAuthStatusResponse,
  get_auth_status_response_to_dict, auth_status-round_trip,
}
use copilot_sdk.Types.Models.{ModelInfo, model_info_to_dict, model_info_from_dict}
use copilot_sdk.Types.Models.RoundTrip.{SaysSomething, model_info-round_trip}
use copilot_sdk.Types.Sessions.{
  SessionListFilter, SessionMetadata, session_metadata_to_dict, session_metadata_from_dict,
}
use copilot_sdk.Types.Sessions.RoundTrip.{session_metadata-round_trip}
use copilot_sdk.CopilotClient.State.{Client}
use copilot_sdk.CopilotClient.Status.{ping, get_status, get_auth_status}
use copilot_sdk.CopilotClient.Queries.{listed, cached, from_cache, list_models, list_sessions}

-- What a server says, to whoever asks
pub record Facts : Type 0 where
  pub pong : PingResponse
  pub status : GetStatusResponse
  pub auth_status : GetAuthStatusResponse
  pub models : List ModelInfo
  pub sessions : List SessionMetadata

-- One array under a key
abbrev listing : {M : Type 0} → String → (M → Value) → List M → Fields
listing key write ms = of_dict ((key, arr (of_list (map write ms))) ∷ [])

-- The server's side of `request`
unfoldable pub serve : Facts → Request
serve facts method params =
    if str_eq method "ping"
    then ok (ping_response_to_dict facts.pong)
    else if str_eq method "status.get"
    then ok (get_status_response_to_dict facts.status)
    else if str_eq method "auth.getStatus"
    then ok (get_auth_status_response_to_dict facts.auth_status)
    else if str_eq method "models.list"
    then ok (obj (listing "models" model_info_to_dict facts.models))
    else if str_eq method "session.list"
    then ok (obj (listing "sessions" session_metadata_to_dict facts.sessions))
    else raise value_error "unknown method"

listed-ok :
    {M : Type 0} (key : String) (read : Value → Result M) (write : M → Value) (ms : List M)
    (answer : Fields)
    → get_or key (arr nil) answer ≡ arr (of_list (map write ms))
    → All (λ m. read (write m) ≡ ok m) ms
    → listed key read (ok (obj answer)) ≡ ok ms
unfolding listed iterate
listed-ok key read write ms answer e h =
    ap (λ v. iterate v >>= λ xs. parse_each read xs) e ∙ parse_each-of_list read write ms h

models-back :
    (conversions : Conversions) (ms : List ModelInfo)
    → All (λ m. SaysSomething m.capabilities.limits) ms
    → All (λ m. model_info_from_dict conversions (model_info_to_dict m) ≡ ok m) ms
models-back conversions [] h = tt
models-back conversions (m ∷ ms) (h, hs) =
    (model_info-round_trip conversions m h, models-back conversions ms hs)

sessions-back :
    (conversions : Conversions) (ss : List SessionMetadata)
    → All (λ s. session_metadata_from_dict conversions (session_metadata_to_dict s) ≡ ok s) ss
sessions-back conversions [] = tt
sessions-back conversions (s ∷ ss) =
    (session_metadata-round_trip conversions s, sessions-back conversions ss)

-- When the server writes its answers with `to_dict`, whoever asks a connected client is told exactly what the
-- server says: the answer to a ping, the status, the authentication, the models, which the client then
-- keeps, and the sessions. Models are assumed not to be kept yet, and none to have vision limits without a
-- field, which would be lost.
pub queries-served :
    (conversions : Conversions) (facts : Facts) (message : Option String)
    (filter : Option SessionListFilter) (c : Client)
    → c.has_client ≡ true
    → c.models_cache ≡ none
    → All (λ m. SaysSomething m.capabilities.limits) facts.models
    → (ping conversions (serve facts) message c ≡ ok facts.pong)
      × (get_status conversions (serve facts) c ≡ ok facts.status)
      × (get_auth_status (serve facts) c ≡ ok facts.auth_status)
      × (list_models conversions (serve facts) c
          ≡ (ok facts.models, record c { models_cache = some facts.models }))
      × (list_sessions conversions (serve facts) filter c ≡ ok facts.sessions)
unfolding ping get_status get_auth_status list_models list_sessions serve get? of_dict
queries-served conversions facts message filter c on fresh say = (
  if_true _ _ on ∙ ping_response-round_trip conversions facts.pong,
  if_true _ _ on ∙ status-round_trip conversions facts.status,
  if_true _ _ on ∙ auth_status-round_trip facts.auth_status,
  if_true _ _ on
      ∙ ap (λ o. from_cache o conversions (serve facts) c) fresh
      ∙ ap (λ r. cached r c)
          (listed-ok "models" (model_info_from_dict conversions) model_info_to_dict facts.models
            (listing "models" model_info_to_dict facts.models) refl
            (models-back conversions facts.models say)),
  if_true _ _ on
      ∙ listed-ok "sessions" (session_metadata_from_dict conversions) session_metadata_to_dict
          facts.sessions (listing "sessions" session_metadata_to_dict facts.sessions) refl
          (sessions-back conversions facts.sessions),
)
