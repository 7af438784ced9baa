-- ===== src/CopilotClient/Queries.antt =====
-- Questions to the server: `list_models`, `list_sessions`, `delete_session`,
-- `get_foreground_session_id` and `set_foreground_session_id` of python/copilot/client.py.
pub mod Answered
pub mod Served
use Prim.Native.String.{◌++◌ as append}
use copilot_sdk.Prelude.{
  String, Bool, true, false, Option, none, some, List, [], ◌∷◌, if◌then◌else◌, erase, Result, ok,
  err, raise, ◌>>=◌, runtime_error, other_error,
}
use copilot_sdk.Value.{
  Value, Fields, Items, null, bool, str, arr, obj, nil, dict, get_or, truthy, iterate,
}
use copilot_sdk.Session.Waiting.{Request}
use copilot_sdk.Session.Lifecycle.{parse_each}
use copilot_sdk.Types.{Conversions}
use copilot_sdk.Types.Models.{ModelInfo, model_info_from_dict}
use copilot_sdk.Types.Sessions.{
  SessionListFilter, SessionMetadata, session_list_filter_to_dict, session_metadata_from_dict,
}
use copilot_sdk.CopilotClient.Status.{not_connected}
use copilot_sdk.CopilotClient.State.{Client}

-- `v.get(k, d)`
abbrev pub get : String → Value → Value → Result Value
get k d (obj fs) = ok (get_or k d fs)
get k d v = raise other_error "object has no attribute 'get'"

-- The list that an answer has under a key, each item read by `parse`.
unfoldable pub listed : {M : Type 0} → String → (Value → Result M) → Result Value → Result (List M)
listed k parse answer = do
  response ← answer
  items ← get k (arr nil) response
  xs ← iterate items
  parse_each parse xs

abbrev pub cached : Result (List ModelInfo) → Client → Result (List ModelInfo) × Client
cached (err e) c = (err e, c)
cached (ok ms) c = (ok ms, record c { models_cache = some ms })

abbrev pub from_cache :
    Option (List ModelInfo) → Conversions → Request → Client → Result (List ModelInfo) × Client
from_cache (some ms) conversions request c = (ok ms, c)
from_cache none conversions request c =
    cached (listed "models" (model_info_from_dict conversions) (request "models.list" (dict []))) c

-- `list_models`
unfoldable pub list_models : Conversions → Request → Client → Result (List ModelInfo) × Client
unfolding listed
list_models conversions request c =
    if c.has_client then from_cache c.models_cache conversions request c else (not_connected, c)

abbrev filter_payload : Option SessionListFilter → Value
filter_payload none = dict []
filter_payload (some f) = dict (("filter", session_list_filter_to_dict f) ∷ [])

-- `list_sessions`
unfoldable pub list_sessions :
    Conversions → Request → Option SessionListFilter → Client → Result (List SessionMetadata)
unfolding listed
list_sessions conversions request filter c =
    if c.has_client
    then listed "sessions" (session_metadata_from_dict conversions)
        (request "session.list" (filter_payload filter))
    else not_connected

-- The end of `delete_session` and `set_foreground_session_id`: an answer with no truthy success is an
-- error. `show_value` is Python's `str`.
unfoldable pub check_success : (Value → String) → String → Result Value → Result (Unit {0})
check_success show_value what answer = do
  response ← answer
  success ← get "success" (bool false) response
  (if truthy success
      then ok tt
      else (get "error" (str "Unknown error") response >>= λ e.
          raise runtime_error (append what (append ": " (show_value e)))))

abbrev pub deleted : String → Result (Unit {0}) → Client → Result (Unit {0}) × Client
deleted session_id (err e) c = (err e, c)
deleted session_id (ok u) c = (ok tt, record c { sessions = erase session_id c.sessions })

-- `delete_session`
unfoldable pub delete_session :
    (Value → String) → Request → String → Client → Result (Unit {0}) × Client
unfolding check_success
delete_session show_value request session_id c =
    if c.has_client
    then deleted session_id
        (check_success show_value (append "Failed to delete session " session_id)
          (request "session.delete" (dict (("sessionId", str session_id) ∷ []))))
        c
    else (not_connected, c)

-- `get_foreground_session_id`
unfoldable pub get_foreground_session_id : Request → Client → Result Value
get_foreground_session_id request c =
    if c.has_client
    then request "session.getForeground" (dict []) >>= get "sessionId" null
    else not_connected

-- `set_foreground_session_id`
unfoldable pub set_foreground_session_id :
    (Value → String) → Request → String → Client → Result (Unit {0})
unfolding check_success
set_foreground_session_id show_value request session_id c =
    if c.has_client
    then check_success show_value "Failed to set foreground session"
        (request "session.setForeground" (dict (("sessionId", str session_id) ∷ [])))
    else not_connected
