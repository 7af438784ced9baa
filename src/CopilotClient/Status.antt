-- ===== src/CopilotClient/Status.antt =====
-- Questions about the server itself: `get_state`, `ping`, `get_status` and `get_auth_status` of
-- python/copilot/client.py.
use copilot_sdk.Prelude.{
  String, Option, none, some, [], ◌∷◌, if◌then◌else◌, Result, raise, ◌>>=◌, runtime_error,
}
use copilot_sdk.Value.{Value, null, str, dict}
use copilot_sdk.Session.Waiting.{Request}
use copilot_sdk.Types.{Conversions}
use copilot_sdk.Types.Responses.{
  PingResponse, ping_response_from_dict, GetStatusResponse, get_status_response_from_dict,
  GetAuthStatusResponse, get_auth_status_response_from_dict,
}
use copilot_sdk.CopilotClient.State.{Client, ConnectionState}

abbrev pub not_connected {ℓ} : {A : Type ℓ} → Result A
not_connected = raise runtime_error "Client not connected"

-- `get_state`
unfoldable pub get_state : Client → ConnectionState
get_state c = c.state

abbrev optional_text : Option String → Value
optional_text none = null
optional_text (some text) = str text

-- `ping`
unfoldable pub ping : Conversions → Request → Option String → Client → Result PingResponse
ping conversions request message c =
    if c.has_client
    then request "ping" (dict (("message", optional_text message) ∷ []))
      >>= ping_response_from_dict conversions
    else not_connected

-- `get_status`
unfoldable pub get_status : Conversions → Request → Client → Result GetStatusResponse
get_status conversions request c =
    if c.has_client
    then request "status.get" (dict []) >>= get_status_response_from_dict conversions
    else not_connected

-- `get_auth_status`
unfoldable pub get_auth_status : Request → Client → Result GetAuthStatusResponse
get_auth_status request c =
    if c.has_client
    then request "auth.getStatus" (dict []) >>= get_auth_status_response_from_dict
    else not_connected
