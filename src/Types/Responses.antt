-- ===== src/Types/Responses.antt =====
-- `PingResponse`, `StopError`, `GetStatusResponse` and `GetAuthStatusResponse` of
-- python/copilot/types.py.
use copilot_sdk.Prelude.{String, ◌≡◌, refl, ◌||◌, Bool, List, [], ◌∷◌, Result, ok, ◌>>=◌}
use copilot_sdk.Prelude.Int.{ℤ}
use copilot_sdk.Value.{Value, bool, int, str, obj, is_none, truthy}
use copilot_sdk.Wire.{Entry, always, given, to_fields, of_class, of_class-to_fields}
use copilot_sdk.Types.{Conversions, to_str, to_int, required}

-- `PingResponse`
pub record PingResponse : Type 0 where
  pub message : String
  pub timestamp : ℤ
  pub protocol_version : ℤ

abbrev read_ping_response : Conversions → (String → Value) → Result PingResponse
read_ping_response c get =
    required
      (is_none (get "message") || is_none (get "timestamp") || is_none (get "protocolVersion"))
      (to_int c (get "timestamp") >>= λ timestamp.
        to_int c (get "protocolVersion") >>= λ protocol_version. ok (record {
          message = to_str c (get "message");
          timestamp = timestamp;
          protocol_version = protocol_version;
        }))

-- `PingResponse.from_dict`
unfoldable pub ping_response_from_dict : Conversions → Value → Result PingResponse
ping_response_from_dict c v = of_class (read_ping_response c) v

abbrev ping_response_entries : PingResponse → List Entry
ping_response_entries x =
    always "message" (str x.message)
    ∷ always "timestamp" (int x.timestamp)
    ∷ always "protocolVersion" (int x.protocol_version)
    ∷ []

-- `PingResponse.to_dict`
unfoldable pub ping_response_to_dict : PingResponse → Value
ping_response_to_dict x = obj (to_fields (ping_response_entries x))

pub ping_response-round_trip :
    (c : Conversions) (x : PingResponse)
    → ping_response_from_dict c (ping_response_to_dict x) ≡ ok x
unfolding ping_response_from_dict ping_response_to_dict required to_str to_int
ping_response-round_trip c x =
    of_class-to_fields (read_ping_response c) (ping_response_entries x) refl

-- `StopError`
pub record StopError : Type 0 where
  pub message : String

abbrev read_stop_error : Conversions → (String → Value) → Result StopError
read_stop_error c get =
    required (is_none (get "message")) (ok (record { message = to_str c (get "message") }))

-- `StopError.from_dict`
unfoldable pub stop_error_from_dict : Conversions → Value → Result StopError
stop_error_from_dict c v = of_class (read_stop_error c) v

abbrev stop_error_entries : StopError → List Entry
stop_error_entries x = always "message" (str x.message) ∷ []

-- `StopError.to_dict`
unfoldable pub stop_error_to_dict : StopError → Value
stop_error_to_dict x = obj (to_fields (stop_error_entries x))

pub stop_error-round_trip :
    (c : Conversions) (x : StopError) → stop_error_from_dict c (stop_error_to_dict x) ≡ ok x
unfolding stop_error_from_dict stop_error_to_dict required to_str
stop_error-round_trip c x = of_class-to_fields (read_stop_error c) (stop_error_entries x) refl

-- `GetStatusResponse`
pub record GetStatusResponse : Type 0 where
  pub version : String
  pub protocol_version : ℤ

abbrev read_status : Conversions → (String → Value) → Result GetStatusResponse
read_status c get = required (is_none (get "version") || is_none (get "protocolVersion")) (
    to_int c (get "protocolVersion") >>= λ protocol_version.
    ok (record { version = to_str c (get "version"); protocol_version = protocol_version }))

-- `GetStatusResponse.from_dict`
unfoldable pub get_status_response_from_dict : Conversions → Value → Result GetStatusResponse
get_status_response_from_dict c v = of_class (read_status c) v

abbrev status_entries : GetStatusResponse → List Entry
status_entries x =
    always "version" (str x.version) ∷ always "protocolVersion" (int x.protocol_version) ∷ []

-- `GetStatusResponse.to_dict`
unfoldable pub get_status_response_to_dict : GetStatusResponse → Value
get_status_response_to_dict x = obj (to_fields (status_entries x))

pub status-round_trip :
    (c : Conversions) (x : GetStatusResponse)
    → get_status_response_from_dict c (get_status_response_to_dict x) ≡ ok x
unfolding get_status_response_from_dict get_status_response_to_dict required to_str to_int
status-round_trip c x = of_class-to_fields (read_status c) (status_entries x) refl

-- `GetAuthStatusResponse`
pub record GetAuthStatusResponse : Type 0 where
  pub is_authenticated : Bool
  pub auth_type : Value
  pub host : Value
  pub login : Value
  pub status_message : Value

abbrev read_auth_status : (String → Value) → Result GetAuthStatusResponse
read_auth_status get = required (is_none (get "isAuthenticated")) (
    ok (record {
      is_authenticated = truthy (get "isAuthenticated");
      auth_type = get "authType";
      host = get "host";
      login = get "login";
      status_message = get "statusMessage";
    }))

-- `GetAuthStatusResponse.from_dict`
unfoldable pub get_auth_status_response_from_dict : Value → Result GetAuthStatusResponse
get_auth_status_response_from_dict v = of_class read_auth_status v

abbrev auth_status_entries : GetAuthStatusResponse → List Entry
auth_status_entries x =
    always "isAuthenticated" (bool x.is_authenticated)
    ∷ given "authType" x.auth_type
    ∷ given "host" x.host
    ∷ given "login" x.login
    ∷ given "statusMessage" x.status_message
    ∷ []

-- `GetAuthStatusResponse.to_dict`
unfoldable pub get_auth_status_response_to_dict : GetAuthStatusResponse → Value
get_auth_status_response_to_dict x = obj (to_fields (auth_status_entries x))

pub auth_status-round_trip :
    (x : GetAuthStatusResponse)
    → get_auth_status_response_from_dict (get_auth_status_response_to_dict x) ≡ ok x
unfolding get_auth_status_response_from_dict get_auth_status_response_to_dict required truthy
auth_status-round_trip x = of_class-to_fields read_auth_status (auth_status_entries x) refl

-- Each of the four responses is read back from the dict that it writes.
pub responses-round_trip :
    (c : Conversions) (p : PingResponse) (e : StopError) (s : GetStatusResponse)
    (a : GetAuthStatusResponse)
    → (ping_response_from_dict c (ping_response_to_dict p) ≡ ok p)
      × (stop_error_from_dict c (stop_error_to_dict e) ≡ ok e)
      × (get_status_response_from_dict c (get_status_response_to_dict s) ≡ ok s)
      × (get_auth_status_response_from_dict (get_auth_status_response_to_dict a) ≡ ok a)
responses-round_trip c p e s a = (
  ping_response-round_trip c p,
  stop_error-round_trip c e,
  status-round_trip c s,
  auth_status-round_trip a,
)
