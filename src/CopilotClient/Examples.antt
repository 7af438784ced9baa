-- ===== src/CopilotClient/Examples.antt =====
-- Tests of `CopilotClient` (python/copilot/client.py) on concrete inputs.
pub mod Serving
pub mod Queries
pub mod Runs
pub mod Lifecycle
use copilot_sdk.Prelude.{
  ℕ, ◌≤◌, ◌<◌, ◌-◌, ◌≡◌, refl, true, false, ◌&&◌, Option, none, some, List, [], ◌∷◌, ◌++◌, arith,
  leb, if◌then◌else◌, Result, ok, raise, lookup, nonempty, value_error,
}
use copilot_sdk.Prelude.Int.{ℤ, pos}
use copilot_sdk.Value.{Value, Fields, int, str, bool, obj, end, field, get?}
use copilot_sdk.Text.{Unicode, codes, show}
use copilot_sdk.Session.Tools.{Tool}
use copilot_sdk.CopilotClient.State.{Client, Options, disconnected, no_process}
use copilot_sdk.CopilotClient.Url.{parse_cli_url, parse_cli_url_bounds}
use copilot_sdk.CopilotClient.Url.Accepts.{
  IsAscii, http, protocol_text, parse_cli_url-port, parse_cli_url-host,
}
use copilot_sdk.CopilotClient.Options.{Given, Machine, IsConsistent, new, new-IsConsistent}
use copilot_sdk.CopilotClient.Command.{
  line, closed, read_port, announced_port, matches, digits_after,
}
use copilot_sdk.CopilotClient.Connection.{
  World, start, stop, force_stop, try_start, start_cli_server, connect_to_server, connect_via_stdio,
  connect_via_tcp, verify_protocol_version,
}
use copilot_sdk.CopilotClient.Connection.Starting.{Post}
use copilot_sdk.CopilotClient.Connection.Stopping.{IsDown, stdio-start-stop}
use copilot_sdk.CopilotClient.Payload.{Config, create_payload, resume_payload}
use copilot_sdk.CopilotClient.Payload.Agreement.{create_payload-resume_payload}
use copilot_sdk.CopilotClient.Sessions.{create_session, resume_session, configured, stored}
use copilot_sdk.CopilotClient.Sessions.Opened.{PostSession, IsOpened, open-IsOpened}
use copilot_sdk.CopilotClient.Lifecycle.{on}
use copilot_sdk.Wire.{of_class}
use copilot_sdk.Types.{Conversions, required, to_str, to_int}
use copilot_sdk.Types.Responses.{ping_response_from_dict}
use copilot_sdk.CopilotClient.Status.{ping}

-- The ten ASCII digits.
abbrev decimal_digit : ℕ → Option ℕ
decimal_digit c = if leb 48 c && leb c 57 then some (c - 48) else none

abbrev ascii_unicode : Unicode
ascii_unicode = record { decimal = decimal_digit; isdigit = λ c. leb 48 c && leb c 57 }

ascii_unicode-IsAscii : IsAscii ascii_unicode
ascii_unicode-IsAscii = record {
  reads = λ d h. ground (arith, h);
  digits = λ c (d, lt, e). ground (arith, lt, e);
  colon = refl;
}

parse_cli_url-port_example : parse_cli_url ascii_unicode (show 8080) ≡ ok (codes "localhost", 8080)
parse_cli_url-port_example =
    parse_cli_url-port ascii_unicode 8080 ascii_unicode-IsAscii (omega arith) (omega arith)

parse_cli_url-host_example :
    parse_cli_url ascii_unicode (protocol_text http ++ ((b'a' ∷ []) ++ b':' ∷ show 80))
    ≡ ok (b'a' ∷ [], 80)
parse_cli_url-host_example =
    parse_cli_url-host ascii_unicode http b'a' [] 80 ascii_unicode-IsAscii (refl, tt) (omega arith)
      (omega arith)

parse_cli_url_bounds_example : (0 < 8080) × (8080 ≤ 65535) × (nonempty (codes "localhost") ≡ true)
parse_cli_url_bounds_example =
    parse_cli_url_bounds ascii_unicode (show 8080)
      (parse_cli_url-port ascii_unicode 8080 ascii_unicode-IsAscii (omega arith) (omega arith))

abbrev stdio_options : Options
stdio_options = record {
  cli_path = "copilot";
  cli_args = [];
  cwd = "/";
  port = 0;
  use_stdio = true;
  cli_url = none;
  log_level = "info";
  auto_start = true;
  auto_restart = true;
  env = none;
  github_token = none;
  use_logged_in_user = true;
}

abbrev fresh : Client
fresh = record {
  options = stdio_options;
  actual_host = codes "localhost";
  actual_port = none;
  is_external_server = false;
  process = no_process;
  has_client = false;
  cli_processes = 0;
  connections = 0;
  state = disconnected;
  sessions = [];
  models_cache = none;
  lifecycle_handlers = [];
  typed_lifecycle_handlers = [];
}

abbrev tcp : Client
tcp = record fresh { options = record stdio_options { use_stdio = false } }

abbrev external : Client
external = record tcp { is_external_server = true; actual_port = some 8080 }

-- A server that answers every request in the same way, with all that an answer may need.
abbrev answer : Fields
answer = field "message" (str "pong") (
    field "timestamp" (int (pos 1)) (
      field "protocolVersion" (int (pos 2))
        (field "sessionId" (str "s1") (field "success" (bool true) end))))

abbrev int_value : Value → Result ℤ
int_value (int n) = ok n
int_value _ = raise value_error "not a number"

abbrev conversions : Conversions
conversions = record {
  str_of = λ v. "";
  int_of = int_value;
  float_of = λ v. raise value_error "not a number";
}

abbrev outside : World
outside = record {
  unicode = ascii_unicode;
  show_number = λ n. "0";
  conversions = conversions;
  environ = [];
  exists = λ path. true;
  spawn = λ command env. ok tt;
  output = line (codes "listening on port 8080") closed;
  tcp_connect = λ host port. ok tt;
  request = λ method params. ok (obj answer);
  return_code = none;
  stderr_output = "";
  reader_waits = true;
}

stdio-start-stop_example :
    Post
      (λ z.
        (z.cli_processes ≡ 1)
        × ((stop outside z).1.cli_processes ≡ 0)
        × ((force_stop outside z).cli_processes ≡ 0)
        × ((stop outside z).1.process ≡ no_process)
        × ((force_stop outside z).process ≡ no_process)
        × IsDown (stop outside z).1
        × IsDown (force_stop outside z))
      (start outside fresh)
stdio-start-stop_example = stdio-start-stop outside outside fresh refl refl refl

abbrev tools : List Tool
tools = record { name = "read"; description = "Reads."; parameters = none; handler = some 5 } ∷ []

abbrev config : Config
config = record {
  values = field "model" (str "gpt-5") end;
  tools = some tools;
  on_permission_request = some 1;
  on_user_input_request = none;
  hooks = none;
  provider = none;
  custom_agents = none;
  infinite_sessions = none;
}

create_payload-resume_payload_example :
    lookup "model" (create_payload config) ≡ lookup "model" (resume_payload "s1" config)
create_payload-resume_payload_example = create_payload-resume_payload "s1" config "model" refl refl

open-IsOpened_example :
    PostSession (IsOpened config) (create_session outside config fresh)
    × PostSession (IsOpened config) (resume_session outside "s1" config fresh)
open-IsOpened_example = open-IsOpened outside "s1" config fresh

abbrev pub running : Client
running = record fresh { has_client = true }

answered_id : get? "sessionId" answer ≡ some (str "s1")
unfolding get?
answered_id = refl

-- A client with the session that the server has just described.
abbrev with_session : Client
with_session = (stored (ok (configured config "s1" none)) running).1

abbrev machine : Machine
machine = record { unicode = ascii_unicode; bundled_cli_path = some "copilot"; getcwd = "/" }

abbrev given : Given
given = record {
  cli_path = none;
  cli_args = none;
  cwd = none;
  port = none;
  use_stdio = none;
  cli_url = none;
  log_level = none;
  auto_start = none;
  auto_restart = none;
  env = none;
  github_token = none;
  use_logged_in_user = none;
}

new-given : new machine given ≡ ok fresh
unfolding new
new-given = refl

new-IsConsistent_example : IsConsistent fresh
new-IsConsistent_example = new-IsConsistent machine given fresh new-given

-- The starts of the tests above succeed.
starts_ok :
    ((start outside fresh).0 ≡ ok tt)
    × ((start outside tcp).0 ≡ ok tt)
    × ((start outside external).0 ≡ ok tt)
unfolding start try_start start_cli_server connect_to_server connect_via_stdio connect_via_tcp
    verify_protocol_version ping ping_response_from_dict of_class required to_str to_int get?
    read_port announced_port matches digits_after
starts_ok = (refl, refl, refl)
