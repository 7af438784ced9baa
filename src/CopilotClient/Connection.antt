-- ===== src/CopilotClient/Connection.antt =====
-- Connecting and stopping: `start`, `stop`, `force_stop`, `_start_cli_server`, `_connect_to_server` and
-- `_verify_protocol_version` of python/copilot/client.py.
pub mod Starting
pub mod Stopping
pub mod Sound
use Prim.Native.String.{◌++◌ as append}
use copilot_sdk.Prelude.{
  or_else, ℕ, zero, suc, String, Bool, true, false, not, ◌&&◌, Option, none, some, List, [], ◌∷◌,
  Dict, values, if◌then◌else◌, ltb, str_eq, ◌==◌, Result, ok, err, Error, ErrorKind, raise,
  runtime_error, process_exited, value_error, assertion_error, ◌>>=◌, is_some,
}
use copilot_sdk.Prelude.Int.{ℤ, pos}
use copilot_sdk.Value.{Value, Fields, null, int, str, obj, dict, get?, get_or, is_none}
use copilot_sdk.Text.{Text, Unicode}
use copilot_sdk.Session.{Session}
use copilot_sdk.Session.Waiting.{Request}
use copilot_sdk.Session.Lifecycle.{destroy}
use copilot_sdk.CopilotClient.State.{
  Client, Options, ConnectionState, disconnected, connecting, connected, error, Process, no_process,
  popen, socket,
}
use copilot_sdk.Types.{Conversions}
use copilot_sdk.CopilotClient.Status.{ping}
use copilot_sdk.CopilotClient.Command.{Output, command_line, environment, read_port}

-- What a client meets outside: the machine, the CLI process, the network and the server.
pub record World : Type 0 where
  pub unicode : Unicode
  pub show_number : ℕ → String
  -- `str`, `int` and `float` of values of other types
  pub conversions : Conversions
  pub environ : Dict String
  pub exists : String → Bool
  -- `subprocess.Popen` with a command line and an environment
  pub spawn : List String → Dict String → Result (Unit {0})
  pub output : Output
  -- `sock.connect`
  pub tcp_connect : Text → ℕ → Result (Unit {0})
  pub request : Request
  -- `process.poll()` of the spawned process, and the captured stderr
  pub return_code : Option ℕ
  pub stderr_output : String
  -- whether the thread that reads from a connection still waits in a read when the client is stopped, so
  -- that it holds the file that was made of the socket
  pub reader_waits : Bool

-- A method that may raise; what was written before stays written.
abbrev pub Exec : Type 0
Exec = Client → Result (Unit {0}) × Client

-- One method after the other; an exception of the first ends both.
abbrev pub then_do : Result (Unit {0}) × Client → Exec → Result (Unit {0}) × Client
then_do (ok u, c) m = m c
then_do (err e, c) m = (err e, c)

abbrev fail : String → Exec
fail message c = (raise runtime_error message, c)

-- A process that `_process` held before is not ended: nothing leads to it any more.
abbrev after_spawn : Result (Unit {0}) → Exec
after_spawn (err e) c = (err e, c)
after_spawn (ok u) c = (ok tt, record c { process = popen; cli_processes = suc c.cli_processes })

abbrev after_port : Result ℕ → Exec
after_port (err e) c = (err e, c)
after_port (ok n) c = (ok tt, record c { actual_port = some n })

-- `_start_cli_server`
unfoldable pub start_cli_server : World → Exec
start_cli_server w c =
    if w.exists c.options.cli_path
    then then_do
        (after_spawn
          (w.spawn (command_line w.show_number c.options) (environment w.environ c.options)) c)
        (λ c'.
          if c'.options.use_stdio
          then (ok tt, c')
          else after_port (read_port w.unicode w.output) c')
    else fail (append "Copilot CLI not found at " c.options.cli_path) c

abbrev process_set : Process → Bool
process_set no_process = false
process_set _ = true

-- `_connect_via_stdio`
unfoldable pub connect_via_stdio : Exec
connect_via_stdio c =
    if process_set c.process
    then (ok tt, record c { has_client = true })
    else fail "CLI process not started" c

abbrev after_connect : Result (Unit {0}) → Exec
after_connect (err e) c = fail (append "Failed to connect to CLI server: " e.message) c
after_connect (ok u) c =
    (ok tt, record c { process = socket; has_client = true; connections = suc c.connections })

abbrev connect_port : World → Option ℕ → Exec
connect_port w none c = fail "Server port not available" c
connect_port w (some zero) c = fail "Server port not available" c
connect_port w (some (suc n)) c = after_connect (w.tcp_connect c.actual_host (suc n)) c

-- `_connect_via_tcp`: the wrapper of the socket takes the place of the process.
unfoldable pub connect_via_tcp : World → Exec
connect_via_tcp w c = connect_port w c.actual_port c

-- `_connect_to_server`
unfoldable pub connect_to_server : World → Exec
unfolding connect_via_stdio connect_via_tcp
connect_to_server w c = if c.options.use_stdio then connect_via_stdio c else connect_via_tcp w c

-- `get_sdk_protocol_version`
abbrev pub sdk_protocol_version : ℤ
sdk_protocol_version = pos 2

abbrev same_int : ℤ → ℤ → Bool
same_int (pos a) (pos b) = a == b
same_int (ℤ.negsuc a) (ℤ.negsuc b) = a == b
same_int _ _ = false

abbrev check_version : Result ℤ → Exec
check_version (err e) c = (err e, c)
check_version (ok v) c =
    if same_int v sdk_protocol_version then (ok tt, c) else fail "SDK protocol version mismatch" c

-- `_verify_protocol_version`. The test for a version that is None is left out: `ping` has raised before it.
unfoldable pub verify_protocol_version : World → Exec
unfolding ping
verify_protocol_version w c =
    check_version (ping w.conversions w.request none c >>= λ r. ok r.protocol_version) c

-- The `try` of `start`
unfoldable pub try_start : World → Exec
try_start w c =
    then_do
      (then_do (if c.is_external_server then (ok tt, c) else start_cli_server w c)
        (connect_to_server w))
      (verify_protocol_version w)

-- Whether `poll` of the process gives an exit code.
abbrev exited : World → Process → Bool
exited w popen = is_some w.return_code
exited w _ = false

abbrev with_stderr : World → Client → Error → Error
with_stderr w c e =
    if exited w c.process && c.has_client && not (str_eq w.stderr_output "")
    then record {
      kind = runtime_error;
      message =
          append "CLI process exited with code " (
            append (w.show_number (or_else w.return_code 0)) (append "\nstderr: " w.stderr_output));
    }
    else e

-- The exception that a failed start raises.
abbrev start_error : World → Client → ErrorKind → Error → Error
start_error w c process_exited e = record { kind = runtime_error; message = e.message }
start_error w c _ e = with_stderr w c e

abbrev after_try : World → Result (Unit {0}) × Client → Result (Unit {0}) × Client
after_try w (ok u, c) = (ok tt, record c { state = connected })
after_try w (err e, c) = (err (start_error w c e.kind e), record c { state = error })

abbrev is_connected : ConnectionState → Bool
is_connected connected = true
is_connected _ = false

-- `start`
unfoldable pub start : World → Exec
start w c =
    if is_connected c.state
    then (ok tt, c)
    else after_try w (try_start w (record c { state = connecting }))

-- The text of the StopError of a session that could not be destroyed.
abbrev destroy_error : Session → Result (Unit {0}) → List String → List String
destroy_error s (ok u) errors = errors
destroy_error s (err e) errors =
    append "Failed to destroy session " (append s.session_id (append ": " e.message)) ∷ errors

-- The errors of destroying the sessions, in order.
unfoldable pub destroy_all : Request → List Session → List String
destroy_all request [] = []
destroy_all request (s ∷ ss) = destroy_error s (destroy request s).0 (destroy_all request ss)

-- How many are left when one is ended.
abbrev pub one_less : ℕ → ℕ
one_less zero = zero
one_less (suc n) = n

-- `terminate` or `kill` of what `_process` holds. The process ends; but to close the socket object closes
-- the connection only if no file that `makefile` made of it is still held, here by a thread that reads.
abbrev pub end_process : World → Process → Client → Client
end_process w no_process c = c
end_process w popen c = record c { process = no_process; cli_processes = one_less c.cli_processes }
end_process w socket c = record c {
  process = no_process;
  connections = if w.reader_waits then c.connections else one_less c.connections;
}

-- The part that `stop` and `force_stop` share, behind the sessions.
unfoldable pub shut_down : World → Client → Client
shut_down w c =
    let c' = record c { has_client = false; models_cache = none; sessions = [] } in
    let c'' = if c.is_external_server then c' else end_process w c.process c' in
    record c'' {
      state = disconnected;
      actual_port = if c.is_external_server then c.actual_port else none;
    }

-- `stop`, with the messages of its StopErrors
unfoldable pub stop : World → Client → List String × Client
unfolding destroy_all shut_down
stop w c = (destroy_all w.request (values c.sessions), shut_down w c)

-- `force_stop`
unfoldable pub force_stop : World → Client → Client
unfolding shut_down
force_stop w c = shut_down w c
