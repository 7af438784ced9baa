-- ===== src/JsonRpc/Examples.antt =====
-- Tests of the wire format and of `JsonRpcClient` (python/copilot/jsonrpc.py) on concrete inputs.
pub mod Calling
use copilot_sdk.Prelude.{
  ℕ, ◌+◌, ◌<◌, ◌≢◌, ◌-◌, ◌≡◌, refl, true, false, ◌&&◌, Option, none, some, insert, List, [], ◌∷◌,
  ◌++◌, arith, leb, if◌then◌else◌, length, replicate, ok, err, Error, raise, Returns, eof_error,
  os_error, other_error, inr, lookup, get_elem?,
}
use copilot_sdk.Prelude.Int.{pos}
use copilot_sdk.Value.{Value, field, null, str, obj, end, dict, of_dict, get?, truthy}
use copilot_sdk.Text.{Unicode}
use copilot_sdk.Text.Numbers.{ReadsDigits}
use copilot_sdk.JsonRpc.Framing.{
  Codec, frame, flatten, read_message, read_messages, read_exact, closed, out_of_fuel,
}
use copilot_sdk.JsonRpc.Framing.Reads.{read_exact-append, read_exact-short}
use copilot_sdk.JsonRpc.Framing.Termination.{read_messages-ends}
use copilot_sdk.JsonRpc.Framing.RoundTrip.{
  DecodesAscii, frames, read_message-frame, read_messages-frames,
}
use copilot_sdk.JsonRpc.Client.{
  Client, Future, handle_id, handle_answer, contains, fields_of, get_key, settle, error_of, new,
  start, waiting, result, Python, handle_message,
}
use copilot_sdk.JsonRpc.Client.Dispatch.{
  returned, raised, dispatch_request, SentOne, dispatch_request-one,
}
use copilot_sdk.JsonRpc.Client.Request.{settle_future, request}
use copilot_sdk.JsonRpc.Client.Causes.{Handled, handle_message-Handled}
use copilot_sdk.JsonRpc.Client.Pending.{WaitsFor, request-leaks}
use copilot_sdk.JsonRpc.Client.Step.{
  World, Event, sends, receives, loop_runs, receive, run_next, run_callback, step, run,
}
use copilot_sdk.JsonRpc.Client.Step.Routing.{Answered, run-Answered}
use copilot_sdk.JsonRpc.Client.Step.Exit.{DoneAt, exit-settles}

-- The ten ASCII digits.
abbrev decimal_digit : ℕ → Option ℕ
decimal_digit c = if leb 48 c && leb c 57 then some (c - 48) else none

abbrev ascii_unicode : Unicode
ascii_unicode = record { decimal = decimal_digit; isdigit = λ c. leb 48 c && leb c 57 }

reads_digits : ReadsDigits ascii_unicode
reads_digits d h = ground (arith, h)

abbrev ping_message : Value
ping_message = dict (("method", str "ping") ∷ [])

-- A codec that knows one message, and writes it as two bytes.
abbrev one_message : Codec
one_message = record {
  dumps = λ v. 123 ∷ 125 ∷ [];
  loads = λ bs. ok ping_message;
  decode = ok;
  unicode = ascii_unicode;
}

one_ascii : DecodesAscii one_message
one_ascii bs h = refl

append-nil_frame :
    flatten (frame one_message ping_message ∷ []) ≡ frame one_message ping_message ++ []
unfolding flatten
append-nil_frame = refl

read_message-frame_example :
    ((read_message one_message (frame one_message ping_message ∷ [])).0 ≡ ok (some ping_message))
    × (flatten (read_message one_message (frame one_message ping_message ∷ [])).1 ≡ [])
read_message-frame_example =
    read_message-frame one_message reads_digits one_ascii ping_message []
      (frame one_message ping_message ∷ []) refl append-nil_frame

abbrev two_messages : List Value
two_messages = ping_message ∷ ping_message ∷ []

two_frames :
    flatten (frame one_message ping_message ∷ frame one_message ping_message ∷ [])
    ≡ frames one_message reads_digits one_ascii two_messages
unfolding flatten
two_frames = refl

ping_truthy : truthy ping_message ≡ true
unfolding truthy of_dict
ping_truthy = refl

read_messages-frames_example :
    read_messages 3 one_message
      (frame one_message ping_message ∷ frame one_message ping_message ∷ [])
    ≡ (two_messages, closed)
read_messages-frames_example =
    read_messages-frames one_message reads_digits one_ascii two_messages
      (frame one_message ping_message ∷ frame one_message ping_message ∷ [])
      ((refl, ping_truthy), ((refl, ping_truthy), tt)) two_frames

-- A stream that ends in the middle of a header
abbrev cut_off : List (List ℕ)
cut_off = (67 ∷ 111 ∷ []) ∷ (110 ∷ []) ∷ []

cut_off-length : length (flatten cut_off) < 4
unfolding flatten
cut_off-length = omega arith

read_messages-ends_example :
    ((read_messages 4 one_message cut_off).1 ≢ out_of_fuel)
    × ((more : ℕ)
        → read_messages (4 + more) one_message cut_off ≡ read_messages 4 one_message cut_off)
read_messages-ends_example = read_messages-ends 4 one_message cut_off cut_off-length

chunks : flatten ((1 ∷ []) ∷ (2 ∷ 3 ∷ []) ∷ []) ≡ (1 ∷ 2 ∷ []) ++ 3 ∷ []
unfolding flatten
chunks = refl

read_exact-append_example :
    ((read_exact 2 ((1 ∷ []) ∷ (2 ∷ 3 ∷ []) ∷ [])).0 ≡ ok (1 ∷ 2 ∷ []))
    × (flatten (read_exact 2 ((1 ∷ []) ∷ (2 ∷ 3 ∷ []) ∷ [])).1 ≡ 3 ∷ [])
read_exact-append_example =
    read_exact-append ((1 ∷ []) ∷ (2 ∷ 3 ∷ []) ∷ []) (1 ∷ 2 ∷ []) (3 ∷ []) chunks

too_short : length (flatten ((1 ∷ []) ∷ [])) < 2
unfolding flatten
too_short = omega arith

read_exact-short_example :
    (read_exact 2 ((1 ∷ []) ∷ [])).0
    ≡ raise eof_error "Unexpected end of stream while reading JSON-RPC message"
read_exact-short_example = read_exact-short 2 ((1 ∷ []) ∷ []) too_short

dispatch_request-one_example : SentOne (str "7") (
    dispatch_request
      (λ m. none)
      (str "7")
      (raised (record { kind = os_error; message = "no disk" })))
dispatch_request-one_example =
    dispatch_request-one (λ m. none) (str "7")
      (raised (record { kind = os_error; message = "no disk" })) (λ code message info. refl)

abbrev plain_python : Python
plain_python = record { in_text = λ k s. false; str_of = λ v. "value" }

abbrev broken_pipe : Error
broken_pipe = record { kind = os_error; message = "broken pipe" }

started_has_loop : (start new).has_loop ≡ true
unfolding start new
started_has_loop = refl

request-leaks_example :
    ((request (λ m. some broken_pipe) "1" "ping" end (start new)).0 ≡ err broken_pipe)
    × ((request (λ m. some broken_pipe) "1" "ping" end (start new)).1.written
        ≡ (start new).written ++ [])
    × WaitsFor "1"
        (length (start new).futures)
        (request (λ m. some broken_pipe) "1" "ping" end (start new)).1
request-leaks_example =
    request-leaks (λ m. some broken_pipe) "1" "ping" end (start new) broken_pipe started_has_loop
      refl

abbrev pub quiet : World
quiet = record {
  python = plain_python;
  stderr_output = "";
  return_code = some (pos 1);
  send = λ m. none;
  call_handler = λ h params. returned null;
}

-- An answer to the request "1".
abbrev answer : Value
answer = obj (field "id" (str "1") (field "result" (str "pong") end))

-- A request, its answer, and a round of the event loop.
abbrev exchange : List Event
exchange = sends "1" "ping" end ∷ receives answer ∷ loop_runs ∷ []

abbrev answered_future : Future
answered_future = record { owner = "1"; state = result (str "pong") }

exchange-answers : get_elem? (run quiet exchange (start new)).futures 0 ≡ some answered_future
unfolding run step receive run_next run_callback request handle_message handle_id handle_answer
    contains fields_of get_key settle start new get? truthy lookup insert settle_future
exchange-answers = refl

run-Answered_example : Answered "1" (str "pong") exchange
run-Answered_example =
    run-Answered quiet exchange 0 answered_future (str "pong") exchange-answers refl

-- A client with one request on its way.
abbrev one_pending : Client
one_pending = run quiet (sends "1" "ping" end ∷ []) (start new)

pending_state :
    (one_pending.running ≡ true)
    × (one_pending.reading ≡ true)
    × (lookup "1" one_pending.pending_requests ≡ some 0)
    × (get_elem? one_pending.futures 0 ≡ some (record { owner = "1"; state = waiting }))
unfolding run step request start new lookup insert
pending_state = (refl, refl, refl, refl)

-- An answer whose error is null: reading its code raises.
abbrev broken : Value
broken = obj (field "id" (str "1") (field "error" null end))

broken-raises :
    (truthy broken ≡ true)
    × (handle_message plain_python broken one_pending
        ≡ raise other_error "object has no attribute 'get'")
unfolding run step request start new lookup insert truthy handle_message handle_id handle_answer
    contains fields_of get_key settle get? error_of
broken-raises = (refl, refl)

exit-settles_example : DoneAt 0 (
    run quiet
      (replicate (length (step quiet (receives broken) one_pending).queue) loop_runs)
      (step quiet (receives broken) one_pending))
exit-settles_example =
    exit-settles quiet (receives broken) one_pending "1" 0 (record { owner = "1"; state = waiting })
      (inr (broken-raises.0, (_, broken-raises.1))) pending_state.0 pending_state.1 pending_state.2
      pending_state.3

handle_message-Handled_example :
    Returns
      (Handled plain_python one_pending answer)
      (handle_message plain_python answer one_pending)
handle_message-Handled_example = handle_message-Handled plain_python answer one_pending
