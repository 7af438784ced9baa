-- ===== src/JsonRpc/Examples/Calling.antt =====
-- A test of a request between two clients (python/copilot/jsonrpc.py).
use copilot_sdk.Prelude.{◌≡◌, refl, none, some, insert, [], ◌∷◌, ◌++◌, length, lookup, get_elem?}
use copilot_sdk.Prelude.Int.{pos}
use copilot_sdk.Value.{Value, null, end}
use copilot_sdk.JsonRpc.Client.{Client, new, start, set_request_handler}
use copilot_sdk.JsonRpc.Client.Dispatch.{raised_rpc}
use copilot_sdk.JsonRpc.Client.Request.{request_message}
use copilot_sdk.JsonRpc.Client.Step.{World, sends, receives, finishes, loop_runs, step, run}
use copilot_sdk.JsonRpc.Client.Step.Replies.{IsIdle, given_for}
use copilot_sdk.JsonRpc.Client.Step.Calling.{call-answered}
use copilot_sdk.JsonRpc.Examples.{quiet}

-- A client that serves one method.
abbrev serving : Client
serving = start (set_request_handler "ping" (some 3) new)

-- Its handler raises a JsonRpcError.
abbrev refusing : World
refusing = record quiet { call_handler = λ h params. raised_rpc (pos 7) "no" null }

serving-IsIdle : IsIdle serving
unfolding start set_request_handler new
serving-IsIdle = record { running = refl; reading = refl; looping = refl; empty = refl }

caller-IsIdle : IsIdle (start new)
unfolding start new
caller-IsIdle = record { running = refl; reading = refl; looping = refl; empty = refl }

serves_ping :
    (lookup "1" serving.pending_requests ≡ none) × (lookup "ping" serving.request_handlers ≡ some 3)
unfolding start set_request_handler new lookup insert
serves_ping = (refl, refl)

call-answered_example :
    let call = request_message "1" "ping" end in
    let asked = step quiet (sends "1" "ping" end) (start new) in
    let served = run refusing (receives call ∷ loop_runs ∷ []) serving in
    (reply : Value) × (asked.written ≡ (start new).written ++ call ∷ [])
    × (served.written ≡ serving.written ++ reply ∷ [])
    × (let answered = run quiet (receives reply ∷ loop_runs ∷ []) asked in
        (get_elem? answered.futures (length (start new).futures)
          ≡ some (record { owner = "1"; state = given_for (raised_rpc (pos 7) "no" null) }))
        × (lookup "1" (step quiet (finishes "1") answered).pending_requests ≡ none))
call-answered_example =
    call-answered quiet refusing (start new) serving "1" "ping" end 3 caller-IsIdle serving-IsIdle
      (λ m. refl) (λ m. refl) serves_ping.0 serves_ping.1
