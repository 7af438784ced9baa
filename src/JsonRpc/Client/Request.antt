-- ===== src/JsonRpc/Client/Request.antt =====
-- Requests of ours, and what becomes of them when the process goes away: `request`, `notify` and
-- `_fail_pending_requests` of python/copilot/jsonrpc.py.
use Prim.Native.String.{◌++◌ as append}
use copilot_sdk.Prelude.{
  ℕ, String, Bool, true, false, not, Option, none, some, List, [], ◌∷◌, ◌++◌, str_eq, if◌then◌else◌,
  length, get_elem?, modify, insert, erase, Dict, Result, ok, err, Error, raise, runtime_error,
}
use copilot_sdk.Prelude.Int.{ℤ}
use copilot_sdk.Value.{Value, Fields, int, str, obj, dict}
use copilot_sdk.JsonRpc.Client.{
  Client, Future, FutureState, waiting, cancelled, Failure, process_exited, Callback, set_exception,
  Python,
}
use copilot_sdk.JsonRpc.Client.Dispatch.{Transport, send_message}

abbrev opt_err {ℓ} : {A : Type ℓ} → A → Option Error → Result A
opt_err a none = ok a
opt_err a (some e) = err e

unfoldable pub request_message : String → String → Fields → Value
request_message request_id method params = dict (
    ("jsonrpc", str "2.0")
    ∷ ("id", str request_id)
    ∷ ("method", str method)
    ∷ ("params", obj params)
    ∷ [])

-- `request` up to the wait: the future, under the id drawn for it. A write that raises ends the call
-- before its `try`, and the entry stays.
unfoldable pub request : Transport → String → String → Fields → Client → Result ℕ × Client
unfolding request_message
request send request_id method params c =
    let future = length c.futures in
    let message = request_message request_id method params in
    if c.has_loop
    then (
      opt_err future (send message),
      record c {
        futures = c.futures ++ (record { owner = request_id; state = waiting }) ∷ [];
        pending_requests = insert request_id future c.pending_requests;
        written = c.written ++ send_message send message;
      },
    )
    else (raise runtime_error "Client not started. Call start() first.", c)

-- The `finally` of `request`.
unfoldable pub finish_request : String → Client → Client
finish_request request_id c = record c { pending_requests = erase request_id c.pending_requests }

-- A future changes its state once; `set_result` and `set_exception` on one that is done raise
-- InvalidStateError in the callback, and `cancel` does nothing.
unfoldable pub settle_future : FutureState → Future → Future
settle_future s f = elim f.state [ waiting ↦ record f { state = s } | _ ↦ f ]

-- The timeout of `wait_for`: it cancels the future, and `request` takes its entry away.
unfoldable pub time_out : String → ℕ → Client → Client
unfolding settle_future finish_request
time_out request_id f c =
    finish_request request_id (record c { futures = modify (settle_future cancelled) c.futures f })

-- `notify`
unfoldable pub notify : Transport → String → Fields → Client → Client
notify send method params c =
    let message =
      dict (("jsonrpc", str "2.0") ∷ ("method", str method) ∷ ("params", obj params) ∷ []) in
    record c { written = c.written ++ send_message send message }

abbrev pub is_waiting : FutureState → Bool
is_waiting waiting = true
is_waiting _ = false

-- `not future.done()`
abbrev pub not_done : Option Future → Bool
not_done none = false
not_done (some f) = is_waiting f.state

-- The callbacks for the futures of the pending requests that are not done.
unfoldable pub failures : Failure → List Future → Dict ℕ → List Callback
failures e futures [] = []
failures e futures ((_, f) ∷ pending) =
    let rest = failures e futures pending in
    if not_done (get_elem? futures f) then set_exception f e ∷ rest else rest

abbrev code_text : Python → Option ℤ → String
code_text py none = "None"
code_text py (some n) = py.str_of (int n)

-- The text of the ProcessExitedError, from the captured stderr and the exit code.
unfoldable pub exit_message : Python → String → Option ℤ → String
exit_message py stderr_output return_code =
    if not (str_eq stderr_output "")
    then append "CLI process exited with code "
        (append (code_text py return_code) (append "\nstderr: " stderr_output))
    else elim return_code [
      | some n ↦ append "CLI process exited with code " (py.str_of (int n))
      | none ↦ "CLI process exited unexpectedly"
    ]

-- `_fail_pending_requests`
unfoldable pub fail_pending_requests : Python → String → Option ℤ → Client → Client
unfolding failures exit_message
fail_pending_requests py stderr_output return_code c =
    let e = process_exited (exit_message py stderr_output return_code) in
    record c { queue = c.queue ++ failures e c.futures c.pending_requests }
