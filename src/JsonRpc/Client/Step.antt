-- ===== src/JsonRpc/Client/Step.antt =====
-- The steps of the client, in whatever order the threads and the event loop take them: `_read_loop`
-- of python/copilot/jsonrpc.py, and the callbacks that run on the event loop.
pub mod Settled
pub mod Owning
pub mod Routing
pub mod Exit
pub mod Replies
pub mod Calling
use copilot_sdk.Prelude.{
  ℕ, String, Bool, true, false, Option, none, some, List, [], ◌∷◌, ◌++◌, if◌then◌else◌, modify,
  lookup, Result, ok, err, Error,
}
use copilot_sdk.Prelude.Int.{ℤ}
use copilot_sdk.Value.{Value, Fields, null, obj, end, get_or, truthy}
use copilot_sdk.JsonRpc.Client.{
  Client, Callback, set_result, set_exception, notification, send_error, dispatch, FutureState,
  result, exception, Python, handle_message, stop,
}
use copilot_sdk.JsonRpc.Client.Dispatch.{
  Outcome, Transport, send_message, error_response, dispatch_request,
}
use copilot_sdk.JsonRpc.Client.Request.{
  request, finish_request, settle_future, time_out, notify, fail_pending_requests,
}

-- What the code meets outside: Python, the process and the pipe, and the request handlers.
pub record World : Type 0 where
  pub python : Python
  pub stderr_output : String
  pub return_code : Option ℤ
  pub send : Transport
  pub call_handler : ℕ → Value → Outcome

-- What may happen next. `sends` names the id drawn for a request, `times_out` its future.
pub data Event : Type 0 where
  sends : String → String → Fields → Event
  notifies : String → Fields → Event
  finishes : String → Event
  times_out : String → ℕ → Event
  receives : Value → Event
  stream_closes : Event
  read_raises : String → Event
  loop_runs : Event
  stops : Event

module _ (w : World) where
  -- The end of the reading thread.
  unfoldable pub reader_ends : Client → Client
  reader_ends c =
      let c' = record c { reading = false } in
      if c.running then fail_pending_requests w.python w.stderr_output w.return_code c' else c'

  -- An exception in the reading thread.
  unfoldable pub reader_fails : String → Client → Client
  reader_fails message c =
      reader_ends (if c.running then record c { process_exit_error = some message } else c)

  -- After a message the loop goes on while the client runs.
  abbrev pub handled : Client → Result Client → Client
  handled c (ok c') = if c'.running then c' else record c' { reading = false }
  handled c (err e) = reader_fails e.message c

  -- One round of `_read_loop` that gets a message; an empty one ends the loop.
  unfoldable pub receive : Value → Client → Client
  receive message c =
      if c.reading
      then (if truthy message then handled c (handle_message w.python message c) else reader_ends c)
      else c

  -- One callback of the event loop.
  unfoldable pub run_callback : Callback → Client → Client
  run_callback (set_result f v) c = record c {
    futures = modify (settle_future (result v)) c.futures f;
  }
  run_callback (set_exception f e) c = record c {
    futures = modify (settle_future (exception e)) c.futures f;
  }
  run_callback (notification method params) c = record c {
    notified = c.notified ++ (method, params) ∷ [];
  }
  run_callback (send_error id code message) c = record c {
    written = c.written ++ send_message w.send (error_response id code message null);
  }
  run_callback (dispatch fs h) c = record c {
    written =
        c.written
        ++ dispatch_request w.send (get_or "id" null fs)
            (w.call_handler h (get_or "params" (obj end) fs));
  }

  -- The callback at the front of the queue, if there is one.
  unfoldable pub run_next : List Callback → Client → Client
  unfolding run_callback
  run_next [] c = c
  run_next (cb ∷ rest) c = run_callback cb (record c { queue = rest })

  unfoldable pub step : Event → Client → Client
  unfolding run_next
  step (sends id method params) c = (request w.send id method params c).1
  step (notifies method params) c = notify w.send method params c
  step (finishes id) c = finish_request id c
  step (times_out id f) c = time_out id f c
  step (receives message) c = receive message c
  step stream_closes c = if c.reading then reader_ends c else c
  step (read_raises message) c = if c.reading then reader_fails message c else c
  step loop_runs c = run_next c.queue c
  step stops c = stop c

  unfoldable pub run : List Event → Client → Client
  run [] c = c
  run (e ∷ es) c = run es (step e c)
