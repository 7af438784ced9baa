-- ===== src/JsonRpc/Client/Step/Replies.antt =====
-- The reply to a request of the other side, written by `_dispatch_request` and read by `_handle_message` of
-- python/copilot/jsonrpc.py.
use copilot_sdk.Prelude.{
  ℕ, String, ◌≡◌, refl, ap, ◌∙◌, true, none, some, [], ◌∷◌, ◌++◌, get_elem?, get_elem?-modify_self,
  lookup, if_true, ok,
}
use copilot_sdk.Prelude.Int.{ℤ}
use copilot_sdk.Value.{
  Value, Fields, null, bool, int, float, str, arr, obj, end, of_dict, get?, truthy,
}
use copilot_sdk.JsonRpc.Client.{
  Client, Future, FutureState, result, exception, rpc_error, Callback, set_result, set_exception,
  dispatch, enqueue, contains, fields_of, get_key, error_of, settle, answer_request, handle_request,
  handle_method, handle_id, handle_answer, handle_other, handle_message,
}
use copilot_sdk.JsonRpc.Client.Dispatch.{
  Outcome, returned, raised_rpc, raised, response, error_response, dispatch_request, internal_error,
}
use copilot_sdk.JsonRpc.Client.Request.{request_message, settle_future}
use copilot_sdk.JsonRpc.Client.Step.{
  World, receives, loop_runs, handled, receive, run_callback, run_next, step, run,
}

-- The client runs, and nothing waits on its event loop.
pub record IsIdle (c : Client) : Type 0 where
  pub running : c.running ≡ true
  pub reading : c.reading ≡ true
  pub looping : c.has_loop ≡ true
  pub empty : c.queue ≡ []

abbrev no_dict : String
no_dict = "Request handler must return a dict"

-- What the caller is given for what the handler of the other side does.
abbrev pub given_for : Outcome → FutureState
given_for (returned null) = result (obj end)
given_for (returned (obj outcome)) = result (obj outcome)
given_for (returned _) = exception (rpc_error (int internal_error) (str no_dict) null)
given_for (raised_rpc code message info) = exception (rpc_error (int code) (str message) info)
given_for (raised e) = exception (rpc_error (int internal_error) (str e.message) null)

-- The message that answers a request, if it can be written.
abbrev pub reply : Value → Outcome → Value
reply id (returned null) = response id end
reply id (returned (obj outcome)) = response id outcome
reply id (returned _) = error_response id internal_error no_dict null
reply id (raised_rpc code message info) = error_response id code message info
reply id (raised e) = error_response id internal_error e.message null

module _ (w : World) where
  receive-ok :
      (m : Value) (c c' : Client)
      → c.reading ≡ true
      → truthy m ≡ true
      → handle_message w.python m c ≡ ok c'
      → c'.running ≡ true
      → receive w m c ≡ c'
  unfolding receive
  receive-ok m c c' d t h r = if_true _ c d ∙ if_true _ _ t ∙ ap (handled w c) h ∙ if_true c' _ r

  -- A message that puts a callback on an idle event loop, which then runs it.
  receive-runs :
      (m : Value) (cb : Callback) (c : Client)
      → IsIdle c
      → truthy m ≡ true
      → handle_message w.python m c ≡ ok (enqueue cb c)
      → run w (receives m ∷ loop_runs ∷ []) c ≡ run_next w (cb ∷ []) (enqueue cb c)
  unfolding run step
  receive-runs m cb c idle t h =
      ap (λ (z : Client). run_next w z.queue z)
        (receive-ok m c (enqueue cb c) idle.reading t h idle.running)
      ∙ ap (λ q. run_next w (q ++ cb ∷ []) (enqueue cb c)) idle.empty

abbrev call_fields : String → String → Fields → Fields
call_fields id method params =
    of_dict (
      ("jsonrpc", str "2.0")
      ∷ ("id", str id)
      ∷ ("method", str method)
      ∷ ("params", obj params)
      ∷ [])

-- When every write succeeds, a request is answered by one message.
dispatch_request-reply :
    (w : World) (id : Value) (o : Outcome)
    → ((m : Value) → w.send m ≡ none)
    → dispatch_request w.send id o ≡ reply id o ∷ []
unfolding dispatch_request
dispatch_request-reply w id (returned null) takes = rw (takes (response id end))
dispatch_request-reply w id (returned (obj outcome)) takes = rw (takes (response id outcome))
dispatch_request-reply w id (raised_rpc code message info) takes = rw (takes _)
dispatch_request-reply w id (raised e) takes = rw (takes _)
dispatch_request-reply w id (returned (bool b)) takes = rw (takes _)
dispatch_request-reply w id (returned (int n)) takes = rw (takes _)
dispatch_request-reply w id (returned (float s)) takes = rw (takes _)
dispatch_request-reply w id (returned (str s)) takes = rw (takes _)
dispatch_request-reply w id (returned (arr vs)) takes = rw (takes _)

module _ (w : World) (id method : String) (params : Fields) (c : Client) where
  call-handled :
      (h : ℕ)
      → c.has_loop ≡ true
      → lookup id c.pending_requests ≡ none
      → lookup method c.request_handlers ≡ some h
      → handle_message w.python (request_message id method params) c
        ≡ ok (enqueue (dispatch (call_fields id method params) h) c)
  unfolding request_message handle_message handle_id handle_answer handle_other handle_method
      handle_request answer_request contains fields_of get_key get? of_dict
  call-handled h loop fresh found = rw fresh (rw found (rw loop refl))

  -- The side that serves the request writes the reply.
  pub call-served :
      (h : ℕ)
      → IsIdle c
      → ((m : Value) → w.send m ≡ none)
      → lookup id c.pending_requests ≡ none
      → lookup method c.request_handlers ≡ some h
      → (run w (receives (request_message id method params) ∷ loop_runs ∷ []) c).written
        ≡ c.written ++ reply (str id) (w.call_handler h (obj params)) ∷ []
  unfolding request_message truthy run_next run_callback get? of_dict
  call-served h idle takes fresh found =
      ap (λ (z : Client). z.written)
        (receive-runs w (request_message id method params)
          (dispatch (call_fields id method params) h) c idle refl
          (call-handled h idle.looping fresh found))
      ∙ ap (λ ms. c.written ++ ms)
          (dispatch_request-reply w (str id) (w.call_handler h (obj params)) takes)

module _ (w : World) (id : String) (f : ℕ) (c : Client) where
  result-handled :
      (outcome : Fields)
      → lookup id c.pending_requests ≡ some f
      → handle_message w.python (response (str id) outcome) c
        ≡ ok (enqueue (set_result f (obj outcome)) c)
  unfolding response handle_message handle_id handle_answer contains fields_of get_key settle get?
      of_dict
  result-handled outcome found = rw found refl

  error-handled :
      (code : ℤ) (message : String) (info : Value)
      → lookup id c.pending_requests ≡ some f
      → handle_message w.python (error_response (str id) code message info) c
        ≡ ok (enqueue (set_exception f (rpc_error (int code) (str message) info)) c)
  unfolding error_response handle_message handle_id handle_answer contains fields_of get_key settle
      error_of get? of_dict
  error-handled code message info found = rw found refl

  -- The future after the message of a result or of an error
  result-settles :
      (outcome : Fields) (x : Future)
      → IsIdle c
      → lookup id c.pending_requests ≡ some f
      → get_elem? c.futures f ≡ some x
      → let r = run w (receives (response (str id) outcome) ∷ loop_runs ∷ []) c in
        (get_elem? r.futures f ≡ some (settle_future (result (obj outcome)) x))
        × (r.pending_requests ≡ c.pending_requests)
  unfolding response truthy run_next run_callback of_dict
  result-settles outcome x idle found held =
      let same =
        receive-runs w (response (str id) outcome) (set_result f (obj outcome)) c idle refl
          (result-handled outcome found) in
      (
        ap (λ (z : Client). get_elem? z.futures f) same ∙ get_elem?-modify_self _ c.futures f held,
        ap (λ (z : Client). z.pending_requests) same,
      )

  error-settles :
      (code : ℤ) (message : String) (info : Value) (x : Future)
      → IsIdle c
      → lookup id c.pending_requests ≡ some f
      → get_elem? c.futures f ≡ some x
      → let e = rpc_error (int code) (str message) info in
        let r = run w (receives (error_response (str id) code message info) ∷ loop_runs ∷ []) c in
        (get_elem? r.futures f ≡ some (settle_future (exception e) x))
        × (r.pending_requests ≡ c.pending_requests)
  unfolding error_response truthy run_next run_callback of_dict
  error-settles code message info x idle found held =
      let same =
        receive-runs w (error_response (str id) code message info)
          (set_exception f (rpc_error (int code) (str message) info)) c idle refl
          (error-handled code message info found) in
      (
        ap (λ (z : Client). get_elem? z.futures f) same ∙ get_elem?-modify_self _ c.futures f held,
        ap (λ (z : Client). z.pending_requests) same,
      )

  -- The caller's future after the reply
  pub reply-settles :
      (o : Outcome) (x : Future)
      → IsIdle c
      → lookup id c.pending_requests ≡ some f
      → get_elem? c.futures f ≡ some x
      → let r = run w (receives (reply (str id) o) ∷ loop_runs ∷ []) c in
        (get_elem? r.futures f ≡ some (settle_future (given_for o) x))
        × (r.pending_requests ≡ c.pending_requests)
  reply-settles (returned null) = result-settles end
  reply-settles (returned (obj outcome)) = result-settles outcome
  reply-settles (raised_rpc code message info) = error-settles code message info
  reply-settles (raised e) = error-settles internal_error e.message null
  reply-settles (returned (bool b)) = error-settles internal_error no_dict null
  reply-settles (returned (int n)) = error-settles internal_error no_dict null
  reply-settles (returned (float s)) = error-settles internal_error no_dict null
  reply-settles (returned (str s)) = error-settles internal_error no_dict null
  reply-settles (returned (arr vs)) = error-settles internal_error no_dict null
