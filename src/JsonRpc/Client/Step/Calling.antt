-- ===== src/JsonRpc/Client/Step/Calling.antt =====
-- A request between two clients of python/copilot/jsonrpc.py: `request` of the one, `_dispatch_request` of
-- the other, and the answer on its way back to the caller.
use copilot_sdk.Prelude.{
  ℕ, String, ◌≡◌, refl, ap, ◌∙◌, none, some, List, [], ◌∷◌, ◌++◌, length, get_elem?,
  get_elem?-append_end, insert, lookup, lookup-insert, lookup-erase, sym, subst, eq_refl, if_true,
  Result,
}
use copilot_sdk.Value.{Value, Fields, str, obj}
use copilot_sdk.JsonRpc.Client.{Client, waiting}
use copilot_sdk.JsonRpc.Client.Dispatch.{send_message}
use copilot_sdk.JsonRpc.Client.Request.{request, request_message, settle_future, finish_request}
use copilot_sdk.JsonRpc.Client.Step.{World, sends, receives, finishes, loop_runs, step, run}
use copilot_sdk.JsonRpc.Client.Step.Replies.{IsIdle, given_for, reply, call-served, reply-settles}

-- The caller behind the write of a request
abbrev waits_for : String → List Value → Client → Client
waits_for id sent c = record c {
  futures = c.futures ++ (record { owner = id; state = waiting }) ∷ [];
  pending_requests = insert id (length c.futures) c.pending_requests;
  written = c.written ++ sent;
}

abbrev Asked : String → Value → Client → Client → Type 0
Asked id call c z =
    IsIdle z
    × (z.written ≡ c.written ++ call ∷ [])
    × (lookup id z.pending_requests ≡ some (length c.futures))
    × (get_elem? z.futures (length c.futures) ≡ some (record { owner = id; state = waiting }))

sends-Asked :
    (w : World) (id method : String) (params : Fields) (c : Client)
    → IsIdle c
    → ((m : Value) → w.send m ≡ none)
    → Asked id (request_message id method params) c (step w (sends id method params) c)
unfolding step request
sends-Asked w id method params c idle takes =
    let call = request_message id method params in
    let sent : send_message w.send call ≡ call ∷ [] = rw (takes call) in
    subst (Asked id call c)
      (sym (
        ap (λ (r : Result ℕ × Client). r.1) (if_true _ (_, c) idle.looping)
        ∙ ap (λ ms. waits_for id ms c) sent))
      (
        record {
          running = idle.running;
          reading = idle.reading;
          looping = idle.looping;
          empty = idle.empty;
        },
        refl,
        lookup-insert id id (length c.futures) c.pending_requests ∙ if_true _ _ (eq_refl id),
        get_elem?-append_end c.futures _,
      )

gone :
    (w : World) (id : String) (c : Client)
    → lookup id (step w (finishes id) c).pending_requests ≡ none
unfolding step finish_request
gone w id c = lookup-erase id id c.pending_requests ∙ if_true _ _ (eq_refl id)

-- A request between two clients whose event loops are idle and whose writes succeed, for a method that the
-- other side has a handler for, under an id that the other side does not wait for: one message goes each
-- way, and the caller's future gets what the handler has given, its dict, an empty dict for None, its
-- JsonRpcError with code, message and data, or the internal error with the text of another exception; and
-- the entry of the request is gone when the caller goes on.
pub call-answered :
    (wa wb : World) (a b : Client) (id method : String) (params : Fields) (h : ℕ)
    → IsIdle a
    → IsIdle b
    → ((m : Value) → wa.send m ≡ none)
    → ((m : Value) → wb.send m ≡ none)
    → lookup id b.pending_requests ≡ none
    → lookup method b.request_handlers ≡ some h
    → let call = request_message id method params in
      let asked = step wa (sends id method params) a in
      let served = run wb (receives call ∷ loop_runs ∷ []) b in
      (answer : Value) × (asked.written ≡ a.written ++ call ∷ [])
      × (served.written ≡ b.written ++ answer ∷ [])
      × (let answered = run wa (receives answer ∷ loop_runs ∷ []) asked in
          (get_elem? answered.futures (length a.futures)
            ≡ some (record { owner = id; state = given_for (wb.call_handler h (obj params)) }))
          × (lookup id (step wa (finishes id) answered).pending_requests ≡ none))
unfolding settle_future
call-answered wa wb a b id method params h idle_a idle_b takes_a takes_b fresh found =
    let o = wb.call_handler h (obj params) in
    let (idle, wrote, entry, future) = sends-Asked wa id method params a idle_a takes_a in
    let asked = step wa (sends id method params) a in
    let (settled, kept) = reply-settles wa id (length a.futures) asked o _ idle entry future in
    (
      reply (str id) o,
      wrote,
      call-served wb id method params b h idle_b takes_b fresh found,
      (settled, gone wa id (run wa (receives (reply (str id) o) ∷ loop_runs ∷ []) asked)),
    )
