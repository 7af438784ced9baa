-- ===== src/JsonRpc/Client/Pending.antt =====
-- The branches of `request`, and what they leave in `pending_requests`.
use copilot_sdk.Prelude.{
  ℕ, ◌≡◌, true, some, [], ◌++◌, String, length, get_elem?, lookup, lookup-insert, eq_refl,
  get_elem?-append_end, Error, err,
}
use copilot_sdk.Value.{Fields}
use copilot_sdk.JsonRpc.Client.{Client, waiting}
use copilot_sdk.JsonRpc.Client.Dispatch.{Transport}
use copilot_sdk.JsonRpc.Client.Request.{request, request_message}

-- The request `id` waits for the future at `f`.
pub record WaitsFor (id : String) (f : ℕ) (c : Client) : Type 0 where
  pub entry : lookup id c.pending_requests ≡ some f
  pub future : get_elem? c.futures f ≡ some (record { owner = id; state = waiting })

module _ (send : Transport) (id method : String) (params : Fields) (c : Client) where
  request_registers :
      c.has_loop ≡ true → WaitsFor id (length c.futures) (request send id method params c).1
  unfolding request
  request_registers h = rw h (record {
    entry = rw (lookup-insert id id (length c.futures) c.pending_requests) (rw (eq_refl id));
    future = get_elem?-append_end c.futures _;
  })

  -- If the write raises, the caller of a started client gets that exception and nothing is on the pipe,
  -- but the entry of the request stays in `pending_requests`: the `finally` that takes entries away is
  -- not reached.
  pub request-leaks :
      (e : Error)
      → c.has_loop ≡ true
      → send (request_message id method params) ≡ some e
      → ((request send id method params c).0 ≡ err e)
        × ((request send id method params c).1.written ≡ c.written ++ [])
        × WaitsFor id (length c.futures) (request send id method params c).1
  request-leaks e h s =
      (unfold request in rw (h, s), unfold request in rw (h, s), request_registers h)
