-- ===== src/JsonRpc/Client/Dispatch.antt =====
-- Answering the other side's requests: `_dispatch_request`, `_send_response` and
-- `_send_error_response` of python/copilot/jsonrpc.py. Writing a message may raise.
use copilot_sdk.Prelude.{
  String, ◌≡◌, refl, Option, none, some, List, [], ◌∷◌, Error, inl, inr, ◌⊎◌, ◌≢◌,
}
use copilot_sdk.Prelude.Int.{ℤ, negsuc}
use copilot_sdk.Value.{Value, Fields, null, int, str, obj, end, dict, of_dict, get?}

-- How the call of a request handler ends, awaited if need be.
pub data Outcome : Type 0 where
  returned : Value → Outcome
  -- JsonRpcError(code, message, data)
  raised_rpc : ℤ → String → Value → Outcome
  raised : Error → Outcome

-- The message of `_send_response`
unfoldable pub response : Value → Fields → Value
response id outcome = dict (("jsonrpc", str "2.0") ∷ ("id", id) ∷ ("result", obj outcome) ∷ [])

-- The message of `_send_error_response`
unfoldable pub error_response : Value → ℤ → String → Value → Value
error_response id code message info = dict (
    ("jsonrpc", str "2.0")
    ∷ ("id", id)
    ∷ ("error", dict (("code", int code) ∷ ("message", str message) ∷ ("data", info) ∷ []))
    ∷ [])

-- What the write of a message raises, if anything.
abbrev pub Transport : Type 0
Transport = Value → Option Error

abbrev written_unless : Option Error → Value → List Value
written_unless none m = m ∷ []
written_unless (some e) m = []

-- The messages that a write leaves on the pipe.
abbrev pub send_message : Transport → Value → List Value
send_message send m = written_unless (send m) m

abbrev pub internal_error : ℤ
internal_error = negsuc 32602

-- `await self._send_response(...)` inside the `try`: what it raises is answered by an error response.
abbrev respond : Transport → Value → Value → Option Error → List Value
respond send id m none = m ∷ []
respond send id m (some e) = send_message send (error_response id internal_error e.message null)

-- The messages that `_dispatch_request` writes.
unfoldable pub dispatch_request : Transport → Value → Outcome → List Value
unfolding response error_response
dispatch_request send id (returned null) = let m = response id end in respond send id m (send m)
dispatch_request send id (returned (obj outcome)) =
    let m = response id outcome in respond send id m (send m)
dispatch_request send id (returned _) =
    send_message send (error_response id internal_error "Request handler must return a dict" null)
dispatch_request send id (raised_rpc code message info) =
    send_message send (error_response id code message info)
dispatch_request send id (raised e) =
    send_message send (error_response id internal_error e.message null)

-- The transport takes every error response to the request `id`.
abbrev pub TakesErrors : Transport → Value → Type 0
TakesErrors send id =
    (code : ℤ) (message : String) (info : Value) → send (error_response id code message info) ≡ none

-- One response to the request `id`, with a result or with an error and not with both.
pub record IsResponse (id : Value) (fs : Fields) : Type 0 where
  pub for_request : get? "id" fs ≡ some id
  pub result_or_error :
      ((get? "result" fs ≢ none) × (get? "error" fs ≡ none))
      ⊎ ((get? "result" fs ≡ none) × (get? "error" fs ≢ none))

abbrev pub SentOne : Value → List Value → Type 0
SentOne id ms = (fs : Fields) × (ms ≡ obj fs ∷ []) × IsResponse id fs

response-sent : (id : Value) (outcome : Fields) → SentOne id (response id outcome ∷ [])
unfolding response of_dict get?
response-sent id outcome =
    (_, refl, record { for_request = refl; result_or_error = inl ((λ h. cc), refl) })

error-sent :
    (send : Transport) (id : Value) (code : ℤ) (message : String) (info : Value)
    → TakesErrors send id
    → SentOne id (send_message send (error_response id code message info))
unfolding error_response of_dict get?
error-sent send id code message info takes =
    rw (takes code message info)
      (_, refl, record { for_request = refl; result_or_error = inr (refl, λ h. cc) })

respond-sent :
    (send : Transport) (id : Value) (outcome : Fields) (o : Option Error)
    → TakesErrors send id
    → SentOne id (respond send id (response id outcome) o)
respond-sent send id outcome none takes = response-sent id outcome
respond-sent send id outcome (some e) takes = error-sent send id internal_error e.message null takes

-- However the handler of a request ends, and also if its result cannot be written, exactly one response
-- with the request's id is written, when the transport takes error responses.
pub dispatch_request-one :
    (send : Transport) (id : Value) (outcome : Outcome)
    → TakesErrors send id
    → SentOne id (dispatch_request send id outcome)
unfolding dispatch_request
dispatch_request-one send id (returned null) takes = respond-sent send id end _ takes
dispatch_request-one send id (returned (obj fs)) takes = respond-sent send id fs _ takes
dispatch_request-one send id (raised_rpc code message info) takes =
    error-sent send id code message info takes
dispatch_request-one send id (raised e) takes =
    error-sent send id internal_error e.message null takes
dispatch_request-one send id (returned _) takes =
    error-sent send id internal_error "Request handler must return a dict" null takes
