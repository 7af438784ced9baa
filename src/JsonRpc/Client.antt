-- ===== src/JsonRpc/Client.antt =====
-- The state of `JsonRpcClient` and how the reading thread, the callers of `request` and the event
-- loop change it (python/copilot/jsonrpc.py). A future is its place in the list of those created; a
-- handler is a number; what runs on the event loop waits in a queue.
pub mod Dispatch
pub mod Request
pub mod Causes
pub mod Pending
pub mod Step
use Prim.Native.String.{◌++◌ as append}
use copilot_sdk.Prelude.{
  ℕ, zero, suc, String, Bool, true, false, not, ◌&&◌, Option, none, some, List, [], ◌∷◌, ◌++◌,
  str_eq, if◌then◌else◌, length, get_elem?, modify, Dict, lookup, insert, erase, Result, ok, err,
  Error, raise, type_error, key_error, runtime_error, other_error, ◌>>=◌, is_some,
}
use copilot_sdk.Prelude.Int.{ℤ, pos, negsuc}
use copilot_sdk.Value.{
  Value, Items, Fields, null, bool, int, float, str, arr, obj, get?, get_or, has_field, dict,
  of_dict, nil, cons, end,
}

-- The exceptions that a future is given: JsonRpcError(code, message, data), ProcessExitedError and
-- ValueError("Invalid JSON-RPC response").
pub data Failure : Type 0 where
  rpc_error : Value → Value → Value → Failure
  process_exited : String → Failure
  invalid_response : Failure

pub data FutureState : Type 0 where
  waiting : FutureState
  result : Value → FutureState
  exception : Failure → FutureState
  cancelled : FutureState

-- `owner` is the id of the request that created the future.
pub record Future : Type 0 where
  pub owner : String
  pub state : FutureState

-- What `call_soon_threadsafe` and `run_coroutine_threadsafe` put on the event loop.
pub data Callback : Type 0 where
  set_result : ℕ → Value → Callback
  set_exception : ℕ → Failure → Callback
  notification : Value → Value → Callback
  send_error : Value → ℤ → String → Callback
  dispatch : Fields → ℕ → Callback

pub record Client : Type 0 where
  pub running : Bool
  -- whether `_loop` is set
  pub has_loop : Bool
  -- whether the reading thread is in its loop
  pub reading : Bool
  pub pending_requests : Dict ℕ
  pub futures : List Future
  pub queue : List Callback
  pub has_notification_handler : Bool
  pub request_handlers : Dict ℕ
  pub process_exit_error : Option String
  -- the messages written to the process, and the calls of the notification handler
  pub written : List Value
  pub notified : List (Value × Value)

-- `__init__`
unfoldable pub new : Client
new = record {
  running = false;
  has_loop = false;
  reading = false;
  pending_requests = [];
  futures = [];
  queue = [];
  has_notification_handler = false;
  request_handlers = [];
  process_exit_error = none;
  written = [];
  notified = [];
}

-- `start`
unfoldable pub start : Client → Client
start c = if c.running then c else record c { running = true; has_loop = true; reading = true }

-- `set_notification_handler`
unfoldable pub set_notification_handler : Client → Client
set_notification_handler c = record c { has_notification_handler = true }

-- `set_request_handler`; `none` takes the handler away.
unfoldable pub set_request_handler : String → Option ℕ → Client → Client
set_request_handler method none c = record c { request_handlers = erase method c.request_handlers }
set_request_handler method (some h) c = record c {
  request_handlers = insert method h c.request_handlers;
}

-- `stop`: the flag that ends the loops of the threads.
unfoldable pub stop : Client → Client
stop c = record c { running = false }

-- What the code asks of Python itself: `k in s` for a text, and `str(v)`.
pub record Python : Type 0 where
  pub in_text : String → String → Bool
  pub str_of : Value → String

abbrev item_is : String → Value → Bool
item_is k (str s) = str_eq s k
item_is k _ = false

unfoldable pub has_item : String → Items → Bool
has_item k nil = false
has_item k (cons v vs) = if item_is k v then true else has_item k vs

-- `k in message`
unfoldable pub contains : Python → String → Value → Result Bool
unfolding has_item
contains py k (obj fs) = ok (has_field k fs)
contains py k (arr vs) = ok (has_item k vs)
contains py k (str s) = ok (py.in_text k s)
contains py k _ = raise type_error "argument is not iterable"

-- The fields of a message that is about to be indexed by a text.
unfoldable pub fields_of : Value → Result Fields
fields_of (obj fs) = ok fs
fields_of _ = raise type_error "indices must be integers"

-- `d.get(key)` for a key that need not be a text: a list or a dict is not hashable.
unfoldable pub get_key : Value → Dict ℕ → Result (Option ℕ)
get_key (str k) d = ok (lookup k d)
get_key (arr _) d = raise type_error "unhashable type: 'list'"
get_key (obj _) d = raise type_error "unhashable type: 'dict'"
get_key _ d = ok none

abbrev pub enqueue : Callback → Client → Client
enqueue cb c = record c { queue = c.queue ++ cb ∷ [] }

-- `JsonRpcError(error.get("code", -1), error.get("message", "Unknown error"), error.get("data"))`
unfoldable pub error_of : Value → Result Failure
error_of (obj e) = ok (
    rpc_error (get_or "code" (int (negsuc 0)) e) (get_or "message" (str "Unknown error") e)
      (get_or "data" null e))
error_of _ = raise other_error "object has no attribute 'get'"

-- The answer to a request of ours, given to its future.
unfoldable pub settle : Fields → ℕ → Client → Result Client
settle fs f c = elim (get? "error" fs) [
  | some error ↦ error_of error >>= λ e. ok (enqueue (set_exception f e) c)
  | none ↦ elim (get? "result" fs) [
    | some v ↦ ok (enqueue (set_result f v) c)
    | none ↦ ok (enqueue (set_exception f invalid_response) c)
  ]
]

-- What `_handle_request` does with the handler found, if there is an event loop.
unfoldable pub answer_request : Python → Fields → Client → Option ℕ → Client
answer_request py fs c none =
    if c.has_loop
    then enqueue
        (send_error (get_or "id" null fs) (negsuc 32600)
          (append "Method not found: " (py.str_of (get_or "method" null fs))))
        c
    else c
answer_request py fs c (some h) = if c.has_loop then enqueue (dispatch fs h) c else c

-- `_handle_request`
unfoldable pub handle_request : Python → Fields → Client → Result Client
handle_request py fs c = do
  handler ← get_key (get_or "method" null fs) c.request_handlers
  ok (answer_request py fs c handler)

-- A message with a method that answers no request of ours: a notification, or else a request.
unfoldable pub handle_method : Python → Value → Bool → Client → Result Client
unfolding fields_of
handle_method py message true c = do fs ← fields_of message; handle_request py fs c
handle_method py message false c =
    if c.has_notification_handler && c.has_loop
    then (do
      fs ← fields_of message
      ok (enqueue (notification (get_or "method" null fs) (get_or "params" (obj end) fs)) c))
    else ok c

-- The part of `_handle_message` behind the answers to our requests.
unfoldable pub handle_other : Python → Value → Bool → Client → Result Client
handle_other py message has_id c = do
  has_method ← contains py "method" message
  if has_method then handle_method py message has_id c else ok c

-- The future that is found for the id of a message, if any.
unfoldable pub handle_answer : Python → Fields → Client → Option ℕ → Result Client
handle_answer py fs c (some f) = settle fs f c
handle_answer py fs c none = handle_other py (obj fs) true c

-- The part of `_handle_message` for a message with an id.
unfoldable pub handle_id : Python → Value → Client → Result Client
unfolding fields_of
handle_id py message c = do
  fs ← fields_of message
  future ← get_key (get_or "id" null fs) c.pending_requests
  handle_answer py fs c future

-- `_handle_message`; an exception ends the loop of the reading thread.
unfoldable pub handle_message : Python → Value → Client → Result Client
handle_message py message c = do
  has_id ← contains py "id" message
  if has_id then handle_id py message c else handle_other py message false c
