-- ===== src/JsonRpc/Client/Causes.antt =====
-- What `_handle_message` does: at most one callback is put on the event loop, and nothing else changes.
use Prim.Native.String.{◌++◌ as append}
use copilot_sdk.Prelude.{
  ℕ, String, ◌≡◌, refl, sym, ap, ◌∙◌, ◌⊎◌, inl, inr, true, false, Option, none, some, arith,
  Option-cases, lookup, ok, err, Error, Returns, Returns-bind, if_split, ◌&&◌, is_some,
}
use copilot_sdk.Prelude.Int.{negsuc}
use copilot_sdk.Value.{Value, Fields, null, bool, int, float, str, arr, obj, end, get?, get_or}
use copilot_sdk.JsonRpc.Client.{
  Client, Failure, invalid_response, Callback, set_result, set_exception, notification, send_error,
  dispatch, Python, enqueue, contains, fields_of, get_key, error_of, settle, answer_request,
  handle_request, handle_method, handle_id, handle_answer, handle_other, handle_message,
}

-- The message answers no pending request.
abbrev Unasked : Client → Fields → Type 0
Unasked c fs = (get? "id" fs ≡ none) ⊎ (get_key (get_or "id" null fs) c.pending_requests ≡ ok none)

-- The message is a request: it has an id, which no pending request has, and this method.
abbrev Asks : Client → Fields → Value → Value → Type 0
Asks c fs id method =
    (get? "id" fs ≡ some id)
    × (get? "method" fs ≡ some method)
    × (get_key id c.pending_requests ≡ ok none)
    × (c.has_loop ≡ true)

-- Why a future gets an exception: the message has an error, or neither an error nor a result.
abbrev Fails : Fields → Failure → Type 0
Fails fs e =
    ((error : Value) × (get? "error" fs ≡ some error) × (error_of error ≡ ok e))
    ⊎ (get? "error" fs ≡ none) × (get? "result" fs ≡ none) × (e ≡ invalid_response)

-- Why a message puts a callback on the event loop. A future is settled only through the pending request that
-- has the message's id, by the result if there is one and no error, and else by an exception. The
-- notification handler is called for a message with a method and no id. A request handler is called if it
-- is registered for the method of a request, and an error is sent if none is.
abbrev Caused : Python → Client → Fields → Callback → Type 0
Caused py c fs (set_result f v) =
    (i : String) × (get? "id" fs ≡ some (str i))
    × (lookup i c.pending_requests ≡ some f)
    × (get? "error" fs ≡ none)
    × (get? "result" fs ≡ some v)
Caused py c fs (set_exception f e) =
    (i : String) × (get? "id" fs ≡ some (str i))
    × (lookup i c.pending_requests ≡ some f)
    × Fails fs e
Caused py c fs (notification method params) =
    (get? "id" fs ≡ none)
    × (get? "method" fs ≡ some method)
    × (params ≡ get_or "params" (obj end) fs)
    × ((c.has_notification_handler && c.has_loop) ≡ true)
Caused py c fs (send_error id code text) =
    (method : Value) × Asks c fs id method
    × (get_key method c.request_handlers ≡ ok none)
    × (code ≡ negsuc 32600)
    × (text ≡ append "Method not found: " (py.str_of method))
Caused py c fs (dispatch gs h) =
    (id : Value) × ((method : Value) × Asks c fs id method
      × (get_key method c.request_handlers ≡ ok (some h))
      × (gs ≡ fs))

-- When a message may be ignored: it answers no pending request, and it has no method, or there is no event
-- loop, or it is a notification and no handler is set. What is not a dict can only be ignored.
abbrev Ignorable : Client → Value → Type 0
Ignorable c (obj fs) =
    Unasked c fs
    × ((get? "method" fs ≡ none)
        ⊎ (c.has_loop ≡ false)
        ⊎ (get? "id" fs ≡ none) × ((c.has_notification_handler && c.has_loop) ≡ false))
Ignorable c _ = Unit

-- The state after a message: as before, or with one callback more.
pub data Handled (py : Python) (c : Client) (message : Value) : Client → Type 0 where
  ignored : Ignorable c message → Handled py c message c
  queued :
      (fs : Fields) (cb : Callback)
      → message ≡ obj fs
      → Caused py c fs cb
      → Handled py c message (enqueue cb c)

module _ (py : Python) where
  settle-Handled :
      (fs : Fields) (f : ℕ) (c : Client) (i : String)
      → get? "id" fs ≡ some (str i)
      → lookup i c.pending_requests ≡ some f
      → Returns (Handled py c (obj fs)) (settle fs f c)
  unfolding settle
  settle-Handled fs f c i hi hl = elim (Option-cases (get? "error" fs)) [
    | inr (error, e) ↦
        rw (e, settle)
          (Returns-bind _ (error_of error) _
            λ x read. queued fs (set_exception f x) refl (i, hi, hl, inl (error, e, read)))
    | inl e ↦ elim (Option-cases (get? "result" fs)) [
      | inr (v, r) ↦
          rw (e, settle) (rw (r, settle) (queued fs (set_result f v) refl (i, hi, hl, e, r)))
      | inl r ↦
          rw (e, settle)
            (rw (r, settle)
              (queued fs (set_exception f invalid_response) refl (i, hi, hl, inr (e, r, refl))))
    ]
  ]

  get_or-some : (k : String) (v d : Value) (fs : Fields) → get? k fs ≡ some v → get_or k d fs ≡ v
  get_or-some k v d fs h = ground (arith, h)

  is_some-some :
      (k : String) (fs : Fields) → is_some (get? k fs) ≡ true → (v : Value) × (get? k fs ≡ some v)
  is_some-some k fs h = elim (Option-cases (get? k fs)) [
    | inl e ↦ absurd (let no = sym h ∙ ap is_some e in cc)
    | inr found ↦ found
  ]

  is_some-none : (k : String) (fs : Fields) → is_some (get? k fs) ≡ false → get? k fs ≡ none
  is_some-none k fs h = elim (Option-cases (get? k fs)) [
    | inl e ↦ e
    | inr (v, e) ↦ absurd (let no = sym h ∙ ap is_some e in cc)
  ]

  -- A request of the other side, which answers none of ours
  handle_request-Handled :
      (fs : Fields) (c : Client) (id method : Value)
      → get? "id" fs ≡ some id
      → get? "method" fs ≡ some method
      → get_key id c.pending_requests ≡ ok none
      → Returns (Handled py c (obj fs)) (handle_request py fs c)
  unfolding handle_request answer_request
  handle_request-Handled fs c id method hi hm un =
      Returns-bind _ (get_key (get_or "method" null fs) c.request_handlers) _ λ handler found.
        answered handler (ap (λ m. get_key m c.request_handlers) (sym named) ∙ found)
    where
      named : get_or "method" null fs ≡ method
      named = get_or-some "method" method null fs hm

      unasked : Unasked c fs
      unasked = inr (ap (λ v. get_key v c.pending_requests) (get_or-some "id" id null fs hi) ∙ un)

      answered :
          (handler : Option ℕ)
          → get_key method c.request_handlers ≡ ok handler
          → Handled py c (obj fs) (answer_request py fs c handler)
      answered none found =
          if_split (Handled py c (obj fs)) c.has_loop _ _
            (λ loop. queued fs _ refl (
              method,
              (
                (hi ∙ ap some (sym (get_or-some "id" id null fs hi))),
                hm,
                ap (λ v. get_key v c.pending_requests) (get_or-some "id" id null fs hi) ∙ un,
                loop,
              ),
              found,
              refl,
              ap (λ m. append "Method not found: " (py.str_of m)) named,
            ))
            (λ alone. ignored (unasked, inr (inl alone)))
      answered (some h) found =
          if_split (Handled py c (obj fs)) c.has_loop _ _
            (λ loop. queued fs (dispatch fs h) refl (id, (method, (hi, hm, un, loop), found, refl)))
            (λ alone. ignored (unasked, inr (inl alone)))

  get_key-pending :
      (id : Value) (c : Client) (f : ℕ)
      → get_key id c.pending_requests ≡ ok (some f)
      → (i : String) × (id ≡ str i) × (lookup i c.pending_requests ≡ some f)
  unfolding get_key
  get_key-pending (str i) c f h = (i, refl, cc)
  get_key-pending _ c f h = absurd (cc)

  -- A dict with an id
  handle_id-Handled :
      (fs : Fields) (c : Client) (id : Value)
      → get? "id" fs ≡ some id
      → Returns (Handled py c (obj fs)) (handle_id py (obj fs) c)
  unfolding handle_id handle_answer handle_other handle_method contains
  handle_id-Handled fs c id hi =
      Returns-bind _ (get_key (get_or "id" null fs) c.pending_requests) _
        λ future h. answered future (ap (λ v. get_key v c.pending_requests) (sym named) ∙ h)
    where
      named : get_or "id" null fs ≡ id
      named = get_or-some "id" id null fs hi

      answered :
          (future : Option ℕ)
          → get_key id c.pending_requests ≡ ok future
          → Returns (Handled py c (obj fs)) (handle_answer py fs c future)
      answered (some f) h =
          let (i, is_str, found) = get_key-pending id c f h in
          settle-Handled fs f c i (hi ∙ ap some is_str) found
      answered none h =
          if_split (Returns (Handled py c (obj fs))) (is_some (get? "method" fs)) _ _
            (λ b.
              let (method, hm) = is_some-some "method" fs b in
              handle_request-Handled fs c id method hi hm h)
            (λ b. ignored (
              inr (ap (λ v. get_key v c.pending_requests) named ∙ h),
              inl (is_some-none "method" fs b),
            ))

  -- A dict without an id
  handle_other-Handled :
      (fs : Fields) (c : Client)
      → get? "id" fs ≡ none
      → Returns (Handled py c (obj fs)) (handle_other py (obj fs) false c)
  unfolding handle_other handle_method contains fields_of
  handle_other-Handled fs c hi =
      if_split (Returns (Handled py c (obj fs))) (is_some (get? "method" fs)) _ _
        (λ b.
          let (method, hm) = is_some-some "method" fs b in
          if_split (Returns (Handled py c (obj fs))) (c.has_notification_handler && c.has_loop) _ _
            (λ on.
              queued fs _ refl
                (hi, hm ∙ ap some (sym (get_or-some "method" method null fs hm)), refl, on))
            (λ off. ignored (inl hi, inr (inr (hi, off)))))
        (λ b. ignored (inl hi, inl (is_some-none "method" fs b)))

  -- What is not a dict cannot be indexed.
  handle_message-unread :
      (m : Value) (e : Error) (c : Client)
      → fields_of m ≡ err e
      → Ignorable c m
      → Returns (Handled py c m) (handle_message py m c)
  unfolding handle_message handle_id handle_other handle_method
  handle_message-unread m e c unread may = Returns-bind _ (contains py "id" m) _ λ has_id _.
      if_split (Returns (Handled py c m)) has_id _ _
        (λ _. Returns-bind _ (fields_of m) _ λ fs read. absurd (let no = sym read ∙ unread in cc))
        (λ _. Returns-bind _ (contains py "method" m) _ λ has_method _.
          if_split (Returns (Handled py c m)) has_method _ _
            (λ _.
              if_split (Returns (Handled py c m)) (c.has_notification_handler && c.has_loop) _ _
                (λ _.
                  Returns-bind _ (fields_of m) _
                    λ fs read. absurd (let no = sym read ∙ unread in cc))
                (λ _. ignored may))
            (λ _. ignored may))

-- Every message that is handled without an exception changes at most the queue of the event loop: it puts
-- one callback there that it is the cause of, with the values that the message has, or it is one that may be
-- ignored.
pub handle_message-Handled :
    (py : Python) (m : Value) (c : Client) → Returns (Handled py c m) (handle_message py m c)
unfolding handle_message contains fields_of
handle_message-Handled py (obj fs) c =
    if_split (Returns (Handled py c (obj fs))) (is_some (get? "id" fs)) _ _
      (λ b. let (id, hi) = is_some-some py "id" fs b in handle_id-Handled py fs c id hi)
      (λ b. handle_other-Handled py fs c (is_some-none py "id" fs b))
handle_message-Handled py null c = handle_message-unread py null _ c refl tt
handle_message-Handled py (bool b) c = handle_message-unread py (bool b) _ c refl tt
handle_message-Handled py (int n) c = handle_message-unread py (int n) _ c refl tt
handle_message-Handled py (float s) c = handle_message-unread py (float s) _ c refl tt
handle_message-Handled py (str s) c = handle_message-unread py (str s) _ c refl tt
handle_message-Handled py (arr vs) c = handle_message-unread py (arr vs) _ c refl tt
