-- ===== src/CopilotClient/Lifecycle/Notified.antt =====
-- Which handlers a lifecycle event and a session event reach.
use mathlib.Core.List.{Perm}
use copilot_sdk.Prelude.{
  sym, subst, Result, err, Option, Returns, Returns-bind, ℕ, String, ◌≡◌, refl, ap, ap₂, ◌∙◌, none,
  some, List, [], ◌∷◌, ◌++◌, lookup, Result, ok, ◌>>=◌,
}
use copilot_sdk.Value.{Value, Fields, obj, str}
use copilot_sdk.Session.{Session}
use copilot_sdk.Session.Events.{Calls, dispatch_event, dispatch_event-all}
use copilot_sdk.Session.Waiting.{item}
use copilot_sdk.CopilotClient.State.{Client}
use copilot_sdk.CopilotClient.Lifecycle.{
  session_event, session_of, handle_notification, deliver, LifecycleEvent, LifecycleCalls,
  typed_handlers, call_each, handlers_for, with_handlers, dispatch_lifecycle_event,
}

call_each-all :
    (call : LifecycleCalls) (event : LifecycleEvent) (hs : List ℕ) (c : Client)
    → (call_each call event hs c).0 ≡ hs
unfolding call_each
call_each-all call event [] c = refl
call_each-all call event (h ∷ hs) c =
    ap (λ t. h ∷ t) (call_each-all call event hs (call h event c).1)

-- A lifecycle event whose type is a text reaches the handlers of that type and then the handlers of all
-- events, each in the order of subscription, exactly those that were registered when it arrived, also
-- when handlers raise, and when they subscribe and unsubscribe meanwhile.
pub dispatch_lifecycle_event-all :
    (call : LifecycleCalls) (event : LifecycleEvent) (t : String) (c : Client)
    → event.type ≡ str t
    → (dispatch_lifecycle_event call event c).0 ≡ ok (typed_handlers t c ++ c.lifecycle_handlers)
unfolding dispatch_lifecycle_event handlers_for
dispatch_lifecycle_event-all call event t c e =
    let typed = typed_handlers t c in
    ap (λ v. (with_handlers call event (handlers_for v c) c).0) e
    ∙ ap₂ (λ a b. ok (a ++ b)) (call_each-all call event typed c)
        (call_each-all call event c.lifecycle_handlers (call_each call event typed c).1)

-- The session that the client lists under a value, which has to be a text.
abbrev IsListed : Value → Client → Session → Type 0
IsListed v c s = (id : String) × (v ≡ str id) × (lookup id c.sessions ≡ some s)

-- The outcome of the notification of a session event: the handlers called and the client, or an exception.
abbrev pub IsDelivered : Fields → Client → Result (List ℕ) × Client → Type 0
IsDelivered params c (err e, after) = after ≡ c
IsDelivered params c (ok called, after) =
    (v : Value) × (item "sessionId" (obj params) ≡ ok v)
    × ((s : Session) → IsListed v c s → Perm called s.event_handlers)
    × (((s : Session) → ¬ (IsListed v c s)) → (called ≡ []) × (after ≡ c))

session_of-listed :
    (v : Value) (c : Client) (o : Option Session)
    → session_of v c ≡ ok o
    → (s : Session) → IsListed v c s
    → o ≡ some s
unfolding session_of
session_of-listed v c o e s (id, text, found) =
    ok_eq (sym e ∙ ap (λ x. session_of x c) text ∙ ap ok found)
  where
    ok_eq : {a b : Option Session} → ok a ≡ ok b → a ≡ b
    ok_eq e = cc

session_of-some :
    (v : Value) (c : Client) (s : Session) → session_of v c ≡ ok (some s) → IsListed v c s
unfolding session_of
session_of-some (str id) c s e = (id, refl, cc)
session_of-some _ c s e = absurd (cc)

module _ {E : Type 0} (parse : Value → Result E) (order : List ℕ → List ℕ) (call : Calls E Client)
    (lifecycle : LifecycleCalls) where
  session_event-found :
      (params : Fields) (c : Client)
      → Returns
          (λ r. (v : Value) × (item "sessionId" (obj params) ≡ ok v) × (session_of v c ≡ ok r.1))
          (session_event parse order call params c)
  unfolding session_event
  session_event-found params c = Returns-bind _ (item "sessionId" (obj params)) _ λ id known.
      Returns-bind _ (item "event" (obj params)) _ λ v _.
        Returns-bind _ (parse v) _
          λ event _. Returns-bind _ (session_of id c) _ λ s found. (id, known, found)

  deliver-IsDelivered :
      ((hs : List ℕ) → Perm (order hs) hs)
      → (params : Fields) (c : Client) (r : Result (E × Option Session))
      → Returns
          (λ z. (v : Value) × (item "sessionId" (obj params) ≡ ok v) × (session_of v c ≡ ok z.1))
          r
      → IsDelivered params c (deliver parse order call r c)
  deliver-IsDelivered lists params c (err e) h = refl
  deliver-IsDelivered lists params c (ok (event, none)) (v, known, found) = (
    v,
    known,
    λ s listed. absurd (let same = session_of-listed v c none found s listed in cc),
    λ unlisted. (refl, refl),
  )
  deliver-IsDelivered lists params c (ok (event, some s)) (v, known, found) = (
    v,
    known,
    λ z listed.
        let same = session_of-listed v c (some s) found z listed in
        subst (λ (hs : List ℕ). Perm (dispatch_event order call event s c).0 hs)
          (ap (λ (y : Session). y.event_handlers) (some_eq same))
          (dispatch_event-all order call event s c lists),
    λ unlisted. absurd (unlisted s (session_of-some v c s found)),
  )
    where
      some_eq : {a b : Session} → some a ≡ some b → a ≡ b
      some_eq e = cc

  -- The notification of a session event, whatever its parameters are and whatever handlers do, if Python
  -- lists a set without loss: when it returns, the handlers called are exactly those of the session that was
  -- listed under the sessionId of the parameters, each as often as it was registered with it; if there was no
  -- such session, none is called and the client stays as it is. When it raises, no handler has been called
  -- and the client is unchanged.
  pub handle_notification-IsDelivered :
      ((hs : List ℕ) → Perm (order hs) hs)
      → (params : Fields) (c : Client)
      → IsDelivered params c
          (handle_notification parse order call lifecycle "session.event" params c)
  unfolding handle_notification
  handle_notification-IsDelivered lists params c =
      deliver-IsDelivered lists params c (session_event parse order call params c)
        (session_event-found params c)

  session_event-eq :
      (params : Fields) (c : Client) (id : String) (v : Value) (event : E)
      → item "sessionId" (obj params) ≡ ok (str id)
      → item "event" (obj params) ≡ ok v
      → parse v ≡ ok event
      → session_event parse order call params c ≡ ok (event, lookup id c.sessions)
  unfolding session_event session_of
  session_event-eq params c id v event i e p =
      ap₂ (λ a b. a >>= λ x. b >>= λ y. parse y >>= λ z. session_of x c >>= λ s. ok (z, s)) i e
      ∙ ap (λ r. r >>= λ z. ok (z, lookup id c.sessions)) p

  -- A session event that can be parsed, for a session that the client lists, is dispatched to that session.
  pub handle_notification-event :
      (params : Fields) (c : Client) (id : String) (v : Value) (event : E) (s : Session)
      → item "sessionId" (obj params) ≡ ok (str id)
      → item "event" (obj params) ≡ ok v
      → parse v ≡ ok event
      → lookup id c.sessions ≡ some s
      → let r = dispatch_event order call event s c in
        handle_notification parse order call lifecycle "session.event" params c ≡ (ok r.0, r.1)
  unfolding handle_notification
  handle_notification-event params c id v event s i e p l =
      ap (λ r. deliver parse order call r c)
        (session_event-eq params c id v event i e p ∙ ap (λ o. ok (event, o)) l)
