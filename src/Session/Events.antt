-- ===== src/Session/Events.antt =====
-- Subscribing to the events of a session, and their dispatch: `on` and `_dispatch_event` of
-- python/copilot/session.py.
use mathlib.Core.Path.{sym, subst}
use mathlib.Core.List.{Perm}
use copilot_sdk.Prelude.{
  ℕ, ◌≡◌, refl, Bool, true, false, List, [], ◌∷◌, ◌++◌, ◌==◌, if◌then◌else◌, arith, Result, ap,
}
use copilot_sdk.Session.{Session}

-- `h in handlers`
unfoldable pub contains : ℕ → List ℕ → Bool
contains h [] = false
contains h (g ∷ gs) = let rest = contains h gs in if g == h then true else rest

-- `handlers.add(h)` on a set
unfoldable pub add : ℕ → List ℕ → List ℕ
add h gs = if contains h gs then gs else gs ++ h ∷ []

-- `handlers.discard(h)` on a set
unfoldable pub discard : ℕ → List ℕ → List ℕ
discard h [] = []
discard h (g ∷ gs) = let rest = discard h gs in if g == h then rest else g ∷ rest

-- `on`
unfoldable pub subscribe : ℕ → Session → Session
subscribe h s = record s { event_handlers = add h s.event_handlers }

-- The function that `on` returns.
unfoldable pub unsubscribe : ℕ → Session → Session
unsubscribe h s = record s { event_handlers = discard h s.event_handlers }

-- What a call of a handler does: it may raise, and it may change whatever state `W` the application can
-- reach, with this session and others in it.
abbrev pub Calls : Type 0 → Type 0 → Type 0
Calls E W = ℕ → E → W → Result (Unit {0}) × W

-- The loop of `_dispatch_event` over the handlers that it has copied, with a trace of the calls. An
-- exception of a handler is printed, and the loop goes on.
unfoldable pub call_all : {E W : Type 0} → Calls E W → E → List ℕ → W → List ℕ × W
call_all call event [] w = ([], w)
call_all call event (h ∷ hs) w =
    let rest = call_all call event hs (call h event w).1 in (h ∷ rest.0, rest.1)

-- `_dispatch_event` of a session that stands in a state. `order` is the order in which Python lists the set.
unfoldable pub dispatch_event :
    {E W : Type 0} → (List ℕ → List ℕ) → Calls E W → E → Session → W → List ℕ × W
unfolding call_all
dispatch_event order call event s w = call_all call event (order s.event_handlers) w

call_all-all :
    {E W : Type 0} (call : Calls E W) (event : E) (hs : List ℕ) (w : W)
    → (call_all call event hs w).0 ≡ hs
unfolding call_all
call_all-all call event [] w = refl
call_all-all call event (h ∷ hs) w = ap (λ t. h ∷ t) (call_all-all call event hs (call h event w).1)

-- Every handler that is registered when the event arrives is called exactly as often as it stands in
-- the set, whether handlers raise and whatever they change meanwhile, their own session included, and no
-- other handler is called, if Python lists a set without loss.
pub dispatch_event-all :
    {E W : Type 0} (order : List ℕ → List ℕ) (call : Calls E W) (event : E) (s : Session) (w : W)
    → ((hs : List ℕ) → Perm (order hs) hs)
    → Perm (dispatch_event order call event s w).0 s.event_handlers
unfolding dispatch_event
dispatch_event-all order call event s w lists =
    subst (λ hs. Perm hs s.event_handlers)
      (sym (call_all-all call event (order s.event_handlers) w)) (lists s.event_handlers)

pub contains-discard :
    (h g : ℕ) (gs : List ℕ) → contains g (discard h gs) ≡ (if h == g then false else contains g gs)
unfolding contains discard
contains-discard h g [] = ground arith
contains-discard h g (k ∷ gs) = ground (arith, contains-discard h g gs)

discard-absent : (h : ℕ) (gs : List ℕ) → contains h gs ≡ false → discard h gs ≡ gs
unfolding contains discard
discard-absent h [] e = refl
discard-absent h (g ∷ gs) e = ground (arith, discard-absent h gs)

discard-append : (h : ℕ) (gs : List ℕ) → contains h gs ≡ false → discard h (gs ++ h ∷ []) ≡ gs
unfolding contains discard
discard-append h [] e = ground arith
discard-append h (g ∷ gs) e = ground (arith, discard-append h gs)

-- The function that `on` returns undoes the subscription of a handler that was not registered before.
pub unsubscribe-subscribe :
    (h : ℕ) (s : Session) → contains h s.event_handlers ≡ false → unsubscribe h (subscribe h s) ≡ s
unfolding subscribe unsubscribe add
unsubscribe-subscribe h s e =
    let back : discard h (add h s.event_handlers) ≡ s.event_handlers =
      rw e (discard-append h s.event_handlers e) in
    λ i. record s { event_handlers = back i }
