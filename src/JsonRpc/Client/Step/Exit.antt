-- ===== src/JsonRpc/Client/Step/Exit.antt =====
-- When the process goes away, no caller is left waiting: `_fail_pending_requests`.
use copilot_sdk.Prelude.{
  ℕ, zero, suc, ◌≡◌, refl, sym, ap, ◌∙◌, ◌⊎◌, inl, inr, true, false, some, List, [], ◌∷◌, ◌++◌,
  arith, if_both, if_split, if_true, if_false, get_elem?, modify, replicate, get_elem?-modify_self,
  Error, err, String, Dict, lookup, length, Bool-cases, str_eq,
}
use mathlib.Core.Path.{subst}
use copilot_sdk.Value.{truthy}
use copilot_sdk.JsonRpc.Client.{
  Client, Future, FutureState, waiting, result, exception, Callback, set_result, set_exception,
  notification, send_error, dispatch, Failure, handle_message,
}
use copilot_sdk.JsonRpc.Client.Request.{
  is_waiting, settle_future, failures, fail_pending_requests, not_done,
}
use copilot_sdk.JsonRpc.Client.Step.{
  World, Event, sends, notifies, finishes, times_out, stops, receives, stream_closes, read_raises,
  loop_runs, reader_ends, reader_fails, handled, receive, run_next, step, run,
}
use copilot_sdk.JsonRpc.Client.Step.Settled.{IsDone, run-settled, futures-reader_ends}

-- The callback settles the future at `f`.
abbrev Settles : ℕ → Callback → Type 0
Settles f (set_result g v) = g ≡ f
Settles f (set_exception g e) = g ≡ f
Settles f _ = ⊥

-- One of the callbacks does.
abbrev WillSettle : ℕ → List Callback → Type 0
WillSettle f [] = ⊥
WillSettle f (cb ∷ q) = Settles f cb ⊎ WillSettle f q

-- There is a future at `f`, and it is done.
abbrev pub DoneAt : ℕ → Client → Type 0
DoneAt f c = (x : Future) × (get_elem? c.futures f ≡ some x) × IsDone x.state

abbrev HasFuture : ℕ → Client → Type 0
HasFuture f c = (x : Future) × (get_elem? c.futures f ≡ some x)

IsDone-settle_future : (s : FutureState) (x : Future) → IsDone s → IsDone (settle_future s x).state
unfolding settle_future
IsDone-settle_future s x d = ground arith

HasFuture-modify :
    (g : Future → Future) (fs : List Future) (i f : ℕ) (x : Future)
    → get_elem? fs f ≡ some x
    → (y : Future) × (get_elem? (modify g fs i) f ≡ some y)
HasFuture-modify g [] i f x h = cc
HasFuture-modify g (y ∷ fs) zero zero x h = (g y, refl)
HasFuture-modify g (y ∷ fs) zero (suc f) x h = (x, h)
HasFuture-modify g (y ∷ fs) (suc i) zero x h = (x, h)
HasFuture-modify g (y ∷ fs) (suc i) (suc f) x h = HasFuture-modify g fs i f x h

WillSettle-append : (f : ℕ) (p q : List Callback) → WillSettle f q → WillSettle f (p ++ q)
WillSettle-append f [] q h = h
WillSettle-append f (cb ∷ p) q h = inr (WillSettle-append f p q h)

failures-WillSettle :
    (e : Failure) (fs : List Future) (d : Dict ℕ) (i : String) (f : ℕ) (x : Future)
    → lookup i d ≡ some f
    → get_elem? fs f ≡ some x
    → x.state ≡ waiting
    → WillSettle f (failures e fs d)
unfolding failures lookup
failures-WillSettle e fs [] i f x hl hx hw = absurd (cc)
failures-WillSettle e fs ((j, g) ∷ d) i f x hl hx hw = elim (Bool-cases (str_eq j i)) [
  | inl same ↦
      let place : g ≡ f = cc (if_true (some g) (lookup i d) same, hl) in
      let open_one : not_done (get_elem? fs g) ≡ true = rw place (rw hx (rw hw)) in
      rw open_one (inl place)
  | inr other ↦
      let rest =
        failures-WillSettle e fs d i f x (sym (if_false (some g) (lookup i d) other) ∙ hl) hx hw in
      if_both (WillSettle f) (not_done (get_elem? fs g)) (inr rest) rest
]

is_waiting-eq : (s : FutureState) → is_waiting s ≡ true → s ≡ waiting
is_waiting-eq s h = ground arith

module _ (w : World) where
  HasFuture-run_next :
      (f : ℕ) (q : List Callback) (c : Client) → HasFuture f c → HasFuture f (run_next w q c)
  unfolding run_next
  HasFuture-run_next f [] c h = h
  HasFuture-run_next f (set_result g v ∷ q) c (x, h) = HasFuture-modify _ c.futures g f x h
  HasFuture-run_next f (set_exception g e ∷ q) c (x, h) = HasFuture-modify _ c.futures g f x h
  HasFuture-run_next f (_ ∷ q) c h = h

  queue-run_next :
      (cb : Callback) (q : List Callback) (c : Client) → (run_next w (cb ∷ q) c).queue ≡ q
  unfolding run_next
  queue-run_next (set_result g v) q c = refl
  queue-run_next _ q c = refl

  Settles-run_next :
      (f : ℕ) (cb : Callback) (q : List Callback) (c : Client)
      → HasFuture f c
      → Settles f cb
      → DoneAt f (run_next w (cb ∷ q) c)
  unfolding run_next
  Settles-run_next f (set_result g v) q c (x, h) e = (
    settle_future (result v) x,
    rw e (get_elem?-modify_self (settle_future (result v)) c.futures f h),
    IsDone-settle_future (result v) x refl,
  )
  Settles-run_next f (set_exception g k) q c (x, h) e = (
    settle_future (exception k) x,
    rw e (get_elem?-modify_self (settle_future (exception k)) c.futures f h),
    IsDone-settle_future (exception k) x refl,
  )
  Settles-run_next f (notification a b) q c h e = absurd e
  Settles-run_next f (send_error a b d) q c h e = absurd e
  Settles-run_next f (dispatch a b) q c h e = absurd e

  -- The event loop runs through its queue.
  drain-settles :
      (f : ℕ) (q : List Callback) (c : Client)
      → c.queue ≡ q
      → HasFuture f c
      → WillSettle f q
      → DoneAt f (run w (replicate (length q) loop_runs) c)
  unfolding run step
  drain-settles f [] c e h s = absurd s
  drain-settles f (cb ∷ q) c e h s =
      let next : step w loop_runs c ≡ run_next w (cb ∷ q) c = ap (λ p. run_next w p c) e in
      subst (λ d. DoneAt f (run w (replicate (length q) loop_runs) d)) (sym next)
        (elim s [
          | inl now ↦
              let (x, hx, d) = Settles-run_next f cb q c h now in
              (x, run-settled w f x (replicate (length q) loop_runs) _ hx d, d)
          | inr later ↦
              drain-settles f q (run_next w (cb ∷ q) c) (queue-run_next cb q c)
                (HasFuture-run_next f (cb ∷ q) c h) later
        ])

  WillSettle-reader_ends :
      (c : Client) (i : String) (f : ℕ) (x : Future)
      → c.running ≡ true
      → lookup i c.pending_requests ≡ some f
      → get_elem? c.futures f ≡ some x
      → x.state ≡ waiting
      → WillSettle f (reader_ends w c).queue
  unfolding reader_ends fail_pending_requests
  WillSettle-reader_ends c i f x r hl hx hw =
      if_split {A = Client} (λ c'. WillSettle f c'.queue) c.running _ _
        (λ _.
          WillSettle-append f c.queue _
            (failures-WillSettle _ c.futures c.pending_requests i f x hl hx hw))
        (λ s. cc)

  reader_ends-settles :
      (c : Client) (i : String) (f : ℕ) (x : Future)
      → c.running ≡ true
      → lookup i c.pending_requests ≡ some f
      → get_elem? c.futures f ≡ some x
      → DoneAt f (run w (replicate (length (reader_ends w c).queue) loop_runs) (reader_ends w c))
  reader_ends-settles c i f x r hl hx =
      let here : get_elem? (reader_ends w c).futures f ≡ some x = rw (futures-reader_ends w c) hx in
      elim (Bool-cases (is_waiting x.state)) [
        | inl open_one ↦
            drain-settles f (reader_ends w c).queue (reader_ends w c) refl (x, here)
              (WillSettle-reader_ends c i f x r hl hx (is_waiting-eq x.state open_one))
        | inr done ↦ (x, run-settled w f x _ (reader_ends w c) here done, done)
      ]

module _ (w : World) where
  -- The events with which the reading thread ends while the client runs: the stream is closed, reading
  -- raises, a message is empty, or the handling of a message raises.
  abbrev EndsReading : Event → Client → Type 0
  EndsReading stream_closes c = Unit
  EndsReading (read_raises m) c = Unit
  EndsReading (receives m) c =
      (truthy m ≡ false) ⊎ (truthy m ≡ true) × ((e : Error) × (handle_message w.python m c ≡ err e))
  EndsReading _ c = ⊥

  reader_fails-settles :
      (m : String) (c : Client) (i : String) (f : ℕ) (x : Future)
      → c.running ≡ true
      → lookup i c.pending_requests ≡ some f
      → get_elem? c.futures f ≡ some x
      → DoneAt f
          (run w (replicate (length (reader_fails w m c).queue) loop_runs) (reader_fails w m c))
  unfolding reader_fails
  reader_fails-settles m c i f x r hl hx =
      subst (λ (z : Client). DoneAt f (run w (replicate (length z.queue) loop_runs) z))
        (sym (ap (reader_ends w) (if_true _ c r)))
        (reader_ends-settles w (record c { process_exit_error = some m }) i f x r hl hx)

  -- When reading ends while the client runs, by a closed stream, an exception in reading or in handling a
  -- message, or an empty message, then each request that is pending has its future done as soon as the
  -- event loop has run through what is queued.
  pub exit-settles :
      (e : Event) (c : Client) (i : String) (f : ℕ) (x : Future)
      → EndsReading e c
      → c.running ≡ true
      → c.reading ≡ true
      → lookup i c.pending_requests ≡ some f
      → get_elem? c.futures f ≡ some x
      → DoneAt f (run w (replicate (length (step w e c).queue) loop_runs) (step w e c))
  unfolding step receive
  exit-settles stream_closes c i f x ends r d hl hx =
      subst (λ (z : Client). DoneAt f (run w (replicate (length z.queue) loop_runs) z))
        (sym (if_true (reader_ends w c) c d)) (reader_ends-settles w c i f x r hl hx)
  exit-settles (read_raises m) c i f x ends r d hl hx =
      subst (λ (z : Client). DoneAt f (run w (replicate (length z.queue) loop_runs) z))
        (sym (if_true (reader_fails w m c) c d)) (reader_fails-settles m c i f x r hl hx)
  exit-settles (receives m) c i f x (inr (full, (e, raised))) r d hl hx =
      subst (λ (z : Client). DoneAt f (run w (replicate (length z.queue) loop_runs) z))
        (sym (if_true _ c d ∙ if_true _ (reader_ends w c) full ∙ ap (handled w c) raised))
        (reader_fails-settles e.message c i f x r hl hx)
  exit-settles (receives m) c i f x (inl ends) r d hl hx =
      subst (λ (z : Client). DoneAt f (run w (replicate (length z.queue) loop_runs) z))
        (sym (if_true _ c d ∙ if_false _ (reader_ends w c) ends))
        (reader_ends-settles w c i f x r hl hx)
  exit-settles (sends a b p) c i f x ends r d hl hx = absurd ends
  exit-settles (notifies a p) c i f x ends r d hl hx = absurd ends
  exit-settles (finishes a) c i f x ends r d hl hx = absurd ends
  exit-settles (times_out a g) c i f x ends r d hl hx = absurd ends
  exit-settles loop_runs c i f x ends r d hl hx = absurd ends
  exit-settles stops c i f x ends r d hl hx = absurd ends
