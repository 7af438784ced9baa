-- ===== src/JsonRpc/Client/Step/Settled.antt =====
-- A future is settled once: no later step changes what a caller of `request` was given.
use copilot_sdk.Prelude.{
  ℕ, ◌≡◌, refl, false, some, List, [], ◌∷◌, arith, Bool-cases, inl, inr, if_both, get_elem?, modify,
  get_elem?-append_left, get_elem?-modify_fixed, Result, ok, err, Returns, String,
}
use copilot_sdk.Value.{Value, Fields, truthy}
use copilot_sdk.JsonRpc.Client.{
  Client, Future, FutureState, result, exception, cancelled, Callback, set_result, set_exception,
  handle_message, stop, Python,
}
use copilot_sdk.JsonRpc.Client.Causes.{Handled, ignored, queued, handle_message-Handled}
use copilot_sdk.JsonRpc.Client.Request.{
  is_waiting, request, notify, finish_request, settle_future, time_out, fail_pending_requests,
}
use copilot_sdk.JsonRpc.Client.Step.{
  World, Event, sends, notifies, finishes, times_out, receives, stream_closes, read_raises,
  loop_runs, stops, reader_ends, reader_fails, handled, receive, run_next, step, run,
}

abbrev pub IsDone : FutureState → Type 0
IsDone s = is_waiting s ≡ false

settle_future-done : (s : FutureState) (x : Future) → IsDone x.state → settle_future s x ≡ x
unfolding settle_future
settle_future-done s x d = ground arith

module _ (w : World) where
  pub futures-reader_ends : (c : Client) → (reader_ends w c).futures ≡ c.futures
  unfolding reader_ends fail_pending_requests
  futures-reader_ends c = ground arith

  pub futures-reader_fails : (m : String) (c : Client) → (reader_fails w m c).futures ≡ c.futures
  unfolding reader_fails
  futures-reader_fails m c = elim (Bool-cases c.running) [
    | inl b ↦ rw b (futures-reader_ends _)
    | inr b ↦ rw b (futures-reader_ends _)
  ]

  futures-Handled :
      {py : Python} {c c' : Client} {m : Value} → Handled py c m c' → c'.futures ≡ c.futures
  futures-Handled (ignored may) = refl
  futures-Handled (queued fs cb e h) = refl

  futures-handled :
      (c : Client) (m : Value) (r : Result Client)
      → Returns (Handled w.python c m) r
      → (handled w c r).futures ≡ c.futures
  futures-handled c m (err e) h = futures-reader_fails e.message c
  futures-handled c m (ok c') h = elim (Bool-cases c'.running) [
    | inl b ↦ rw b (futures-Handled h)
    | inr b ↦ rw b (futures-Handled h)
  ]

  futures-receive : (m : Value) (c : Client) → (receive w m c).futures ≡ c.futures
  unfolding receive
  futures-receive m c =
      let Same : Client → Type 0 = λ c'. c'.futures ≡ c.futures in
      if_both Same c.reading
        (if_both Same (truthy m)
          (futures-handled c m (handle_message w.python m c) (handle_message-Handled w.python m c))
          (futures-reader_ends c))
        refl

  Settled-modify :
      (f g : ℕ) (x : Future) (s : FutureState) (fs : List Future)
      → get_elem? fs f ≡ some x
      → IsDone x.state
      → get_elem? (modify (settle_future s) fs g) f ≡ some x
  Settled-modify f g x s fs h d =
      get_elem?-modify_fixed (settle_future s) fs g f (settle_future-done s x d) h

  Settled-run_next :
      (f : ℕ) (x : Future) (q : List Callback) (c : Client)
      → get_elem? c.futures f ≡ some x
      → IsDone x.state
      → get_elem? (run_next w q c).futures f ≡ some x
  unfolding run_next
  Settled-run_next f x [] c h d = h
  Settled-run_next f x (set_result g v ∷ q) c h d = Settled-modify f g x (result v) c.futures h d
  Settled-run_next f x (set_exception g e ∷ q) c h d =
      Settled-modify f g x (exception e) c.futures h d
  Settled-run_next f x (_ ∷ q) c h d = h

  Settled-request :
      (f : ℕ) (x : Future) (id method : String) (params : Fields) (c : Client)
      → get_elem? c.futures f ≡ some x
      → get_elem? (request w.send id method params c).1.futures f ≡ some x
  unfolding request
  Settled-request f x id method params c h = elim (Bool-cases c.has_loop) [
    | inl b ↦ rw b (get_elem?-append_left c.futures _ f h)
    | inr b ↦ rw b h
  ]

  pub Settled-step :
      (f : ℕ) (x : Future) (e : Event) (c : Client)
      → get_elem? c.futures f ≡ some x
      → IsDone x.state
      → get_elem? (step w e c).futures f ≡ some x
  unfolding step
  Settled-step f x (sends id method params) c h d = Settled-request f x id method params c h
  Settled-step f x (notifies method params) c h d = unfold notify in h
  Settled-step f x (finishes id) c h d = unfold finish_request in h
  Settled-step f x (times_out id g) c h d =
      unfold time_out in Settled-modify f g x cancelled c.futures h d
  Settled-step f x (receives m) c h d = rw (futures-receive m c) h
  Settled-step f x stream_closes c h d =
      if_both {A = Client} (λ c'. get_elem? c'.futures f ≡ some x) c.reading
        (rw (futures-reader_ends c) h) h
  Settled-step f x (read_raises m) c h d =
      if_both {A = Client} (λ c'. get_elem? c'.futures f ≡ some x) c.reading
        (rw (futures-reader_fails m c) h) h
  Settled-step f x loop_runs c h d = Settled-run_next f x c.queue c h d
  Settled-step f x stops c h d = unfold stop in h

  -- A future that has a result, an exception or was cancelled keeps it, whatever messages, timeouts,
  -- exits and callbacks follow, in any order: the first answer counts.
  pub run-settled :
      (f : ℕ) (x : Future) (es : List Event) (c : Client)
      → get_elem? c.futures f ≡ some x
      → IsDone x.state
      → get_elem? (run w es c).futures f ≡ some x
  unfolding run
  run-settled f x [] c h d = h
  run-settled f x (e ∷ es) c h d = run-settled f x es (step w e c) (Settled-step f x e c h d) d
