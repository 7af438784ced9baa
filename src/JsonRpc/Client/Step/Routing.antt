-- ===== src/JsonRpc/Client/Step/Routing.antt =====
-- Answers reach the requests that they answer: a future has a result only if a message with the id of
-- its request and that result was received.
use copilot_sdk.Prelude.{
  ℕ, ◌≡◌, ◌⊎◌, none, some, List, [], ◌∷◌, ◌++◌, inl, inr, if_both, get_elem?, get_elem?-append_end,
  get_elem?-append_one, Result, ok, err, Returns, length, String, All-append, Dict, lookup, insert,
  lookup-insert_cases, lookup-erase-some, lookup-nil,
}
use mathlib.Core.Path.{subst}
use copilot_sdk.Value.{Value, Fields, str, obj, get?, truthy}
use copilot_sdk.JsonRpc.Client.{
  Client, Future, waiting, result, cancelled, set_result, set_exception, notification, send_error,
  dispatch, handle_message, stop, new, start, Failure, Python,
}
use copilot_sdk.JsonRpc.Client.Causes.{Handled, ignored, queued, handle_message-Handled}
use copilot_sdk.JsonRpc.Client.Request.{
  request, notify, finish_request, time_out, fail_pending_requests, failures, not_done,
}
use copilot_sdk.JsonRpc.Client.Step.{
  World, Event, sends, notifies, finishes, times_out, receives, stream_closes, read_raises,
  loop_runs, stops, reader_ends, reader_fails, handled, receive, step, run,
}
use copilot_sdk.JsonRpc.Client.Step.Owning.{
  Owns, Owns-append, Routed, Queued, Queued-grows, Inv, Inv-settle, Inv-run_next,
}

-- The message answers the request `i` with the result `v`.
abbrev pub Answers : String → Value → Event → Type 0
Answers i v (receives m) =
    (fs : Fields) × (m ≡ obj fs)
    × (get? "id" fs ≡ some (str i))
    × (get? "error" fs ≡ none)
    × (get? "result" fs ≡ some v)
Answers i v _ = ⊥

-- One of the events does.
abbrev pub Answered : String → Value → List Event → Type 0
Answered i v [] = ⊥
Answered i v (e ∷ es) = Answers i v e ⊎ Answered i v es

module _ (P : String → Value → Type 0) where
  failures-Queued : (e : Failure) (fs gs : List Future) (d : Dict ℕ) → Queued P gs (failures e fs d)
  unfolding failures
  failures-Queued e fs gs [] = tt
  failures-Queued e fs gs ((k, f) ∷ d) =
      if_both (Queued P gs) (not_done (get_elem? fs f)) (tt, failures-Queued e fs gs d)
        (failures-Queued e fs gs d)

  Inv-reader_ends : (w : World) (c : Client) → Inv P c → Inv P (reader_ends w c)
  unfolding reader_ends
  Inv-reader_ends w c inv =
      if_both (Inv P) c.running
        (unfold fail_pending_requests in
          record {
            owners = inv.owners;
            routed =
                All-append (Routed P c.futures) c.queue _ inv.routed
                  (failures-Queued _ c.futures c.futures c.pending_requests);
            results = inv.results;
          })
        (record { owners = inv.owners; routed = inv.routed; results = inv.results })

  Inv-reader_fails : (w : World) (m : String) (c : Client) → Inv P c → Inv P (reader_fails w m c)
  unfolding reader_fails
  Inv-reader_fails w m c inv = Inv-reader_ends w _ (
      if_both (Inv P) c.running
        (record { owners = inv.owners; routed = inv.routed; results = inv.results }) inv)

  Inv-Handled :
      {py : Python} (c c' : Client) (m : Value)
      → Inv P c
      → ((i : String) (v : Value) → Answers i v (receives m) → P i v)
      → Handled py c m c'
      → Inv P c'
  Inv-Handled c c' m inv seen (ignored may) = inv
  Inv-Handled c c' m inv seen (queued fs (set_result f v) e (i, hi, hl, he, hr)) = record {
    owners = inv.owners;
    routed =
        All-append (Routed P c.futures) c.queue _ inv.routed
          ((i, inv.owners i f hl, seen i v (fs, e, hi, he, hr)), tt);
    results = inv.results;
  }
  Inv-Handled c c' m inv seen (queued fs (set_exception f x) e h) = record {
    owners = inv.owners;
    routed = All-append (Routed P c.futures) c.queue _ inv.routed (tt, tt);
    results = inv.results;
  }
  Inv-Handled c c' m inv seen (queued fs (notification a b) e h) = record {
    owners = inv.owners;
    routed = All-append (Routed P c.futures) c.queue _ inv.routed (tt, tt);
    results = inv.results;
  }
  Inv-Handled c c' m inv seen (queued fs (send_error a b d) e h) = record {
    owners = inv.owners;
    routed = All-append (Routed P c.futures) c.queue _ inv.routed (tt, tt);
    results = inv.results;
  }
  Inv-Handled c c' m inv seen (queued fs (dispatch a b) e h) = record {
    owners = inv.owners;
    routed = All-append (Routed P c.futures) c.queue _ inv.routed (tt, tt);
    results = inv.results;
  }

  Inv-handled :
      (w : World) (c : Client) (m : Value) (r : Result Client)
      → Inv P c
      → ((i : String) (v : Value) → Answers i v (receives m) → P i v)
      → Returns (Handled w.python c m) r
      → Inv P (handled w c r)
  Inv-handled w c m (err e) inv seen h = Inv-reader_fails w e.message c inv
  Inv-handled w c m (ok c') inv seen h =
      let kept = Inv-Handled c c' m inv seen h in
      if_both (Inv P) c'.running kept
        (record { owners = kept.owners; routed = kept.routed; results = kept.results })

  Inv-receive :
      (w : World) (m : Value) (c : Client)
      → Inv P c
      → ((i : String) (v : Value) → Answers i v (receives m) → P i v)
      → Inv P (receive w m c)
  unfolding receive
  Inv-receive w m c inv seen =
      if_both (Inv P) c.reading
        (if_both (Inv P) (truthy m)
          (Inv-handled w c m (handle_message w.python m c) inv seen
            (handle_message-Handled w.python m c))
          (Inv-reader_ends w c inv))
        inv

  owners-insert :
      (id : String) (c : Client)
      → Inv P c
      → (i : String) (f : ℕ) → lookup i (insert id (length c.futures) c.pending_requests) ≡ some f
      → Owns (c.futures ++ (record { owner = id; state = waiting }) ∷ []) i f
  owners-insert id c inv i f h =
      let x : Future = record { owner = id; state = waiting } in
      elim (lookup-insert_cases id i (length c.futures) c.pending_requests h) [
        | inl (same, place) ↦ (
          x,
          subst (λ n. get_elem? (c.futures ++ x ∷ []) n ≡ some x) place
              (get_elem?-append_end c.futures x),
          same,
        )
        | inr old ↦ Owns-append c.futures _ i f (inv.owners i f old)
      ]

  Inv-request :
      (w : World) (id method : String) (params : Fields) (c : Client)
      → Inv P c
      → Inv P (request w.send id method params c).1
  unfolding request
  Inv-request w id method params c inv =
      if_both (λ (r : Result ℕ × Client). Inv P r.1) c.has_loop
        (record {
          owners = owners-insert id c inv;
          routed = Queued-grows P c.futures _ c.queue (Owns-append c.futures _) inv.routed;
          results = λ f x v h e. elim (get_elem?-append_one c.futures _ f h) [
            | inl k ↦ inv.results f x v k e
            | inr k ↦ absurd (cc (k, e))
          ];
        })
        inv

  Inv-finish : (id : String) (c : Client) → Inv P c → Inv P (finish_request id c)
  unfolding finish_request
  Inv-finish id c inv = record {
    owners = λ i f h. inv.owners i f (lookup-erase-some id i c.pending_requests h);
    routed = inv.routed;
    results = inv.results;
  }

  Inv-step :
      (w : World) (e : Event) (c : Client)
      → ((i : String) (v : Value) → Answers i v e → P i v)
      → Inv P c
      → Inv P (step w e c)
  unfolding step
  Inv-step w (sends id method params) c seen inv = Inv-request w id method params c inv
  Inv-step w (notifies method params) c seen inv =
      unfold notify in record { owners = inv.owners; routed = inv.routed; results = inv.results }
  Inv-step w (finishes id) c seen inv = Inv-finish id c inv
  Inv-step w (times_out id f) c seen inv =
      unfold time_out in
      Inv-finish id _ (Inv-settle P cancelled f c c.queue inv inv.routed (λ u k. absurd (cc)))
  Inv-step w (receives m) c seen inv = Inv-receive w m c inv seen
  Inv-step w stream_closes c seen inv = if_both (Inv P) c.reading (Inv-reader_ends w c inv) inv
  Inv-step w (read_raises m) c seen inv = if_both (Inv P) c.reading (Inv-reader_fails w m c inv) inv
  Inv-step w loop_runs c seen inv = Inv-run_next P w c.queue c inv inv.routed
  Inv-step w stops c seen inv =
      unfold stop in record { owners = inv.owners; routed = inv.routed; results = inv.results }

  Inv-run :
      (w : World) (es : List Event) (c : Client)
      → ((i : String) (v : Value) → Answered i v es → P i v)
      → Inv P c
      → Inv P (run w es c)
  unfolding run
  Inv-run w [] c seen inv = inv
  Inv-run w (e ∷ es) c seen inv =
      Inv-run w es (step w e c) (λ i v a. seen i v (inr a))
        (Inv-step w e c (λ i v a. seen i v (inl a)) inv)

-- A fresh client after any steps of the reading thread, the event loop and the callers, in any order:
-- if a future has a result, then a message was received that has the id of the request that created
-- this future, exactly that result, and no error.
pub run-Answered :
    (w : World) (es : List Event) (f : ℕ) (x : Future) (v : Value)
    → get_elem? (run w es (start new)).futures f ≡ some x
    → x.state ≡ result v
    → Answered x.owner v es
run-Answered w es f x v h e =
    let start_Inv : Inv (λ i u. Answered i u es) (start new) =
      unfold start new in
      record {
        owners = λ g i k. absurd (cc (k, lookup-nil {V = ℕ} g));
        routed = tt;
        results = λ g y u k l. absurd (cc k);
      } in
    (Inv-run (λ i u. Answered i u es) w es (start new) (λ i u a. a) start_Inv).results f x v h e
