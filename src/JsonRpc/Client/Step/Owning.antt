-- ===== src/JsonRpc/Client/Step/Owning.antt =====
-- Which request a future belongs to, and the invariant that results which wait on the event loop are for
-- the futures of the requests that they answer.
use copilot_sdk.Prelude.{
  ℕ, zero, suc, ◌≡◌, refl, sym, ap, ◌∙◌, ◌⊎◌, some, List, [], ◌∷◌, ◌++◌, arith, inl, inr, get_elem?,
  modify, get_elem?-append_left, get_elem?-modify, String, All, lookup,
}
use mathlib.Core.Path.{subst}
use copilot_sdk.Value.{Value}
use copilot_sdk.JsonRpc.Client.{
  Client, Future, FutureState, result, exception, Callback, set_result, set_exception, notification,
  send_error, dispatch,
}
use copilot_sdk.JsonRpc.Client.Request.{settle_future}
use copilot_sdk.JsonRpc.Client.Step.{World, run_next}

-- The state of a future does not change its owner.
owner-settle_future : (s : FutureState) (x : Future) → (settle_future s x).owner ≡ x.owner
unfolding settle_future
owner-settle_future s x = ground arith

state-settle_future :
    (s : FutureState) (x : Future)
    → ((settle_future s x).state ≡ x.state) ⊎ ((settle_future s x).state ≡ s)
unfolding settle_future
state-settle_future s x = ground arith

-- There is a future at `f`, and its owner is `i`.
abbrev pub Owns : List Future → String → ℕ → Type 0
Owns fs i f = (x : Future) × (get_elem? fs f ≡ some x) × (x.owner ≡ i)

pub Owns-append :
    (fs : List Future) (x : Future) (i : String) (f : ℕ) → Owns fs i f → Owns (fs ++ x ∷ []) i f
Owns-append fs x i f (y, h, o) = (y, get_elem?-append_left fs _ f h, o)

Owns-modify :
    (s : FutureState) (fs : List Future) (g : ℕ) (i : String) (f : ℕ)
    → Owns fs i f
    → Owns (modify (settle_future s) fs g) i f
Owns-modify s (y ∷ fs) zero i zero (x, h, o) =
    (settle_future s y, refl, owner-settle_future s y ∙ cc)
Owns-modify s (y ∷ fs) zero i (suc f) h = h
Owns-modify s (y ∷ fs) (suc g) i zero h = h
Owns-modify s (y ∷ fs) (suc g) i (suc f) h = Owns-modify s fs g i f h
Owns-modify s [] g i f h = h

module _ (P : String → Value → Type 0) where
  -- A result that waits on the event loop is for a future whose request it answers.
  abbrev pub Routed : List Future → Callback → Type 0
  Routed fs (set_result f v) = (i : String) × Owns fs i f × P i v
  Routed fs _ = Unit

  abbrev pub Queued : List Future → List Callback → Type 0
  Queued fs = All (Routed fs)

  pub record Inv (c : Client) : Type 0 where
    pub owners : (i : String) (f : ℕ) → lookup i c.pending_requests ≡ some f → Owns c.futures i f
    pub routed : Queued c.futures c.queue
    pub results :
        (f : ℕ) (x : Future) (v : Value)
        → get_elem? c.futures f ≡ some x
        → x.state ≡ result v
        → P x.owner v

  pub Queued-grows :
      (fs gs : List Future) (q : List Callback)
      → ((i : String) (f : ℕ) → Owns fs i f → Owns gs i f)
      → Queued fs q
      → Queued gs q
  Queued-grows fs gs [] grow h = tt
  Queued-grows fs gs (set_result f v ∷ q) grow ((i, o, p), h) =
      ((i, grow i f o, p), Queued-grows fs gs q grow h)
  Queued-grows fs gs (set_exception f e ∷ q) grow (r, h) = (tt, Queued-grows fs gs q grow h)
  Queued-grows fs gs (notification m p ∷ q) grow (r, h) = (tt, Queued-grows fs gs q grow h)
  Queued-grows fs gs (send_error i n m ∷ q) grow (r, h) = (tt, Queued-grows fs gs q grow h)
  Queued-grows fs gs (dispatch p g ∷ q) grow (r, h) = (tt, Queued-grows fs gs q grow h)

  results-settle :
      (s : FutureState) (g : ℕ) (c : Client)
      → Inv c
      → ((v : Value) → s ≡ result v → (i : String) × Owns c.futures i g × P i v)
      → (f : ℕ) (y : Future) (v : Value)
      → get_elem? (modify (settle_future s) c.futures g) f ≡ some y
      → y.state ≡ result v
      → P y.owner v
  results-settle s g c inv hs f y v h e =
      elim (get_elem?-modify (settle_future s) c.futures g f h) [
        | inl k ↦ inv.results f y v k e
        | inr (x, same, hx, is_y) ↦
            let owner : x.owner ≡ y.owner =
              sym (ap (λ (z : Future). z.owner) is_y ∙ owner-settle_future s x) in
            let state : y.state ≡ (settle_future s x).state = ap (λ (z : Future). z.state) is_y in
            elim (state-settle_future s x) [
              | inl kept ↦
                  subst (λ i. P i v) owner (inv.results f x v hx (sym kept ∙ sym state ∙ e))
              | inr set ↦
                  let (i, (z, hz, o), p) = hs v (sym set ∙ sym state ∙ e) in
                  subst (λ j. P j v) (cc (o, hz, hx, same, owner)) p
            ]
      ]

  -- Settling a future by anything but a result, or by a result that answers its request.
  pub Inv-settle :
      (s : FutureState) (g : ℕ) (c : Client) (q : List Callback)
      → Inv c
      → Queued c.futures q
      → ((v : Value) → s ≡ result v → (i : String) × Owns c.futures i g × P i v)
      → Inv (record c { futures = modify (settle_future s) c.futures g; queue = q })
  Inv-settle s g c q inv hq hs = record {
    owners = λ i f h. Owns-modify s c.futures g i f (inv.owners i f h);
    routed = Queued-grows c.futures _ q (λ i f o. Owns-modify s c.futures g i f o) hq;
    results = results-settle s g c inv hs;
  }

  pub Inv-run_next :
      (w : World) (q : List Callback) (c : Client)
      → Inv c
      → Queued c.futures q
      → Inv (run_next w q c)
  unfolding run_next
  Inv-run_next w [] c inv h = inv
  Inv-run_next w (set_result f v ∷ q) c inv ((i, o, p), h) =
      Inv-settle (result v) f c q inv h (λ u e. (i, o, subst (P i) (result-injective e) p))
    where
      result-injective : {a b : Value} → result a ≡ result b → a ≡ b
      result-injective e = cc
  Inv-run_next w (set_exception f e ∷ q) c inv (_, h) =
      Inv-settle (exception e) f c q inv h (λ u k. absurd (cc))
  Inv-run_next w (notification m p ∷ q) c inv (_, h) = record {
    owners = inv.owners;
    routed = h;
    results = inv.results;
  }
  Inv-run_next w (send_error i n m ∷ q) c inv (_, h) = record {
    owners = inv.owners;
    routed = h;
    results = inv.results;
  }
  Inv-run_next w (dispatch p g ∷ q) c inv (_, h) = record {
    owners = inv.owners;
    routed = h;
    results = inv.results;
  }
