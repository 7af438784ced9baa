-- ===== src/CopilotClient/Lifecycle/Subscriptions.antt =====
-- Subscribing to lifecycle events and unsubscribing: `on` of python/copilot/client.py.
use copilot_sdk.Prelude.{
  Bool, true, Option, ℕ, suc, String, ◌≡◌, ◌≢◌, refl, ap, ◌∙◌, false, none, some, List, [], ◌∷◌,
  ◌++◌, ◌==◌, if◌then◌else◌, Dict, lookup, insert, lookup-insert, or_else, str_eq, eq_refl, eq_iff,
  if_true, if_false, arith,
}
use copilot_sdk.CopilotClient.State.{Client}
use copilot_sdk.CopilotClient.Lifecycle.{
  callable, event_type, typed_handlers, on, remove, unsubscribe_wildcard, unsubscribe_typed,
  remove_typed,
}

-- How often a handler stands in a list.
unfoldable pub count : ℕ → List ℕ → ℕ
count h [] = 0
count h (g ∷ gs) = let rest = count h gs in if g == h then suc rest else rest

count-append :
    (h g : ℕ) (gs : List ℕ)
    → count g (gs ++ h ∷ []) ≡ (if h == g then suc (count g gs) else count g gs)
unfolding count
count-append h g [] = refl
count-append h g (k ∷ gs) = ground (arith, count-append h g gs)

count-remove-append : (h g : ℕ) (gs : List ℕ) → count g (remove h (gs ++ h ∷ [])) ≡ count g gs
unfolding count remove
count-remove-append h g [] = ground arith
count-remove-append h g (k ∷ gs) = ground (arith, count-append h g gs, count-remove-append h g gs)

differs : (a b : String) → a ≢ b → str_eq a b ≡ false
differs a b n = ground (arith, n, eq_iff a b)

lookup-insert_self :
    {V : Type 0} (k : String) (v : V) (d : Dict V) → lookup k (insert k v d) ≡ some v
lookup-insert_self k v d = lookup-insert k k v d ∙ if_true _ _ (eq_refl k)

-- The typed handlers after a subscription to the type `t` and its end
typed-on :
    (t u : String) (h : ℕ) (c : Client)
    → typed_handlers u (unsubscribe_typed t h (on (event_type t) (some h) c).1)
      ≡ (if str_eq t u then remove h (typed_handlers t c ++ h ∷ []) else typed_handlers u c)
unfolding on unsubscribe_typed
typed-on t u h c =
    let old = c.typed_lifecycle_handlers in
    let new_list = typed_handlers t c ++ h ∷ [] in
    let once = insert t new_list old in
    ap (λ o. or_else (lookup u (remove_typed t h o once)) []) (lookup-insert_self t new_list old)
    ∙ ap (λ o. or_else o []) (lookup-insert t u (remove h new_list) once)
    ∙ if_or_else (str_eq t u) (remove h new_list) (lookup u once)
    ∙ under (str_eq t u) refl
  where
    if_or_else :
        (b : Bool) (hs : List ℕ) (o : Option (List ℕ))
        → or_else (if b then some hs else o) [] ≡ (if b then hs else or_else o [])
    if_or_else true hs o = refl
    if_or_else false hs o = refl

    under :
        (b : Bool)
        → str_eq t u ≡ b
        → (if b
            then remove h (typed_handlers t c ++ h ∷ [])
            else or_else
                (lookup u (insert t (typed_handlers t c ++ h ∷ []) c.typed_lifecycle_handlers))
                [])
          ≡ (if b then remove h (typed_handlers t c ++ h ∷ []) else typed_handlers u c)
    under true e = refl
    under false e =
        ap (λ o. or_else o [])
          (lookup-insert t u (typed_handlers t c ++ h ∷ []) c.typed_lifecycle_handlers
            ∙ if_false _ _ e)

count-typed :
    (t u : String) (h g : ℕ) (c : Client) (b : Bool)
    → str_eq t u ≡ b
    → count g (if b then remove h (typed_handlers t c ++ h ∷ []) else typed_handlers u c)
      ≡ count g (typed_handlers u c)
count-typed t u h g c true e =
    count-remove-append h g (typed_handlers t c)
    ∙ ap (λ k. count g (typed_handlers k c)) ((eq_iff t u).0 e)
count-typed t u h g c false e = refl

-- Every handler is registered as often with `b` as with `a`, for all events and for each type of event.
abbrev pub SameHandlers : Client → Client → Type 0
SameHandlers a b =
    (g : ℕ)
    → (count g b.lifecycle_handlers ≡ count g a.lifecycle_handlers)
      × ((u : String) → count g (typed_handlers u b) ≡ count g (typed_handlers u a))

-- Subscribing a lifecycle handler, to all events or to a type of event, and unsubscribing it leaves every
-- handler registered as often as before, both for all events and for each type of event, whether the handler
-- was registered before or not.
pub on-unsubscribe :
    (t : String) (h : ℕ) (c : Client)
    → SameHandlers c (unsubscribe_wildcard h (on (callable h) none c).1)
      × SameHandlers c (unsubscribe_typed t h (on (event_type t) (some h) c).1)
unfolding on unsubscribe_wildcard unsubscribe_typed
on-unsubscribe t h c = (
  λ g. (count-remove-append h g c.lifecycle_handlers, λ u. refl),
  λ g. (refl, λ u. ap (count g) (typed-on t u h c) ∙ count-typed t u h g c (str_eq t u) refl),
)
