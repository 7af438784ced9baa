-- ===== src/Prelude/Lists.antt =====
-- Lists measured by native numbers, under the library's names, and predicates by recursion.
use Prim.Native.Nat.{ℕ, zero, suc, ◌+◌, ◌≤◌}
use mathlib.Core.Path.{◌≡◌, refl, ap}
use mathlib.Core.Logic.{◌⊎◌, inl, inr}
use mathlib.Core.Bool.{Bool, true, false}
use mathlib.Core.Option.{Option, none, some}
use mathlib.Core.List.{List, [], ◌∷◌, ◌++◌}
use native.Mathlib.Omega.{arith}

module _ {ℓ} {A : Type ℓ} where
  abbrev pub length : List A → ℕ
  length [] = 0
  length (x ∷ xs) = suc (length xs)

  abbrev pub take : ℕ → List A → List A
  take zero xs = []
  take (suc n) [] = []
  take (suc n) (x ∷ xs) = x ∷ take n xs

  abbrev pub drop : ℕ → List A → List A
  drop zero xs = xs
  drop (suc n) [] = []
  drop (suc n) (x ∷ xs) = drop n xs

  abbrev pub replicate : ℕ → A → List A
  replicate zero a = []
  replicate (suc n) a = a ∷ replicate n a

  abbrev pub get_elem? : List A → ℕ → Option A
  get_elem? [] i = none
  get_elem? (x ∷ xs) zero = some x
  get_elem? (x ∷ xs) (suc i) = get_elem? xs i

  -- Replaces the element at an index by a function of it; out of bounds nothing changes.
  abbrev pub modify : (A → A) → List A → ℕ → List A
  modify f [] i = []
  modify f (x ∷ xs) zero = f x ∷ xs
  modify f (x ∷ xs) (suc i) = x ∷ modify f xs i

  -- A list is truthy when it is not empty.
  abbrev pub nonempty : List A → Bool
  nonempty [] = false
  nonempty (x ∷ xs) = true

  pub length-append : (xs ys : List A) → length (xs ++ ys) ≡ length xs + length ys
  length-append [] ys = omega arith
  length-append (x ∷ xs) ys = omega (arith, length-append xs ys)

  pub take-append_length : (xs ys : List A) → take (length xs) (xs ++ ys) ≡ xs
  take-append_length [] ys = refl
  take-append_length (x ∷ xs) ys = rw (take-append_length xs ys)

  pub drop-append_length : (xs ys : List A) → drop (length xs) (xs ++ ys) ≡ ys
  drop-append_length [] ys = refl
  drop-append_length (x ∷ xs) ys = drop-append_length xs ys

module _ {ℓ} {A : Type ℓ} where
  pub take-append-drop : (n : ℕ) (xs : List A) → take n xs ++ drop n xs ≡ xs
  take-append-drop zero xs = refl
  take-append-drop (suc n) [] = refl
  take-append-drop (suc n) (x ∷ xs) = rw (take-append-drop n xs)

  pub length-take_le : (n : ℕ) (xs : List A) → length (take n xs) ≤ n
  length-take_le zero xs = omega arith
  length-take_le (suc n) [] = omega arith
  length-take_le (suc n) (x ∷ xs) = omega (arith, length-take_le n xs)

  pub get_elem?-append_left :
      (xs ys : List A) (i : ℕ) {x : A} → get_elem? xs i ≡ some x → get_elem? (xs ++ ys) i ≡ some x
  get_elem?-append_left [] ys i h = cc
  get_elem?-append_left (y ∷ xs) ys zero h = h
  get_elem?-append_left (y ∷ xs) ys (suc i) h = get_elem?-append_left xs ys i h

  pub get_elem?-append_end : (xs : List A) (x : A) → get_elem? (xs ++ x ∷ []) (length xs) ≡ some x
  get_elem?-append_end [] x = refl
  get_elem?-append_end (y ∷ xs) x = get_elem?-append_end xs x

  -- An element that the function leaves alone stays, wherever the list is changed.
  pub get_elem?-modify_fixed :
      (f : A → A) (xs : List A) (i j : ℕ) {x : A}
      → f x ≡ x
      → get_elem? xs j ≡ some x
      → get_elem? (modify f xs i) j ≡ some x
  get_elem?-modify_fixed f [] i j e h = cc
  get_elem?-modify_fixed f (y ∷ xs) zero zero e h = cc
  get_elem?-modify_fixed f (y ∷ xs) zero (suc j) e h = h
  get_elem?-modify_fixed f (y ∷ xs) (suc i) zero e h = h
  get_elem?-modify_fixed f (y ∷ xs) (suc i) (suc j) e h = get_elem?-modify_fixed f xs i j e h

  pub get_elem?-modify_self :
      (f : A → A) (xs : List A) (i : ℕ) {x : A}
      → get_elem? xs i ≡ some x
      → get_elem? (modify f xs i) i ≡ some (f x)
  get_elem?-modify_self f [] i h = cc
  get_elem?-modify_self f (y ∷ xs) zero h = cc
  get_elem?-modify_self f (y ∷ xs) (suc i) h = get_elem?-modify_self f xs i h

  -- Where an element of a changed list comes from.
  pub get_elem?-modify :
      (f : A → A) (xs : List A) (i j : ℕ) {y : A}
      → get_elem? (modify f xs i) j ≡ some y
      → (get_elem? xs j ≡ some y) ⊎ ((x : A) × (i ≡ j) × (get_elem? xs j ≡ some x) × (y ≡ f x))
  get_elem?-modify f [] i j h = inl h
  get_elem?-modify f (x ∷ xs) zero zero {y} h = inr (x, refl, refl, cc)
  get_elem?-modify f (x ∷ xs) zero (suc j) h = inl h
  get_elem?-modify f (x ∷ xs) (suc i) zero h = inl h
  get_elem?-modify f (x ∷ xs) (suc i) (suc j) h = elim (get_elem?-modify f xs i j h) [
    | inl e ↦ inl e
    | inr (z, e, g, k) ↦ inr (z, ap suc e, g, k)
  ]

  pub get_elem?-append_one :
      (xs : List A) (x : A) (i : ℕ) {y : A}
      → get_elem? (xs ++ x ∷ []) i ≡ some y
      → (get_elem? xs i ≡ some y) ⊎ (y ≡ x)
  get_elem?-append_one [] x zero h = inr (cc)
  get_elem?-append_one [] x (suc i) h = cc
  get_elem?-append_one (z ∷ xs) x zero h = inl h
  get_elem?-append_one (z ∷ xs) x (suc i) h = get_elem?-append_one xs x i h

  -- Two ways to cut one list in two, the first cut no later than the second.
  pub append_split :
      (a b xs ys : List A)
      → a ++ b ≡ xs ++ ys
      → length a ≤ length xs
      → (zs : List A) × (xs ≡ a ++ zs) × (b ≡ zs ++ ys)
  append_split [] b xs ys e h = (xs, refl, e)
  append_split (x ∷ a) b [] ys e h = absurd (omega arith)
  append_split (x ∷ a) b (y ∷ xs) ys e h =
      let (zs, p, q) = append_split a b xs ys (cc) (omega arith) in (zs, cc, q)

module _ {ℓ κ} {A : Type ℓ} (P : A → Type κ) where
  abbrev pub All : List A → Type κ
  All [] = Unit
  All (x ∷ xs) = P x × All xs

  pub All-append : (xs ys : List A) → All xs → All ys → All (xs ++ ys)
  All-append [] ys _ hy = hy
  All-append (x ∷ xs) ys (px, hx) hy = (px, All-append xs ys hx hy)
