-- ===== src/Prelude/Errors.antt =====
-- Python exceptions as values: `Result` for code that may raise.
use Prim.Native.String.{String}
use mathlib.Core.Path.{◌≡◌, refl}

-- The exception classes that the code raises, catches or lets pass.
pub data ErrorKind : Type 0 where
  value_error type_error runtime_error key_error assertion_error : ErrorKind
  eof_error os_error timeout_error process_exited : ErrorKind
  -- any other class, such as one of a user's handler
  other_error : ErrorKind

-- An exception, with what `str(exc)` gives.
pub record Error : Type 0 where
  pub kind : ErrorKind
  pub message : String

-- What code that may raise gives: an exception, or its value.
pub data Result {ℓ} (A : Type ℓ) : Type ℓ where
  err : Error → Result A
  ok : A → Result A

module _ {ℓ κ} {A : Type ℓ} {B : Type κ} where
  infixl 5 ◌>>=◌
  -- The code that follows is left out after an exception.
  abbrev pub ◌>>=◌ : Result A → (A → Result B) → Result B
  err e >>= rest = err e
  ok a >>= rest = rest a

-- `raise K(message)`
abbrev pub raise {ℓ} : {A : Type ℓ} → ErrorKind → String → Result A
raise k m = err (record { kind = k; message = m })

-- `P` holds of the result, if there is one.
abbrev pub Returns {ℓ κ} : {A : Type ℓ} → (A → Type κ) → Result A → Type κ
Returns P (ok a) = P a
Returns P (err e) = Unit

pub Returns-bind {ℓ κ μ} :
    {A : Type ℓ} {B : Type κ} (P : B → Type μ) (m : Result A) (f : A → Result B)
    → ((a : A) → m ≡ ok a → Returns P (f a))
    → Returns P (m >>= f)
Returns-bind P (ok a) f h = h a refl
Returns-bind P (err e) f h = tt
