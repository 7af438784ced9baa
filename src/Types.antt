-- ===== src/Types.antt =====
-- The classes that the client returns (python/copilot/types.py). A field whose value is not checked is a
-- value, `null` for None.
pub mod Responses
pub mod Models
pub mod Sessions
use copilot_sdk.Prelude.{
  String, Bool, true, ◌≡◌, refl, ap, ◌∙◌, if_true, Option, none, some, Result, ok, err, raise,
  value_error, if◌then◌else◌, ◌>>=◌, ◌||◌,
}
use copilot_sdk.Prelude.Int.{ℤ}
use copilot_sdk.Value.{Value, null, int, float, str, is_none, truthy}

-- Python's `str`, `int` and `float` of values of other types.
pub record Conversions : Type 0 where
  pub str_of : Value → String
  pub int_of : Value → Result ℤ
  pub float_of : Value → Result String

-- `str(v)`
unfoldable pub to_str : Conversions → Value → String
to_str c (str s) = s
to_str c v = c.str_of v

-- `int(v)`
unfoldable pub to_int : Conversions → Value → Result ℤ
to_int c (int n) = ok n
to_int c v = c.int_of v

-- `float(v)`
unfoldable pub to_float : Conversions → Value → Result String
to_float c (float t) = ok t
to_float c v = c.float_of v

-- `if v is None: raise ValueError(...)`
unfoldable pub required {ℓ} : {A : Type ℓ} → Bool → Result A → Result A
required missing r = if missing then raise value_error "Missing required fields" else r

-- `C.from_dict(v) if v else None`
abbrev pub some_result {ℓ} : {A : Type ℓ} → Result A → Result (Option A)
some_result r = r >>= λ a. ok (some a)

unfoldable pub if_truthy {ℓ} : {A : Type ℓ} → (Value → Result A) → Value → Result (Option A)
if_truthy f v = if truthy v then some_result (f v) else ok none

-- The value of an optional part: None if it is missing
unfoldable pub write_part {ℓ} : {A : Type ℓ} → (A → Value) → Option A → Value
write_part w none = null
write_part w (some a) = w a

pub if_truthy-write_part {ℓ} :
    {A : Type ℓ} (f : Value → Result A) (w : A → Value)
    → ((a : A) → f (w a) ≡ ok a)
    → (o : Option A) → ((a : A) → o ≡ some a → truthy (w a) ≡ true)
    → if_truthy f (write_part w o) ≡ ok o
unfolding if_truthy write_part
if_truthy-write_part f w back none t = unfold truthy in refl
if_truthy-write_part f w back (some a) t = if_true _ _ (t a refl) ∙ ap some_result (back a)
