-- ===== src/Wire/Convert.antt =====
-- The conversions that the generated classes share: `from_str`, `from_float`, `from_bool`, `from_none`,
-- `from_union`, `from_list`, `from_dict` and `to_enum` of python/copilot/generated/rpc.py, which
-- python/copilot/generated/session_events.py repeats.
use copilot_sdk.Prelude.{
  ◌⊎◌, inl, inr, String, ◌≡◌, refl, ap, ap₂, ◌∙◌, Bool, false, Option, none, some, List, [], ◌∷◌,
  Dict, if◌then◌else◌, if_false, Result, ok, err, raise, Error, assertion_error, ◌>>=◌,
}
use copilot_sdk.Wire.{of_class}
use copilot_sdk.Prelude.Int.{ℤ}
use copilot_sdk.Value.{
  Value, Items, Fields, null, bool, int, float, str, arr, obj, nil, cons, end, field, is_none,
}

-- What the code asks of Python's numbers: `float(n)`, as the `repr` of the float.
pub record Numbers : Type 0 where
  pub float_of_int : ℤ → Result String

unfoldable pub from_str : Value → Result String
from_str (str s) = ok s
from_str v = raise assertion_error ""

unfoldable pub from_bool : Value → Result Bool
from_bool (bool b) = ok b
from_bool v = raise assertion_error ""

unfoldable pub from_int : Value → Result ℤ
from_int (int n) = ok n
from_int v = raise assertion_error ""

-- A float is held by its `repr`.
unfoldable pub from_float : Numbers → Value → Result String
from_float numbers (float t) = ok t
from_float numbers (int n) = numbers.float_of_int n
from_float numbers v = raise assertion_error ""

module _ {ℓ} {A : Type ℓ} where
  abbrev none_after : Value → Result A → Result (Option A)
  none_after v (ok a) = ok (some a)
  none_after v (err e) = if is_none v then ok none else raise assertion_error ""

  -- `from_union([f, from_none], x)`
  unfoldable pub optional : (Value → Result A) → Value → Result (Option A)
  optional f v = none_after v (f v)

  -- `from_union([from_none, f], x)`
  unfoldable pub none_or : (Value → Result A) → Value → Result (Option A)
  none_or f v = if is_none v then ok none else none_after v (f v)

  unfoldable pub each_item : (Value → Result A) → Items → Result (List A)
  each_item f nil = ok []
  each_item f (cons v vs) = f v >>= λ a. each_item f vs >>= λ as'. ok (a ∷ as')

  unfoldable pub from_list : (Value → Result A) → Value → Result (List A)
  unfolding each_item
  from_list f (arr vs) = each_item f vs
  from_list f v = raise assertion_error ""

  unfoldable pub each_field : (Value → Result A) → Fields → Result (Dict A)
  each_field f end = ok []
  each_field f (field k v fs) = f v >>= λ a. each_field f fs >>= λ d. ok ((k, a) ∷ d)

  unfoldable pub from_dict : (Value → Result A) → Value → Result (Dict A)
  unfolding each_field
  from_dict f (obj fs) = each_field f fs
  from_dict f v = raise assertion_error ""

  abbrev text_after : Value → Result A → Result (Option (A ⊎ String))
  text_after v (ok a) = ok (some (inl a))
  text_after (str s) (err e) = ok (some (inr s))
  text_after v (err e) = if is_none v then ok none else raise assertion_error ""

  -- `from_union([f, from_str, from_none], x)`
  unfoldable pub optional_or_text : (Value → Result A) → Value → Result (Option (A ⊎ String))
  optional_or_text f v = text_after v (f v)

  -- The other direction, for values that have been checked
  unfoldable pub write_optional : (A → Value) → Option A → Value
  write_optional w none = null
  write_optional w (some a) = w a

  unfoldable pub write_or_text : (A → Value) → Option (A ⊎ String) → Value
  write_or_text w none = null
  write_or_text w (some (inl a)) = w a
  write_or_text w (some (inr s)) = str s

  unfoldable pub write_items : (A → Value) → List A → Items
  write_items w [] = nil
  write_items w (a ∷ as') = cons (w a) (write_items w as')

  unfoldable pub write_list : (A → Value) → List A → Value
  unfolding write_items
  write_list w as' = arr (write_items w as')

  unfoldable pub write_fields : (A → Value) → Dict A → Fields
  write_fields w [] = end
  write_fields w ((k, a) ∷ d) = field k (w a) (write_fields w d)

  unfoldable pub write_dict : (A → Value) → Dict A → Value
  unfolding write_fields
  write_dict w d = obj (write_fields w d)

  -- What is written is read back.
  abbrev pub ReadsBack : (Value → Result A) → (A → Value) → Type ℓ
  ReadsBack f w = (a : A) → f (w a) ≡ ok a

  -- None is not accepted.
  abbrev pub RefusesNone : (Value → Result A) → Type ℓ
  RefusesNone f = (e : Error) × (f null ≡ err e)

  -- A text is not accepted.
  abbrev pub RefusesTexts : (Value → Result A) → Type ℓ
  RefusesTexts f = (s : String) → (e : Error) × (f (str s) ≡ err e)

  -- What is written is never None.
  abbrev pub WritesSome : (A → Value) → Type ℓ
  WritesSome w = (a : A) → is_none (w a) ≡ false

  module _ (f : Value → Result A) (w : A → Value) (back : ReadsBack f w) where
    pub optional-ReadsBack : RefusesNone f → (o : Option A) → optional f (write_optional w o) ≡ ok o
    unfolding optional write_optional
    optional-ReadsBack (e, refused) none = ap (none_after null) refused
    optional-ReadsBack refused (some a) = ap (none_after (w a)) (back a)

    pub optional_or_text-ReadsBack :
        RefusesNone f
        → RefusesTexts f
        → (o : Option (A ⊎ String)) → optional_or_text f (write_or_text w o) ≡ ok o
    unfolding optional_or_text write_or_text
    optional_or_text-ReadsBack (e, refused) texts none = ap (text_after null) refused
    optional_or_text-ReadsBack refused texts (some (inl a)) = ap (text_after (w a)) (back a)
    optional_or_text-ReadsBack refused texts (some (inr s)) = ap (text_after (str s)) (texts s).1

    pub none_or-ReadsBack : WritesSome w → (o : Option A) → none_or f (write_optional w o) ≡ ok o
    unfolding none_or write_optional
    none_or-ReadsBack some_written none = refl
    none_or-ReadsBack some_written (some a) =
        if_false _ _ (some_written a) ∙ ap (none_after (w a)) (back a)

    each_item-ReadsBack : (as' : List A) → each_item f (write_items w as') ≡ ok as'
    unfolding each_item write_items
    each_item-ReadsBack [] = refl
    each_item-ReadsBack (a ∷ as') =
        ap₂ (λ r rs. r >>= λ x. rs >>= λ xs. ok (x ∷ xs)) (back a) (each_item-ReadsBack as')

    pub from_list-ReadsBack : (as' : List A) → from_list f (write_list w as') ≡ ok as'
    unfolding from_list write_list
    from_list-ReadsBack as' = each_item-ReadsBack as'

    each_field-ReadsBack : (d : Dict A) → each_field f (write_fields w d) ≡ ok d
    unfolding each_field write_fields
    each_field-ReadsBack [] = refl
    each_field-ReadsBack ((k, a) ∷ d) =
        ap₂ (λ r rs. r >>= λ x. rs >>= λ xs. ok ((k, x) ∷ xs)) (back a) (each_field-ReadsBack d)

    pub from_dict-ReadsBack : (d : Dict A) → from_dict f (write_dict w d) ≡ ok d
    unfolding from_dict write_dict
    from_dict-ReadsBack d = each_field-ReadsBack d

pub from_list-RefusesNone {ℓ} : {A : Type ℓ} (f : Value → Result A) → RefusesNone (from_list f)
unfolding from_list
from_list-RefusesNone f = (_, refl)

pub from_dict-RefusesNone {ℓ} : {A : Type ℓ} (f : Value → Result A) → RefusesNone (from_dict f)
unfolding from_dict
from_dict-RefusesNone f = (_, refl)

pub from_str-ReadsBack : ReadsBack from_str str
unfolding from_str
from_str-ReadsBack s = refl

pub from_str-RefusesNone : RefusesNone from_str
unfolding from_str
from_str-RefusesNone = (_, refl)

pub from_bool-ReadsBack : ReadsBack from_bool bool
unfolding from_bool
from_bool-ReadsBack b = refl

pub from_bool-RefusesNone : RefusesNone from_bool
unfolding from_bool
from_bool-RefusesNone = (_, refl)

module _ (numbers : Numbers) where
  pub from_float-ReadsBack : ReadsBack (from_float numbers) float
  unfolding from_float
  from_float-ReadsBack t = refl

  pub from_float-RefusesNone : RefusesNone (from_float numbers)
  unfolding from_float
  from_float-RefusesNone = (_, refl)

pub from_int-ReadsBack : ReadsBack from_int int
unfolding from_int
from_int-ReadsBack n = refl

pub from_int-RefusesNone : RefusesNone from_int
unfolding from_int
from_int-RefusesNone = (_, refl)

-- A value of type `Any` is taken as it is.
pub ok-ReadsBack : ReadsBack {A = Value} ok (λ v. v)
ok-ReadsBack v = refl

pub of_class-RefusesNone {ℓ} :
    {A : Type ℓ} (read : (String → Value) → Result A) → RefusesNone (of_class read)
unfolding of_class
of_class-RefusesNone read = (_, refl)

pub of_class-RefusesTexts {ℓ} :
    {A : Type ℓ} (read : (String → Value) → Result A) → RefusesTexts (of_class read)
unfolding of_class
of_class-RefusesTexts read s = (_, refl)

pub optional_str-ReadsBack : ReadsBack (optional from_str) (write_optional str)
optional_str-ReadsBack = optional-ReadsBack from_str str from_str-ReadsBack from_str-RefusesNone

pub optional_bool-ReadsBack : ReadsBack (optional from_bool) (write_optional bool)
optional_bool-ReadsBack =
    optional-ReadsBack from_bool bool from_bool-ReadsBack from_bool-RefusesNone

pub optional_float-ReadsBack :
    (numbers : Numbers) → ReadsBack (optional (from_float numbers)) (write_optional float)
optional_float-ReadsBack numbers =
    optional-ReadsBack (from_float numbers) float (from_float-ReadsBack numbers)
      (from_float-RefusesNone numbers)

-- A field of a plain type is read as it was written.
pub ruleset reads_back = (
  from_str-ReadsBack, from_bool-ReadsBack, from_int-ReadsBack, from_float-ReadsBack,
  optional_str-ReadsBack, optional_bool-ReadsBack, optional_float-ReadsBack,
)
