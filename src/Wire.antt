-- ===== src/Wire.antt =====
-- How the classes of python/copilot/types.py and python/copilot/generated are read from JSON objects
-- and written to them: `obj.get(k)` for each field, and a dict that is filled by one assignment for each.
pub mod Convert
use copilot_sdk.Prelude.{
  String, ◌≡◌, refl, sym, ap, ◌∙◌, Bool, true, false, not, ◌&&◌, ◌||◌, Option, none, some, List, [],
  ◌∷◌, arith, str_eq, eq_iff, if◌then◌else◌, fun_ext, Result, ok, err, raise, assertion_error,
  Bool-cases, inl, inr,
}
use copilot_sdk.Value.{
  Value, Fields, null, bool, int, float, str, arr, obj, end, field, get?, get_or, is_none,
}

-- An assignment to the dict: `d[k] = v`, or the same under `if v is not None`.
pub data Entry : Type 0 where
  always : String → Value → Entry
  given : String → Value → Entry

-- The dict that the assignments fill, for keys that are all different.
abbrev pub unless_none : Bool → String → Value → Fields → Fields
unless_none true k v fs = fs
unless_none false k v fs = field k v fs

unfoldable pub to_fields : List Entry → Fields
to_fields [] = end
to_fields (always k v ∷ es) = field k v (to_fields es)
to_fields (given k v ∷ es) = unless_none (is_none v) k v (to_fields es)

-- The value that stands for a key; None where there is no such entry.
abbrev pub null_at : String → List Entry → Value
null_at k [] = null
null_at k (always j v ∷ es) = if str_eq j k then v else null_at k es
null_at k (given j v ∷ es) = if str_eq j k then v else null_at k es

abbrev key_of : Entry → String
key_of (always k v) = k
key_of (given k v) = k

-- Whether no entry has the key, and whether no key stands twice.
abbrev pub lacks : String → List Entry → Bool
lacks k [] = true
lacks k (e ∷ es) = not (str_eq (key_of e) k) && lacks k es

abbrev pub distinct : List Entry → Bool
distinct [] = true
distinct (e ∷ es) = lacks (key_of e) es && distinct es

get_or-field :
    (j : String) (v : Value) (fs : Fields) (k : String)
    → get_or k null (field j v fs) ≡ (if str_eq j k then v else get_or k null fs)
unfolding get?
get_or-field j v fs k = ground arith

get_or-unless_none :
    (b : Bool) (j : String) (v : Value) (fs : Fields) (k : String)
    → get_or k null (unless_none b j v fs)
      ≡ (if b then get_or k null fs else if str_eq j k then v else get_or k null fs)
unfolding get?
get_or-unless_none true j v fs k = refl
get_or-unless_none false j v fs k = get_or-field j v fs k

lacks-null :
    (es : List Entry) (k : String) → lacks k es ≡ true → get_or k null (to_fields es) ≡ null
unfolding to_fields get?
lacks-null [] k d = refl
lacks-null (always j v ∷ es) k d =
    get_or-field j v (to_fields es) k ∙ ground (arith, d, lacks-null es k)
lacks-null (given j v ∷ es) k d =
    get_or-unless_none (is_none v) j v (to_fields es) k ∙ ground (arith, d, lacks-null es k)

is_none-null : (v : Value) → is_none v ≡ true → v ≡ null
is_none-null null e = refl
is_none-null (bool b) e = cc
is_none-null (int n) e = cc
is_none-null (float t) e = cc
is_none-null (str t) e = cc
is_none-null (arr xs) e = cc
is_none-null (obj fs) e = cc

-- Each key has the value that was assigned, also where None was left out.
pub get_or-to_fields :
    (es : List Entry) (k : String)
    → distinct es ≡ true
    → get_or k null (to_fields es) ≡ null_at k es
unfolding to_fields
get_or-to_fields [] k d = unfold get? in refl
get_or-to_fields (always j v ∷ es) k d =
    get_or-field j v (to_fields es) k ∙ ground (arith, d, get_or-to_fields es k)
get_or-to_fields (given j v ∷ es) k d =
    get_or-unless_none (is_none v) j v (to_fields es) k
    ∙ ground (arith, d, get_or-to_fields es k, is_none-null v, eq_iff j k, lacks-null es j)

-- `from_dict` of a class: the object is asserted to be a dict, and the rest reads it by `obj.get`.
unfoldable pub of_class {ℓ} : {A : Type ℓ} → ((String → Value) → Result A) → Value → Result A
of_class read (obj fs) = read (λ k. get_or k null fs)
of_class read v = raise assertion_error ""

-- An object that assignments have filled is read by looking the assignments up.
pub of_class-to_fields {ℓ} :
    {A : Type ℓ} (read : (String → Value) → Result A) (es : List Entry)
    → distinct es ≡ true
    → of_class read (obj (to_fields es)) ≡ read (λ k. null_at k es)
unfolding of_class
of_class-to_fields read es d = ap read (fun_ext (λ k. get_or-to_fields es k d))

-- `from_dict` of a class that reads a field with a default of its own.
unfoldable pub of_class_with_default {ℓ} : {A : Type ℓ} → (Fields → Result A) → Value → Result A
of_class_with_default read (obj fs) = read fs
of_class_with_default read v = raise assertion_error ""
