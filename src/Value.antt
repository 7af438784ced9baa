-- ===== src/Value.antt =====
-- Python values that JSON carries, as `json.loads` returns them and `json.dumps` takes them.
use copilot_sdk.Prelude.{
  zero, String, ◌≡◌, refl, Bool, true, false, not, ◌||◌, Option, none, some, List, [], ◌∷◌, str_eq,
  if◌then◌else◌, is_some, Dict, Result, ok, raise, type_error,
}
use copilot_sdk.Prelude.Int.{ℤ, pos}

-- A float is held by its `repr`, which determines it.
mutual
  pub data Value : Type 0 where
    null : Value
    bool : Bool → Value
    int : ℤ → Value
    float : String → Value
    str : String → Value
    obj : Fields → Value
    arr : Items → Value

  pub data Items : Type 0 where
    cons : Value → Items → Items
    nil : Items

  pub data Fields : Type 0 where
    end : Fields
    field : String → Value → Fields → Fields

abbrev pub int_truthy : ℤ → Bool
int_truthy (pos zero) = false
int_truthy _ = true

abbrev pub items_truthy : Items → Bool
items_truthy nil = false
items_truthy (cons _ _) = true

abbrev pub fields_truthy : Fields → Bool
fields_truthy end = false
fields_truthy (field _ _ _) = true

-- `bool(v)`
unfoldable pub truthy : Value → Bool
truthy null = false
truthy (bool b) = b
truthy (int n) = int_truthy n
truthy (float t) = not (str_eq t "0.0" || str_eq t "-0.0")
truthy (str s) = not (str_eq s "")
truthy (arr xs) = items_truthy xs
truthy (obj fs) = fields_truthy fs

-- `v is None`
abbrev pub is_none : Value → Bool
is_none null = true
is_none _ = false

-- `fs.get(k)` on the fields of a dict; `none` for a missing key.
unfoldable pub get? : String → Fields → Option Value
get? k end = none
get? k (field j v fs) = if str_eq j k then some v else get? k fs

-- `fs.get(k, d)`
abbrev pub get_or : String → Value → Fields → Value
get_or k d fs = elim (get? k fs) [ none ↦ d | some v ↦ v ]

-- `k in fs`
abbrev pub has_field : String → Fields → Bool
has_field k fs = is_some (get? k fs)

-- A dict literal, its fields in the order written.
unfoldable pub of_dict : Dict Value → Fields
of_dict [] = end
of_dict ((k, v) ∷ d) = field k v (of_dict d)

abbrev pub dict : Dict Value → Value
dict d = obj (of_dict d)

-- A JSON array from a list.
unfoldable pub of_list : List Value → Items
of_list [] = nil
of_list (v ∷ vs) = cons v (of_list vs)

unfoldable pub to_list : Items → List Value
to_list nil = []
to_list (cons v vs) = v ∷ to_list vs

-- An array keeps the items that it was made from.
pub to_list-of_list : (vs : List Value) → to_list (of_list vs) ≡ vs
unfolding to_list of_list
to_list-of_list [] = refl
to_list-of_list (v ∷ vs) = rw (to_list-of_list vs)

abbrev keys_of : Fields → Items
keys_of end = nil
keys_of (field k v fs) = cons (str k) (keys_of fs)

abbrev characters : String → Items
characters String.[] = nil
characters (String.◌∷◌ c s) = cons (str (String.◌∷◌ c String.[])) (characters s)

-- What `for x in v` goes through: items of a list, keys of a dict, characters of a text.
unfoldable pub iterate : Value → Result Items
iterate (arr vs) = ok vs
iterate (obj fs) = ok (keys_of fs)
iterate (str s) = ok (characters s)
iterate _ = raise type_error "object is not iterable"
