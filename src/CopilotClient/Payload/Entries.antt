-- ===== src/CopilotClient/Payload/Entries.antt =====
-- A dict that is filled by assignments, some of them made only if there is a value.
use copilot_sdk.Prelude.{
  String, ◌≡◌, refl, ap, ◌∙◌, Bool, true, false, Option, none, some, List, [], ◌∷◌, arith, Dict,
  lookup, insert, lookup-insert, lookup-nil, str_eq, if◌then◌else◌,
}

module _ {ℓ} {V : Type ℓ} where
  abbrev put : String → Option V → Dict V → Dict V
  put k none d = d
  put k (some v) d = insert k v d

  -- `if o is given: d[k] = o`, for each entry in turn
  unfoldable pub put_all : List (String × Option V) → Dict V → Dict V
  put_all [] d = d
  put_all ((k, o) ∷ es) d = put_all es (put k o d)

  abbrev pub or_before : Option V → Option V → Option V
  or_before none o = o
  or_before (some v) o = some v

  -- The last value that is given for a key.
  unfoldable pub last_given : String → List (String × Option V) → Option V
  last_given j [] = none
  last_given j ((k, o) ∷ es) =
      let rest = last_given j es in if str_eq k j then or_before rest o else rest

  lookup-put :
      (j k : String) (o : Option V) (d : Dict V)
      → lookup j (put k o d) ≡ or_before (if str_eq k j then o else none) (lookup j d)
  lookup-put j k none d = ground arith
  lookup-put j k (some v) d = ground (arith, lookup-insert k j v d)

  regroup :
      (t : Bool) (a b c : Option V)
      → or_before a (or_before (if t then b else none) c)
        ≡ or_before (if t then or_before a b else a) c
  regroup true none b c = refl
  regroup true (some a) b c = refl
  regroup false a b c = refl

  or_before-none : (a : Option V) → or_before a none ≡ a
  or_before-none none = refl
  or_before-none (some a) = refl

  lookup-put_all_over :
      (j : String) (es : List (String × Option V)) (d : Dict V)
      → lookup j (put_all es d) ≡ or_before (last_given j es) (lookup j d)
  unfolding put_all last_given
  lookup-put_all_over j [] d = refl
  lookup-put_all_over j ((k, o) ∷ es) d =
      lookup-put_all_over j es (put k o d)
      ∙ ap (or_before (last_given j es)) (lookup-put j k o d)
      ∙ regroup (str_eq k j) (last_given j es) o (lookup j d)

  -- A key has the last value that is given for it.
  pub lookup-put_all :
      (j : String) (es : List (String × Option V)) → lookup j (put_all es []) ≡ last_given j es
  lookup-put_all j es =
      lookup-put_all_over j es []
      ∙ ap (or_before (last_given j es)) (lookup-nil j)
      ∙ or_before-none (last_given j es)
