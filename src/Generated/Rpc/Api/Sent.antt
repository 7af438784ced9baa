-- ===== src/Generated/Rpc/Api/Sent.antt =====
-- What a remote call sends: every field of the parameters that is not None, and the id of the session.
use copilot_sdk.Prelude.{
  String, ◌≡◌, refl, ◌∙◌, ap, Bool, true, false, List, [], ◌∷◌, Result, arith, str_eq, eq_iff,
  if◌then◌else◌, fun_ext,
}
use copilot_sdk.Value.{Value, Fields, null, obj, str, end, field, get?, get_or, is_none}
use copilot_sdk.Wire.{
  Entry, always, given, to_fields, unless_none, null_at, distinct, of_class, get_or-to_fields,
}
use copilot_sdk.Generated.Rpc.Api.{without_none, set_field, call_params, session_params}

abbrev pub optional_entries : List Entry → List Entry
optional_entries [] = []
optional_entries (always k v ∷ es) = given k v ∷ optional_entries es
optional_entries (given k v ∷ es) = given k v ∷ optional_entries es

without_none-unless_none :
    (b : Bool) (k : String) (v : Value) (fs : Fields)
    → is_none v ≡ b
    → without_none (unless_none b k v fs) ≡ unless_none b k v (without_none fs)
unfolding without_none
without_none-unless_none true k v fs e = refl
without_none-unless_none false k v fs e = ap (λ b. unless_none b k v (without_none fs)) e

without_none-to_fields :
    (es : List Entry) → without_none (to_fields es) ≡ to_fields (optional_entries es)
unfolding without_none to_fields
without_none-to_fields [] = refl
without_none-to_fields (always k v ∷ es) =
    ap (unless_none (is_none v) k v) (without_none-to_fields es)
without_none-to_fields (given k v ∷ es) =
    without_none-unless_none (is_none v) k v (to_fields es) refl
    ∙ ap (unless_none (is_none v) k v) (without_none-to_fields es)

null_at-optional_entries :
    (es : List Entry) (k : String) → null_at k (optional_entries es) ≡ null_at k es
null_at-optional_entries [] k = refl
null_at-optional_entries (always j v ∷ es) k = rw (null_at-optional_entries es k)
null_at-optional_entries (given j v ∷ es) k = rw (null_at-optional_entries es k)

get_or-without_none :
    (es : List Entry) (k : String)
    → distinct (optional_entries es) ≡ true
    → get_or k null (without_none (to_fields es)) ≡ null_at k es
get_or-without_none es k d =
    ap (get_or k null) (without_none-to_fields es)
    ∙ get_or-to_fields (optional_entries es) k d
    ∙ null_at-optional_entries es k

get_or-set_field :
    (j : String) (v : Value) (fs : Fields) (k : String)
    → get_or k null (set_field j v fs) ≡ (if str_eq j k then v else get_or k null fs)
unfolding set_field get?
get_or-set_field j v end k = ground arith
get_or-set_field j v (field i w fs) k =
    ground (arith, get_or-set_field j v fs k, eq_iff i j, eq_iff j k, eq_iff i k)

-- The other side reads the fields of the parameters as they were.
pub of_class-call_params {ℓ} :
    {A : Type ℓ} (read : (String → Value) → Result A) (es : List Entry)
    → distinct (optional_entries es) ≡ true
    → of_class read (call_params (obj (to_fields es))) ≡ read (λ k. null_at k es)
unfolding of_class call_params
of_class-call_params read es d = ap read (fun_ext (λ k. get_or-without_none es k d))

-- The other side reads the session's own id, and the other fields of the parameters as they were.
pub of_class-session_params {ℓ} :
    {A : Type ℓ} (read : (String → Value) → Result A) (id : String) (es : List Entry)
    → distinct (optional_entries es) ≡ true
    → of_class read (session_params id (obj (to_fields es)))
      ≡ read (λ k. if str_eq "sessionId" k then str id else null_at k es)
unfolding of_class session_params
of_class-session_params read id es d = ap read (
    fun_ext (λ k.
      get_or-set_field "sessionId" (str id) (without_none (to_fields es)) k
      ∙ ap (λ v. if str_eq "sessionId" k then str id else v) (get_or-without_none es k d)))
