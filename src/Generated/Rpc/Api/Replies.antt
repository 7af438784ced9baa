-- ===== src/Generated/Rpc/Api/Replies.antt =====
-- What the server answers, read by the caller.
use copilot_sdk.Prelude.{String, ◌≡◌, refl, ◌∙◌, ap, Result, ok, err, ◌>>=◌}
use copilot_sdk.Value.{Value}
use copilot_sdk.Wire.Convert.{ReadsBack}
use copilot_sdk.Generated.Rpc.Api.Serving.{reply, reply_to, named_session}

module _ {R : Type 0} (read : Value → Result R) (write : R → Value)
    (back : ReadsBack read write) where
  pub reply-read : (r : Result R) → reply write r >>= read ≡ r
  reply-read (ok r) = back r
  reply-read (err e) = refl

  pub reply_to-read :
      {P : Type 0} (read_params : Value → Result P) (serve : P → Result R) (v : Value) (params : P)
      → read_params v ≡ ok params
      → reply_to read_params write serve v >>= read ≡ serve params
  reply_to-read read_params serve v params e =
      ap (λ p. p >>= (λ p'. reply write (serve p')) >>= read) e ∙ reply-read (serve params)

  pub session-reply_to-read :
      {P : Type 0} (read_params : Value → Result P) (serve : String → P → Result R) (v : Value)
      (id : String) (params : P)
      → named_session v ≡ ok id
      → read_params v ≡ ok params
      → (named_session v >>= λ i. reply_to read_params write (serve i) v) >>= read ≡ serve id params
  session-reply_to-read read_params serve v id params e e' =
      ap (λ i. i >>= (λ i'. reply_to read_params write (serve i') v) >>= read) e
      ∙ reply_to-read read_params (serve id) v params e'
