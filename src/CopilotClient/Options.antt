-- ===== src/CopilotClient/Options.antt =====
-- The options of a client and their defaults: `__init__` of python/copilot/client.py.
use copilot_sdk.Prelude.{
  refl, ℕ, String, ◌≡◌, Bool, true, false, not, ◌&&◌, ◌||◌, Option, none, some, List, [], ◌∷◌,
  arith, Dict, is_some, if◌then◌else◌, nonempty, or_else, str_eq, Result, ok, raise, value_error,
  runtime_error, Returns, Returns-bind, if_split, ◌∙◌, sym, ◌>>=◌,
}
use mathlib.Core.Path.{subst}
use copilot_sdk.Text.{Text, Unicode, codes}
use copilot_sdk.CopilotClient.Connection.Stopping.{IsDown}
use copilot_sdk.CopilotClient.State.{Client, Options, disconnected, no_process}
use copilot_sdk.CopilotClient.Url.{parse_cli_url}

-- `CopilotClientOptions`: every option may be left out.
pub record Given : Type 0 where
  pub cli_path : Option String
  pub cli_args : Option (List String)
  pub cwd : Option String
  pub port : Option ℕ
  pub use_stdio : Option Bool
  pub cli_url : Option Text
  pub log_level : Option String
  pub auto_start : Option Bool
  pub auto_restart : Option Bool
  pub env : Option (Dict String)
  pub github_token : Option String
  pub use_logged_in_user : Option Bool

-- What the constructor finds outside: `_get_bundled_cli_path()` and `os.getcwd()`.
pub record Machine : Type 0 where
  pub unicode : Unicode
  pub bundled_cli_path : Option String
  pub getcwd : String

-- `opts.get(k)` as a test, for a text, a list or a truth value
abbrev pub given_text : Option String → Bool
given_text none = false
given_text (some s) = not (str_eq s "")

abbrev pub given_codes : Option Text → Bool
given_codes none = false
given_codes (some s) = nonempty s

abbrev pub given_true : Option Bool → Bool
given_true none = false
given_true (some b) = b

abbrev list_or_nil {ℓ} : {A : Type ℓ} → Option (List A) → List A
list_or_nil none = []
list_or_nil (some xs) = xs

-- An empty value is not stored.
abbrev kept_text : Option String → Option String
kept_text o = if given_text o then o else none

abbrev kept_dict {ℓ} : {V : Type ℓ} → Option (Dict V) → Option (Dict V)
kept_dict none = none
kept_dict (some d) = if nonempty d then some d else none

-- The two checks on options that exclude each other.
unfoldable pub check_exclusive : Given → Result (Unit {0})
check_exclusive opts =
    if given_codes opts.cli_url && (given_true opts.use_stdio || given_text opts.cli_path)
    then raise value_error "cli_url is mutually exclusive with use_stdio and cli_path"
    else if given_codes opts.cli_url
        && (given_text opts.github_token || is_some opts.use_logged_in_user)
    then raise value_error
        "github_token and use_logged_in_user cannot be used with cli_url (external server manages its own auth)"
    else ok tt

abbrev found_path : Option String → Result String
found_path o =
    if given_text o
    then ok (or_else o "")
    else raise runtime_error
        "Copilot CLI not found. The bundled CLI binary is not available. Ensure you installed a platform-specific wheel, or provide cli_path."

-- The path of the CLI: the option, or else the bundled binary; none is used for an external server.
unfoldable pub default_cli_path : Machine → Given → Result String
default_cli_path m opts =
    if given_codes opts.cli_url
    then ok ""
    else if given_text opts.cli_path
    then ok (or_else opts.cli_path "")
    else found_path m.bundled_cli_path

-- The host, the port and whether the server is an external one.
abbrev address : Machine → Option Text → Result (Text × Option ℕ × Bool)
address m none = ok (codes "localhost", none, false)
address m (some []) = ok (codes "localhost", none, false)
address m (some (c ∷ url)) = parse_cli_url m.unicode (c ∷ url) >>= λ hp. ok (hp.0, some hp.1, true)

unfoldable pub resolve : Machine → Given → String → Options
resolve m opts cli_path = record {
  cli_path = cli_path;
  cli_args = list_or_nil opts.cli_args;
  cwd = or_else opts.cwd m.getcwd;
  port = or_else opts.port 0;
  use_stdio = if given_codes opts.cli_url then false else or_else opts.use_stdio true;
  cli_url = if given_codes opts.cli_url then opts.cli_url else none;
  log_level = or_else opts.log_level "info";
  auto_start = or_else opts.auto_start true;
  auto_restart = or_else opts.auto_restart true;
  env = kept_dict opts.env;
  github_token = kept_text opts.github_token;
  use_logged_in_user = or_else opts.use_logged_in_user (not (given_text opts.github_token));
}

abbrev fresh : Options → Text × Option ℕ × Bool → Client
fresh options where_to = record {
  options = options;
  actual_host = where_to.0;
  actual_port = where_to.1;
  is_external_server = where_to.2;
  process = no_process;
  has_client = false;
  cli_processes = 0;
  connections = 0;
  state = disconnected;
  sessions = [];
  models_cache = none;
  lifecycle_handlers = [];
  typed_lifecycle_handlers = [];
}

-- `__init__`
unfoldable pub new : Machine → Given → Result Client
unfolding check_exclusive default_cli_path resolve
new m opts = do
  _ ← check_exclusive opts
  where_to ← address m opts.cli_url
  path ← default_cli_path m opts
  ok (fresh (resolve m opts path) where_to)

-- What holds of the client of an external server, and of one that starts the CLI itself.
pub record IsConsistent (c : Client) : Type 0 where
  pub external : c.is_external_server ≡ is_some c.options.cli_url
  pub no_stdio : c.is_external_server ≡ true → c.options.use_stdio ≡ false
  pub no_token : c.is_external_server ≡ true → c.options.github_token ≡ none
  pub has_port : c.is_external_server ≡ is_some c.actual_port
  pub has_path : c.is_external_server ≡ str_eq c.options.cli_path ""

address_facts :
    (m : Machine) (o : Option Text) (w : Text × Option ℕ × Bool)
    → address m o ≡ ok w
    → (w.2 ≡ given_codes o) × (w.2 ≡ is_some w.1)
address_facts m none w h = ground arith
address_facts m (some []) w h = ground arith
address_facts m (some (c ∷ url)) w h = ground (arith, h)

given_text-or_else : (o : Option String) → given_text o ≡ true → str_eq (or_else o "") "" ≡ false
given_text-or_else none h = cc
given_text-or_else (some s) h = ground (arith, h)

path_facts :
    (m : Machine) (opts : Given)
    → Returns (λ path. given_codes opts.cli_url ≡ str_eq path "") (default_cli_path m opts)
unfolding default_cli_path
path_facts m opts =
    let P : Result String → Type 0 = Returns (λ path. given_codes opts.cli_url ≡ str_eq path "") in
    if_split P (given_codes opts.cli_url) _ _ (λ e. e)
      λ e.
        if_split P (given_text opts.cli_path) _ _
          (λ g. e ∙ sym (given_text-or_else opts.cli_path g))
          λ _.
            if_split P (given_text m.bundled_cli_path) _ _
              (λ g. e ∙ sym (given_text-or_else m.bundled_cli_path g)) (λ _. tt)

exclusive_facts :
    (opts : Given)
    → check_exclusive opts ≡ ok tt
    → given_codes opts.cli_url ≡ true
    → (given_text opts.github_token ≡ false) × (given_text opts.cli_path ≡ false)
unfolding check_exclusive
exclusive_facts opts h g = ground arith

fresh-IsConsistent :
    (m : Machine) (opts : Given) (w : Text × Option ℕ × Bool) (path : String)
    → check_exclusive opts ≡ ok tt
    → address m opts.cli_url ≡ ok w
    → default_cli_path m opts ≡ ok path
    → IsConsistent (fresh (resolve m opts path) w)
unfolding resolve
fresh-IsConsistent m opts w path e1 e2 e3 =
    let (external, port) = address_facts m opts.cli_url w e2 in
    let token = exclusive_facts opts e1 in
    record {
      external = external ∙ ground arith;
      no_stdio = λ x. ground (arith, external, x);
      no_token = λ x. ground (arith, external, x, token (sym external ∙ x));
      has_port = port;
      has_path =
          external
          ∙ subst (Returns (λ p. given_codes opts.cli_url ≡ str_eq p "")) e3 (path_facts m opts);
    }

-- A client that the constructor accepts is consistent: it is one of an external server exactly if it
-- has an address, exactly if it has a port, and exactly if it has no path of a CLI; then it uses no
-- stdio and no token.
pub new-IsConsistent :
    (m : Machine) (opts : Given) (c : Client) → new m opts ≡ ok c → IsConsistent c
unfolding new
new-IsConsistent m opts c h =
    let all : Returns IsConsistent (new m opts) =
      Returns-bind IsConsistent (check_exclusive opts) _ λ u e1.
        Returns-bind IsConsistent (address m opts.cli_url) _ λ w e2.
          Returns-bind IsConsistent (default_cli_path m opts) _
            λ path e3. fresh-IsConsistent m opts w path e1 e2 e3 in
    subst (Returns IsConsistent) h all

fresh-IsDown : (options : Options) (w : Text × Option ℕ × Bool) → IsDown (fresh options w)
fresh-IsDown options w = record { state = refl; client = refl; sessions = refl; models = refl }

-- A client that the constructor accepts is as `stop` leaves one.
pub new-IsDown : (m : Machine) (opts : Given) (c : Client) → new m opts ≡ ok c → IsDown c
unfolding new
new-IsDown m opts c h =
    let all : Returns IsDown (new m opts) = Returns-bind IsDown (check_exclusive opts) _ λ u _.
      Returns-bind IsDown (address m opts.cli_url) _ λ w _.
        Returns-bind IsDown (default_cli_path m opts) _
          λ path _. fresh-IsDown (resolve m opts path) w in
    subst (Returns IsDown) h all
