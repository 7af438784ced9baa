-- ===== src/CopilotClient/Command.antt =====
-- Starting the CLI: the command line, the environment and the announced port of `_start_cli_server`
-- of python/copilot/client.py.
use Prim.Native.Nat.{◌*◌}
use copilot_sdk.Prelude.{
  ℕ, zero, suc, ◌+◌, String, Bool, true, false, ◌&&◌, ◌||◌, Option, none, some, List, [], ◌∷◌, ◌++◌,
  Dict, insert, ltb, leb, ◌==◌, if◌then◌else◌, Result, ok, raise, runtime_error,
}
use copilot_sdk.Text.{Text, Unicode, codes, starts_with}
use copilot_sdk.CopilotClient.State.{Options}

-- `s.endswith(p)`
unfoldable pub ends_with : Text → Text → Bool
ends_with [] p = starts_with p [] && starts_with [] p
ends_with (c ∷ s) p =
    let rest = ends_with s p in
    if starts_with (c ∷ s) p && starts_with p (c ∷ s) then true else rest

abbrev run_with : String → List String → List String
run_with cli_path args =
    if ends_with (codes cli_path) (codes ".js") then "node" ∷ cli_path ∷ args else cli_path ∷ args

abbrev auth_args : Option String → List String
auth_args none = []
auth_args (some token) = "--auth-token-env" ∷ "COPILOT_SDK_AUTH_TOKEN" ∷ []

abbrev transport_args : (ℕ → String) → Options → List String
transport_args show_port o =
    if o.use_stdio
    then "--stdio" ∷ []
    else if ltb 0 o.port
    then "--port" ∷ show_port o.port ∷ []
    else []

-- The command line; `show_port` is `str` of a number.
unfoldable pub command_line : (ℕ → String) → Options → List String
unfolding ends_with
command_line show_port o =
    run_with o.cli_path (
      o.cli_args
      ++ ("--headless" ∷ "--no-auto-update" ∷ "--log-level" ∷ o.log_level ∷ [])
      ++ auth_args o.github_token
      ++ (if o.use_logged_in_user then [] else "--no-auto-login" ∷ []))
    ++ transport_args show_port o

abbrev or_environ : Dict String → Option (Dict String) → Dict String
or_environ environ none = environ
or_environ environ (some env) = env

abbrev with_token : Option String → Dict String → Dict String
with_token none env = env
with_token (some token) env = insert "COPILOT_SDK_AUTH_TOKEN" token env

-- The environment of the process
unfoldable pub environment : Dict String → Options → Dict String
environment environ o = with_token o.github_token (or_environ environ o.env)

-- The lower case letter that a character matches without regard to case.
abbrev fold : ℕ → ℕ
fold c =
    if leb 65 c && leb c 90
    then c + 32
    else if c == 0x130 || c == 0x131
    then 105
    else if c == 0x17f
    then 115
    else c

unfoldable pub matches : Text → Text → Bool
matches s [] = true
matches [] (d ∷ p) = false
matches (c ∷ s) (d ∷ p) = fold c == d && matches s p

abbrev extend : ℕ → Option ℕ → ℕ
extend d none = d
extend d (some n) = n

-- The number that the digits at the front spell after `n`.
unfoldable pub digits_after : Unicode → ℕ → Text → ℕ
digits_after u n [] = n
digits_after u n (c ∷ s) = elim (u.decimal c) [ none ↦ n | some d ↦ digits_after u (n * 10 + d) s ]

abbrev front_number : Unicode → Text → Option ℕ
front_number u [] = none
front_number u (c ∷ s) = elim (u.decimal c) [ none ↦ none | some d ↦ some (digits_after u d s) ]

abbrev behind : ℕ → Text → Text
behind zero s = s
behind (suc n) [] = []
behind (suc n) (c ∷ s) = behind n s

abbrev first_of_two : Option ℕ → Option ℕ → Option ℕ
first_of_two none b = b
first_of_two (some a) b = some a

-- `re.search(r"listening on port (\d+)", line, re.IGNORECASE)`, its number
unfoldable pub announced_port : Unicode → Text → Option ℕ
unfolding matches digits_after
announced_port u [] = none
announced_port u (c ∷ s) =
    let rest = announced_port u s in
    first_of_two
      (if matches (c ∷ s) (codes "listening on port ")
        then front_number u (behind 18 (c ∷ s))
        else none)
      rest

-- What the process prints until the port is announced or the wait is over.
pub data Output : Type 0 where
  line : Text → Output → Output
  closed : Output
  silent : Output

-- `read_port` within its ten seconds
unfoldable pub read_port : Unicode → Output → Result ℕ
unfolding announced_port
read_port u (line s out) =
    let rest = read_port u out in elim (announced_port u s) [ none ↦ rest | some n ↦ ok n ]
read_port u closed = raise runtime_error "CLI process exited before announcing port"
read_port u silent = raise runtime_error "Timeout waiting for CLI server to start"
