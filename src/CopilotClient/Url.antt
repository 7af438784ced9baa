-- ===== src/CopilotClient/Url.antt =====
-- The address of an external server: `_parse_cli_url` of python/copilot/client.py, over code points.
pub mod Accepts
use copilot_sdk.Prelude.{
  ℕ, zero, suc, ◌<◌, ◌≤◌, ◌≡◌, ◌≢◌, refl, Bool, true, false, ◌&&◌, ◌||◌, Option, none, some, List,
  [], ◌∷◌, arith, ltb, ◌==◌, if◌then◌else◌, if_both, nonempty, drop, Result, ok, err, raise,
  value_error, ◌>>=◌,
}
use mathlib.Core.Path.{subst}
use copilot_sdk.Prelude.Int.{ℤ, pos, negsuc}
use copilot_sdk.Text.{Text, Unicode, codes, starts_with, split, int_of}

-- `re.sub(r"^https?://", "", url)`
unfoldable pub without_protocol : Text → Text
without_protocol url =
    if starts_with url (codes "http://")
    then drop 7 url
    else if starts_with url (codes "https://")
    then drop 8 url
    else url

unfoldable pub all_digits : Unicode → Text → Bool
all_digits u [] = true
all_digits u (c ∷ s) = u.isdigit c && all_digits u s

-- The test on the port that both formats share.
unfoldable pub check_port : ℤ → Result ℕ
check_port (pos n) =
    if n == 0 || ltb 65535 n then raise value_error "Invalid port in cli_url" else ok n
check_port (negsuc n) = raise value_error "Invalid port in cli_url"

abbrev check_parsed : Option ℤ → Result ℕ
check_parsed none = raise value_error "Invalid port in cli_url"
check_parsed (some n) = check_port n

-- `int(text)` and the test, in either format; both failures are ValueErrors.
unfoldable pub port_of : Unicode → Text → Result ℕ
unfolding check_port
port_of u text = check_parsed (int_of u text)

abbrev host_or_default : Text → Text
host_or_default [] = codes "localhost"
host_or_default (c ∷ s) = c ∷ s

abbrev with_host : Text → Result ℕ → Result (Text × ℕ)
with_host host (ok n) = ok (host, n)
with_host host (err e) = err e

abbrev host_and_port : Unicode → List Text → Result (Text × ℕ)
host_and_port u (host ∷ port ∷ []) = with_host (host_or_default host) (port_of u port)
host_and_port u _ = raise value_error "Invalid cli_url format"

-- `_parse_cli_url`
unfoldable pub parse_cli_url : Unicode → Text → Result (Text × ℕ)
unfolding without_protocol all_digits
parse_cli_url u url =
    let clean_url = without_protocol url in
    if nonempty clean_url && all_digits u clean_url
    then with_host (codes "localhost") (port_of u clean_url)
    else host_and_port u (split b':' clean_url)

port_of_bounds : (u : Unicode) (text : Text) {n : ℕ} → port_of u text ≡ ok n → (0 < n) × (n ≤ 65535)
unfolding port_of
port_of_bounds u text h = ground arith

with_host_bounds :
    (host : Text) (r : Result ℕ) {host' : Text} {n : ℕ}
    → nonempty host ≡ true
    → ((m : ℕ) → r ≡ ok m → (0 < m) × (m ≤ 65535))
    → with_host host r ≡ ok (host', n)
    → (0 < n) × (n ≤ 65535) × (nonempty host' ≡ true)
with_host_bounds host (err e) some_host bound h = cc
with_host_bounds host (ok m) {host'} {n} some_host bound h =
    let (pos_m, small) = bound m refl in
    let same : m ≡ n = cc h in
    (subst (λ k. 0 < k) same pos_m, subst (λ k. k ≤ 65535) same small, cc (h, some_host))

nonempty-host_or_default : (host : Text) → nonempty (host_or_default host) ≡ true
nonempty-host_or_default [] = refl
nonempty-host_or_default (c ∷ s) = refl

host_and_port_bounds :
    (u : Unicode) (parts : List Text) {host : Text} {n : ℕ}
    → host_and_port u parts ≡ ok (host, n)
    → (0 < n) × (n ≤ 65535) × (nonempty host ≡ true)
host_and_port_bounds u (first ∷ text ∷ []) h =
    with_host_bounds (host_or_default first) (port_of u text) (nonempty-host_or_default first)
      (λ m e. port_of_bounds u text e) h
host_and_port_bounds u _ h = cc

-- An accepted address has a port from 1 to 65535 and a host that is not empty.
pub parse_cli_url_bounds :
    (u : Unicode) (url : Text) {host : Text} {port : ℕ}
    → parse_cli_url u url ≡ ok (host, port)
    → (0 < port) × (port ≤ 65535) × (nonempty host ≡ true)
unfolding parse_cli_url
parse_cli_url_bounds u url {host} {port} =
    let clean = without_protocol url in
    if_both {A = Result (Text × ℕ)}
      (λ r. r ≡ ok (host, port) → (0 < port) × (port ≤ 65535) × (nonempty host ≡ true))
      (nonempty clean && all_digits u clean)
      (with_host_bounds (codes "localhost") (port_of u clean) refl
        (λ m e. port_of_bounds u clean e))
      (host_and_port_bounds u (split b':' clean))
