-- ===== src/CopilotClient/Url/Accepts.antt =====
-- The addresses that `_parse_cli_url` accepts.
use copilot_sdk.Prelude.{
  ℕ, ◌<◌, ◌≤◌, ◌≡◌, ◌≢◌, refl, inr, true, false, [], ◌∷◌, ◌++◌, arith, ◌==◌, nonempty, All, ok,
}
use copilot_sdk.Text.{Text, Unicode, codes, starts_with, show}
use copilot_sdk.Text.Strip.{split-free, split-append}
use copilot_sdk.Text.Numbers.{
  ReadsDigits, IsDigit, show-digits, show-ne-nil, show-lacks, int_of-show,
}
use copilot_sdk.CopilotClient.Url.{without_protocol, all_digits, port_of, parse_cli_url}

-- The tables hold of ASCII: the ten digits are digits, and a colon is none.
pub record IsAscii (u : Unicode) : Type 0 where
  pub reads : ReadsDigits u
  pub digits : (c : ℕ) → IsDigit c → u.isdigit c ≡ true
  pub colon : u.isdigit b':' ≡ false

port_of-show :
    (u : Unicode) → ReadsDigits u → (n : ℕ) → 0 < n → n ≤ 65535 → port_of u (show n) ≡ ok n
unfolding port_of
port_of-show u reads n low high = rw (int_of-show u reads n) (ground arith)

all_digits-show : (u : Unicode) → IsAscii u → (s : Text) → All IsDigit s → all_digits u s ≡ true
unfolding all_digits
all_digits-show u a [] h = refl
all_digits-show u a (c ∷ s) (hc, hs) = rw (a.digits c hc) (all_digits-show u a s hs)

-- A text that begins with a digit has no protocol.
without_protocol-digit : (s : Text) → s ≢ [] → All IsDigit s → without_protocol s ≡ s
unfolding without_protocol starts_with
without_protocol-digit [] ne h = absurd (ne refl)
without_protocol-digit (c ∷ s) ne ((d, lt, e), hs) = ground arith

-- An address that is a port alone stands for that port of the local host.
pub parse_cli_url-port :
    (u : Unicode) (n : ℕ)
    → IsAscii u
    → 0 < n
    → n ≤ 65535
    → parse_cli_url u (show n) ≡ ok (codes "localhost", n)
unfolding parse_cli_url
parse_cli_url-port u n a low high =
    rw (without_protocol-digit (show n) (show-ne-nil n) (show-digits n)) (
      rw (all_digits-show u a (show n) (show-digits n))
        (rw (nonempty-show (show n) (show-ne-nil n)) (rw (port_of-show u a.reads n low high))))
  where
    nonempty-show : (s : Text) → s ≢ [] → nonempty s ≡ true
    nonempty-show [] h = absurd (h refl)
    nonempty-show (c ∷ s) h = refl

-- What may stand in front of the host.
pub data Protocol : Type 0 where
  plain http https : Protocol

abbrev pub protocol_text : Protocol → Text
protocol_text plain = []
protocol_text http = codes "http://"
protocol_text https = codes "https://"

-- No character of the text is a colon.
abbrev pub LacksColon : Text → Type 0
LacksColon = All (λ c. (c == b':') ≡ false)

starts_with-colon :
    (h p t q : Text) (d : ℕ)
    → LacksColon h
    → LacksColon p
    → (d == b'/') ≡ false
    → starts_with (h ++ (b':' ∷ d ∷ t)) (p ++ (b':' ∷ b'/' ∷ q)) ≡ false
unfolding starts_with
starts_with-colon [] [] t q d hh hp hd = ground (arith, hd)
starts_with-colon [] (e ∷ p) t q d hh (he, hp) hd = ground (arith, he)
starts_with-colon (c ∷ h) [] t q d (hc, hh) hp hd = ground (arith, hc)
starts_with-colon (c ∷ h) (e ∷ p) t q d (hc, hh) (he, hp) hd =
    ground (arith, starts_with-colon h p t q d hh hp hd)

plain-kept :
    (h port : Text)
    → LacksColon h
    → port ≢ []
    → All IsDigit port
    → without_protocol (h ++ b':' ∷ port) ≡ h ++ b':' ∷ port
unfolding without_protocol
plain-kept h [] hh ne hp = absurd (ne refl)
plain-kept h (d ∷ port) hh ne ((v, lt, e), hp) =
    let slash : (d == b'/') ≡ false = ground arith in
    rw (starts_with-colon h (codes "http") port (b'/' ∷ []) d hh (ground arith) slash)
      (rw (starts_with-colon h (codes "https") port (b'/' ∷ []) d hh (ground arith) slash))

without_protocol-text :
    (p : Protocol) (h port : Text)
    → LacksColon h
    → port ≢ []
    → All IsDigit port
    → without_protocol (protocol_text p ++ (h ++ b':' ∷ port)) ≡ h ++ b':' ∷ port
without_protocol-text plain h port hh ne hp = plain-kept h port hh ne hp
without_protocol-text http h port hh ne hp = unfold without_protocol starts_with in refl
without_protocol-text https h port hh ne hp = unfold without_protocol starts_with in refl

all_digits-colon :
    (u : Unicode) → IsAscii u → (h port : Text) → all_digits u (h ++ b':' ∷ port) ≡ false
unfolding all_digits
all_digits-colon u a [] port = rw a.colon
all_digits-colon u a (c ∷ h) port = rw (all_digits-colon u a h port) (ground arith)

-- A host with no colon and a port from 1 to 65535 are read back from their address, with either
-- protocol in front of them or none.
pub parse_cli_url-host :
    (u : Unicode) (p : Protocol) (c : ℕ) (host : Text) (n : ℕ)
    → IsAscii u
    → LacksColon (c ∷ host)
    → 0 < n
    → n ≤ 65535
    → parse_cli_url u (protocol_text p ++ ((c ∷ host) ++ b':' ∷ show n)) ≡ ok (c ∷ host, n)
unfolding parse_cli_url
parse_cli_url-host u p c host n a lacks low high =
    rw (without_protocol-text p (c ∷ host) (show n) lacks (show-ne-nil n) (show-digits n)) (
      rw (all_digits-colon u a (c ∷ host) (show n)) (
        rw (split-append b':' (c ∷ host) (show n) lacks) (
          rw (split-free b':' (show n) (show-lacks b':' n (inr (omega arith))))
            (rw (port_of-show u a.reads n low high)))))
