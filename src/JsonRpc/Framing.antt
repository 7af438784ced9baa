-- ===== src/JsonRpc/Framing.antt =====
-- Messages on the wire, `_send_message` and `_read_message` of python/copilot/jsonrpc.py: a
-- Content-Length header, a blank line and a JSON body. The read side sees the pipe as the chunks in
-- which the bytes arrive, and may get fewer bytes from a read than it asks for.
pub mod Termination
pub mod Reads
pub mod RoundTrip
use copilot_sdk.Prelude.{
  ℕ, zero, suc, ◌-◌, String, Bool, true, false, not, Option, none, some, List, [], ◌∷◌, ◌++◌, ltb,
  ◌==◌, if◌then◌else◌, length, take, drop, nonempty, Result, ok, err, Error, raise, eof_error,
  value_error, ◌>>=◌,
}
use copilot_sdk.Prelude.Int.{ℤ, clamp}
use copilot_sdk.Value.{Value, truthy}
use copilot_sdk.Text.{Text, Unicode, codes, strip, starts_with, split, int_of, show}

abbrev pub Bytes : Type 0
Bytes = List ℕ

-- Python's `json` and the UTF-8 codec.
pub record Codec : Type 0 where
  -- `json.dumps(message, separators=(",", ":")).encode("utf-8")`
  pub dumps : Value → Bytes
  -- `json.loads(content.decode("utf-8"))`
  pub loads : Bytes → Result Value
  -- `header_line.decode("utf-8")`
  pub decode : Bytes → Result Text
  pub unicode : Unicode

-- The bytes that `write` puts on the pipe for one message.
unfoldable pub frame : Codec → Value → Bytes
frame c message =
    let content = c.dumps message in
    codes "Content-Length: " ++ (show (length content) ++ (13 ∷ 10 ∷ 13 ∷ 10 ∷ content))

-- What is still to come, in the chunks in which it arrives. No chunk is left at the end of file.
abbrev pub Stream : Type 0
Stream = List Bytes

unfoldable pub flatten : Stream → Bytes
flatten [] = []
flatten (bs ∷ s) = bs ++ flatten s

-- `stdout.read(n)` for n > 0 on an unbuffered pipe: at most `n` bytes, and none at the end of file.
unfoldable pub read : ℕ → Stream → Bytes × Stream
read n [] = ([], [])
read n ([] ∷ s) = read n s
read n ((b ∷ bs) ∷ s) = (take n (b ∷ bs), drop n (b ∷ bs) ∷ s)

-- The bytes up to the first newline, and what stands behind it if there is one.
unfoldable pub break_line : Bytes → Bytes × Option Bytes
break_line [] = ([], none)
break_line (b ∷ bs) =
    let rest = break_line bs in if b == 10 then (10 ∷ [], some bs) else (b ∷ rest.0, rest.1)

-- `stdout.readline()`
unfoldable pub readline : Stream → Bytes × Stream
readline [] = ([], [])
readline (bs ∷ s) =
    let rest = readline s in
    elim (break_line bs).1 [
      | none ↦ ((break_line bs).0 ++ rest.0, rest.1)
      | some left ↦ ((break_line bs).0, left ∷ s)
    ]

-- The loop of `_read_exact`, with the bytes collected so far and one round of fuel for each byte.
unfoldable pub read_loop : ℕ → ℕ → Bytes → Stream → Result Bytes × Stream
read_loop zero remaining chunks s =
    if ltb 0 remaining then (raise eof_error "out of fuel", s) else (ok chunks, s)
read_loop (suc fuel) remaining chunks s =
    let got = read remaining s in
    let rest = read_loop fuel (remaining - length got.0) (chunks ++ got.0) got.1 in
    if ltb 0 remaining
    then (if nonempty got.0
        then rest
        else (raise eof_error "Unexpected end of stream while reading JSON-RPC message", got.1))
    else (ok chunks, s)

-- `_read_exact`
unfoldable pub read_exact : ℕ → Stream → Result Bytes × Stream
unfolding read_loop
read_exact num_bytes s = read_loop num_bytes num_bytes [] s

-- `header.split(":")[1]`; the caller has seen the colon.
abbrev pub second : List Text → Text
second [] = []
second (_ ∷ []) = []
second (_ ∷ part ∷ _) = part

abbrev number_or_raise : Option ℤ → Result (Option ℤ)
number_or_raise none = raise value_error "invalid literal for int() with base 10"
number_or_raise (some n) = ok (some n)

-- The content length of a decoded header line; `none` for a line that is no such header.
content_length : Codec → Text → Result (Option ℤ)
content_length c header =
    if starts_with header (codes "Content-Length:")
    then number_or_raise (int_of c.unicode (strip (second (split b':' header))))
    else ok none

unfoldable pub parse_header : Codec → Bytes → Result (Option ℤ)
unfolding content_length
parse_header c header_line = do text ← c.decode header_line; content_length c (strip text)

-- The content, once the header is known: a blank line, then the bytes announced.
unfoldable pub read_content : Codec → Result (Option ℤ) → Stream → Result (Option Value) × Stream
read_content c (err e) s = (err e, s)
read_content c (ok none) s = (ok none, s)
read_content c (ok (some n)) s =
    let (content, left) = read_exact (clamp n) (readline s).1 in
    (content >>= λ bytes. c.loads bytes >>= λ message. ok (some message), left)

-- `_read_message`: `none` means that the connection is closed.
unfoldable pub read_message : Codec → Stream → Result (Option Value) × Stream
unfolding parse_header read_content
read_message c s =
    let (header_line, left) = readline s in
    if nonempty header_line
    then read_content c (parse_header c header_line) left
    else (ok none, left)

-- How the loop of `_read_loop` ends: by a closed stream or an empty message, or by an exception.
pub data Ending : Type 0 where
  closed : Ending
  failed : Error → Ending
  out_of_fuel : Ending

-- The messages that `_read_loop` hands to `_handle_message`, while the client runs.
unfoldable pub read_messages : ℕ → Codec → Stream → List Value × Ending
read_messages zero c s = ([], out_of_fuel)
read_messages (suc fuel) c s =
    let (message, left) = read_message c s in
    let rest = read_messages fuel c left in
    elim message [
      | err e ↦ ([], failed e)
      | ok none ↦ ([], closed)
      | ok (some v) ↦ if truthy v then (v ∷ rest.0, rest.1) else ([], closed)
    ]
