-- ===== src/JsonRpc/Framing/Termination.antt =====
-- The loop of the reading thread ends: every message takes at least one byte from the stream.
use copilot_sdk.Prelude.{
  ℕ, zero, suc, ◌+◌, ◌-◌, ◌≤◌, ◌<◌, ◌≡◌, ◌≢◌, refl, ap, if◌then◌else◌, Option, none, some, List, [],
  ◌∷◌, ◌++◌, arith, length, length-append, nonempty, if_split, if_both, Result, ok, err,
}
use copilot_sdk.Value.{Value, truthy}
use copilot_sdk.Prelude.Int.{ℤ}
use copilot_sdk.JsonRpc.Framing.{
  Codec, Bytes, Stream, flatten, read, break_line, readline, read_loop, read_exact, parse_header,
  clamp, read_content, read_message, read_messages, Ending, closed, failed, out_of_fuel,
}
use copilot_sdk.JsonRpc.Framing.Reads.{read-flatten, readline-flatten, left_or_nil, length-nonempty}

break_line-length :
    (bs : Bytes) → length (break_line bs).0 + length (left_or_nil (break_line bs).1) ≡ length bs
unfolding break_line
break_line-length [] = refl
break_line-length (b ∷ bs) = ground (arith, break_line-length bs)

readline-length :
    (s : Stream) → length (readline s).0 + length (flatten (readline s).1) ≡ length (flatten s)
readline-length s =
    let (line, left) = readline-flatten s in
    omega (arith, ap length line, ap length left, break_line-length (flatten s))

read_loop-length :
    (fuel remaining : ℕ) (chunks : Bytes) (s : Stream)
    → length (flatten (read_loop fuel remaining chunks s).1) ≤ length (flatten s)
unfolding read_loop
read_loop-length zero remaining chunks s = ground arith
read_loop-length (suc fuel) remaining chunks s =
    let got = read remaining s in
    ground (
      arith,
      read_loop-length fuel (remaining - length got.0) (chunks ++ got.0) got.1,
      ap length (read-flatten remaining s),
      length-append got.0 (flatten got.1),
    )

read_content-length :
    (c : Codec) (n : Result (Option ℤ)) (s : Stream)
    → length (flatten (read_content c n s).1) ≤ length (flatten s)
unfolding read_content read_exact
read_content-length c (err e) s = omega arith
read_content-length c (ok none) s = omega arith
read_content-length c (ok (some n)) s =
    omega (arith, readline-length s, read_loop-length (clamp n) (clamp n) [] (readline s).1)

-- A message takes at least one byte.
read_message-length :
    (c : Codec) (s : Stream) (v : Value)
    → (read_message c s).0 ≡ ok (some v)
    → length (flatten (read_message c s).1) < length (flatten s)
unfolding read_message
read_message-length c s v =
    let (line, left) = readline s in
    if_split (λ r. r.0 ≡ ok (some v) → length (flatten r.1) < length (flatten s)) (nonempty line)
      (read_content c (parse_header c line) left) (ok none, left)
      (λ more _. omega (
        arith,
        length-nonempty line more,
        readline-length s,
        read_content-length c (parse_header c line) left,
      ))
      (λ _ e. cc)

-- One round of the loop, from the message that is read and what the other rounds give
abbrev round : Result (Option Value) → List Value × Ending → List Value × Ending
round message rest = elim message [
  | err e ↦ ([], failed e)
  | ok none ↦ ([], closed)
  | ok (some v) ↦ if truthy v then (v ∷ rest.0, rest.1) else ([], closed)
]

abbrev Ends : List Value × Ending → Type 0
Ends r = r.1 ≢ out_of_fuel

closed-Ends : (vs : List Value) → Ends (vs, closed)
closed-Ends vs e = cc

round-Ends :
    (message : Result (Option Value)) (rest other : List Value × Ending)
    → ((v : Value) → message ≡ ok (some v) → Ends rest × (rest ≡ other))
    → Ends (round message rest) × (round message rest ≡ round message other)
round-Ends (err e) rest other h = ((λ x. cc), refl)
round-Ends (ok none) rest other h = ((λ x. cc), refl)
round-Ends (ok (some v)) rest other h =
    let (ends, same) = h v refl in
    (
      if_both Ends (truthy v) {x = (v ∷ rest.0, rest.1)} ends (closed-Ends []),
      ap (round (ok (some v))) same,
    )

enough :
    (fuel more : ℕ) (c : Codec) (s : Stream)
    → length (flatten s) < fuel
    → length (flatten s) < more
    → Ends (read_messages fuel c s) × (read_messages fuel c s ≡ read_messages more c s)
unfolding read_messages
enough zero more c s l k = absurd (omega arith)
enough (suc fuel) zero c s l k = absurd (omega arith)
enough (suc fuel) (suc more) c s l k =
    let left = (read_message c s).1 in
    round-Ends (read_message c s).0 (read_messages fuel c left) (read_messages more c left) λ v got.
      let shorter = read_message-length c s v got in
      enough fuel more c left (omega arith) (omega arith)

-- With more rounds of fuel than the stream has bytes, the loop of the reading thread ends for a reason of its
-- own, a closed stream or an exception, and further fuel changes neither its messages nor its end.
pub read_messages-ends :
    (fuel : ℕ) (c : Codec) (s : Stream)
    → length (flatten s) < fuel
    → ((read_messages fuel c s).1 ≢ out_of_fuel)
      × ((more : ℕ) → read_messages (fuel + more) c s ≡ read_messages fuel c s)
read_messages-ends fuel c s l =
    ((enough fuel fuel c s l l).0, λ more. (enough (fuel + more) fuel c s (omega arith) l).1)
