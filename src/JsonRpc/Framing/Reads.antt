-- ===== src/JsonRpc/Framing/Reads.antt =====
-- Short reads: what is read depends on the bytes of the stream and not on its chunks.
use copilot_sdk.Prelude.{
  ℕ, zero, suc, ◌-◌, ◌≤◌, ◌<◌, ◌≡◌, refl, sym, ap, ◌∙◌, true, false, Option, none, some, [], ◌∷◌,
  ◌++◌, append-nil, append_assoc, arith, length, take, drop, nonempty, length-append, ok, raise,
  eof_error, Bool-cases, Option-cases, inl, inr, take-append-drop, length-take_le, append_split,
}
use copilot_sdk.JsonRpc.Framing.{
  Bytes, Stream, flatten, read, break_line, readline, read_loop, read_exact,
}

-- A read gives bytes from the front of the stream, and leaves the others.
pub read-flatten : (n : ℕ) (s : Stream) → (read n s).0 ++ flatten (read n s).1 ≡ flatten s
unfolding read flatten
read-flatten n [] = refl
read-flatten n ([] ∷ s) = read-flatten n s
read-flatten n ((b ∷ bs) ∷ s) =
    sym (append_assoc (take n (b ∷ bs)) (drop n (b ∷ bs)) (flatten s))
    ∙ ap (λ t. t ++ flatten s) (take-append-drop n (b ∷ bs))

nonempty-read : (n : ℕ) (s : Stream) → 0 < n → nonempty (read n s).0 ≡ nonempty (flatten s)
unfolding read flatten
nonempty-read n [] h = refl
nonempty-read n ([] ∷ s) h = nonempty-read n s h
nonempty-read zero ((b ∷ bs) ∷ s) h = absurd (omega arith)
nonempty-read (suc n) ((b ∷ bs) ∷ s) h = refl

length-read : (n : ℕ) (s : Stream) → length (read n s).0 ≤ n
unfolding read
length-read n [] = omega arith
length-read n ([] ∷ s) = length-read n s
length-read n ((b ∷ bs) ∷ s) = length-take_le n (b ∷ bs)

pub length-nonempty : (xs : Bytes) → nonempty xs ≡ true → 0 < length xs
length-nonempty [] h = cc
length-nonempty (x ∷ xs) h = omega arith

nonempty-length : (xs : Bytes) → 0 < length xs → nonempty xs ≡ true
nonempty-length [] h = absurd (omega arith)
nonempty-length (x ∷ xs) h = refl

nil-length : (xs : Bytes) → length xs ≡ 0 → xs ≡ []
nil-length [] h = refl
nil-length (x ∷ xs) h = absurd (omega arith)

-- One round of the loop of `_read_exact` that gets some bytes, and one that meets the end.
read_loop_round :
    (fuel remaining : ℕ) (chunks : Bytes) (s : Stream)
    → 0 < remaining
    → nonempty (read remaining s).0 ≡ true
    → read_loop (suc fuel) remaining chunks s
      ≡ read_loop fuel
          (remaining - length (read remaining s).0)
          (chunks ++ (read remaining s).0)
          (read remaining s).1
read_loop_round fuel remaining chunks s h e = unfold read_loop in ground arith

read_loop_eof :
    (fuel remaining : ℕ) (chunks : Bytes) (s : Stream)
    → 0 < remaining
    → nonempty (read remaining s).0 ≡ false
    → (read_loop (suc fuel) remaining chunks s).0
      ≡ raise eof_error "Unexpected end of stream while reading JSON-RPC message"
read_loop_eof fuel remaining chunks s h e = unfold read_loop in ground arith

read_loop_done :
    (fuel : ℕ) (chunks : Bytes) (s : Stream) → read_loop fuel 0 chunks s ≡ (ok chunks, s)
unfolding read_loop
read_loop_done zero chunks s = refl
read_loop_done (suc fuel) chunks s = refl

read_loop-enough :
    (fuel remaining : ℕ) (chunks : Bytes) (s : Stream) (xs ys : Bytes)
    → remaining ≤ fuel
    → length xs ≡ remaining
    → flatten s ≡ xs ++ ys
    → ((read_loop fuel remaining chunks s).0 ≡ ok (chunks ++ xs))
      × (flatten (read_loop fuel remaining chunks s).1 ≡ ys)
read_loop-enough fuel zero chunks s xs ys h l e =
    let nil : xs ≡ [] = nil-length xs l in
    rw (read_loop_done fuel chunks s) (rw nil (sym (ap ok (append-nil chunks)), rw nil at e))
read_loop-enough zero (suc n) chunks s xs ys h l e = absurd (omega arith)
read_loop-enough (suc fuel) (suc n) chunks s xs ys h l e =
    let got = read (suc n) s in
    let (zs, front, back) =
      append_split got.0 (flatten got.1) xs ys (read-flatten (suc n) s ∙ e)
        (omega (arith, length-read (suc n) s)) in
    let more : nonempty got.0 ≡ true =
      nonempty-read (suc n) s (omega arith)
      ∙ nonempty-length (flatten s) (omega (arith, ap length e, length-append xs ys)) in
    let (done, left) =
      read_loop-enough fuel (suc n - length got.0) (chunks ++ got.0) got.1 zs ys
        (omega (arith, length-nonempty got.0 more))
        (omega (arith, ap length front, length-append got.0 zs)) back in
    rw (read_loop_round fuel (suc n) chunks s (omega arith) more)
      (done ∙ ap ok (append_assoc chunks got.0 zs ∙ ap (λ t. chunks ++ t) (sym front)), left)

read_loop-short :
    (fuel remaining : ℕ) (chunks : Bytes) (s : Stream)
    → remaining ≤ fuel
    → length (flatten s) < remaining
    → (read_loop fuel remaining chunks s).0
      ≡ raise eof_error "Unexpected end of stream while reading JSON-RPC message"
read_loop-short zero remaining chunks s h l = absurd (omega arith)
read_loop-short (suc fuel) remaining chunks s h l =
    let got = read remaining s in
    elim (Bool-cases (nonempty got.0)) [
      | inl more ↦ rw (read_loop_round fuel remaining chunks s (omega arith) more) (
          read_loop-short fuel (remaining - length got.0) (chunks ++ got.0) got.1
            (omega (arith, length-nonempty got.0 more))
            (omega (
              arith,
              length-nonempty got.0 more,
              ap length (read-flatten remaining s),
              length-append got.0 (flatten got.1),
            )))
      | inr stop ↦ read_loop_eof fuel remaining chunks s (omega arith) stop
    ]

-- `_read_exact` returns the next `num_bytes` bytes of the stream, in whatever chunks they arrive, and
-- leaves the bytes behind them.
pub read_exact-append :
    (s : Stream) (xs ys : Bytes)
    → flatten s ≡ xs ++ ys
    → ((read_exact (length xs) s).0 ≡ ok xs) × (flatten (read_exact (length xs) s).1 ≡ ys)
unfolding read_exact
read_exact-append s xs ys e =
    read_loop-enough (length xs) (length xs) [] s xs ys (omega arith) refl e

-- `_read_exact` raises EOFError when the stream ends before `num_bytes` bytes.
pub read_exact-short :
    (num_bytes : ℕ) (s : Stream)
    → length (flatten s) < num_bytes
    → (read_exact num_bytes s).0
      ≡ raise eof_error "Unexpected end of stream while reading JSON-RPC message"
unfolding read_exact
read_exact-short num_bytes s l = read_loop-short num_bytes num_bytes [] s (omega arith) l

break_line-none : (bs : Bytes) → (break_line bs).1 ≡ none → (break_line bs).0 ≡ bs
unfolding break_line
break_line-none [] h = refl
break_line-none (b ∷ bs) h = ground (arith, break_line-none bs)

break_line-append_none :
    (bs cs : Bytes)
    → (break_line bs).1 ≡ none
    → break_line (bs ++ cs) ≡ ((break_line bs).0 ++ (break_line cs).0, (break_line cs).1)
unfolding break_line
break_line-append_none [] cs h = refl
break_line-append_none (b ∷ bs) cs h = ground (arith, break_line-append_none bs cs)

break_line-append_some :
    (bs cs left : Bytes)
    → (break_line bs).1 ≡ some left
    → break_line (bs ++ cs) ≡ ((break_line bs).0, some (left ++ cs))
unfolding break_line
break_line-append_some [] cs left h = cc
break_line-append_some (b ∷ bs) cs left h = ground (arith, break_line-append_some bs cs left)

abbrev pub left_or_nil : Option Bytes → Bytes
left_or_nil none = []
left_or_nil (some bs) = bs

-- `readline` gives the first line of the stream's bytes, and leaves what stands behind it.
pub readline-flatten :
    (s : Stream)
    → ((readline s).0 ≡ (break_line (flatten s)).0)
      × (flatten (readline s).1 ≡ left_or_nil (break_line (flatten s)).1)
unfolding readline flatten
readline-flatten [] = unfold break_line in (refl, refl)
readline-flatten (bs ∷ s) = elim (Option-cases (break_line bs).1) [
  | inl whole ↦
      ground (arith, whole, break_line-append_none bs (flatten s) whole, readline-flatten s)
  | inr (left, found) ↦ ground (arith, found, break_line-append_some bs (flatten s) left found)
]
