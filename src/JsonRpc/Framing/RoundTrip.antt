-- ===== src/JsonRpc/Framing/RoundTrip.antt =====
-- Reading back what was written: `_read_message` after `_send_message`.
use copilot_sdk.Prelude.{
  ℕ, suc, ◌<◌, ◌≡◌, ◌≢◌, refl, ap, ◌∙◌, true, false, none, some, List, [], ◌∷◌, ◌++◌, append_assoc,
  arith, ◌==◌, length, All, All-append, ok, inl, inr,
}
use copilot_sdk.Prelude.Int.{pos}
use copilot_sdk.Value.{Value, truthy}
use copilot_sdk.Text.{Text, codes, rstrip, lstrip, strip, starts_with, show, is_space}
use copilot_sdk.Text.Strip.{
  Solid, Blank, rstrip-append, rstrip-append_Blank, rstrip-Solid, lstrip-Solid, split-append,
  split-free,
}
use copilot_sdk.Text.Numbers.{
  ReadsDigits, show-ne-nil, show-digits, show-Solid, show-lacks, int_of-show, All-digits,
}
use copilot_sdk.JsonRpc.Framing.{
  Bytes, Codec, Stream, frame, flatten, break_line, readline, content_length, parse_header,
  read_content, read_message, read_messages, closed,
}
use copilot_sdk.JsonRpc.Framing.Reads.{read_exact-append, readline-flatten, left_or_nil}

-- UTF-8 reads ASCII bytes as themselves.
abbrev pub DecodesAscii : Codec → Type 0
DecodesAscii c = (bs : Bytes) → All (λ b. b < 128) bs → c.decode bs ≡ ok bs

break_line-lacks :
    (xs ys : Bytes)
    → All (λ b. (b == 10) ≡ false) xs
    → break_line (xs ++ ys) ≡ (xs ++ (break_line ys).0, (break_line ys).1)
unfolding break_line
break_line-lacks [] ys h = refl
break_line-lacks (x ∷ xs) ys (hx, hs) = rw (hx, break_line-lacks xs ys hs)

-- The header line of a message of `n` bytes, without its line end.
abbrev title : ℕ → Text
title n = codes "Content-Length: " ++ show n

abbrev crlf : Bytes
crlf = 13 ∷ 10 ∷ []

title-lacks : (n : ℕ) → All (λ b. (b == 10) ≡ false) (title n)
title-lacks n =
    All-append (λ b. (b == 10) ≡ false) (codes "Content-Length: ") (show n) (ground arith)
      (show-lacks 10 n (inl (omega arith)))

line-ascii : (n : ℕ) → All (λ b. b < 128) (title n ++ crlf)
line-ascii n =
    All-append (λ b. b < 128) (title n) crlf
      (All-append (λ b. b < 128) (codes "Content-Length: ") (show n) (omega arith)
        (All-digits (show n) (λ b (d, lt, e). omega arith) (show-digits n)))
      (omega arith)

rstrip_front :
    (p s : Text) (w : Text) → s ≢ [] → Solid s → Blank w → rstrip (p ++ (s ++ w)) ≡ p ++ s
rstrip_front p [] w ne hs hw = absurd (ne refl)
rstrip_front p (c ∷ s) w ne hs hw =
    rstrip-append p ((c ∷ s) ++ w) c s (rstrip-append_Blank (c ∷ s) w hs hw)

strip-line : (n : ℕ) → strip (title n ++ crlf) ≡ title n
unfolding strip
strip-line n =
    ap lstrip (
      ap rstrip (append_assoc (codes "Content-Length: ") (show n) crlf)
      ∙ rstrip_front (codes "Content-Length: ") (show n) crlf (show-ne-nil n) (show-Solid n)
          (unfold is_space in (refl, (refl, tt))))
    ∙ lstrip-Solid b'C' _ (unfold is_space in refl)

strip_blank : (s : Text) → Solid s → s ≢ [] → strip (32 ∷ s) ≡ s
unfolding strip lstrip
strip_blank [] hs ne = absurd (ne refl)
strip_blank (c ∷ s) hs ne =
    ap lstrip (rstrip-append (32 ∷ []) (c ∷ s) c s (rstrip-Solid (c ∷ s) hs))
    ∙ lstrip-Solid c s hs.0

module _ (c : Codec) (reads : ReadsDigits c.unicode) (ascii : DecodesAscii c) where
  content_length-title : (n : ℕ) → content_length c (title n) ≡ ok (some (pos n))
  unfolding content_length starts_with
  content_length-title n =
      rw (split-append b':' (codes "Content-Length") (32 ∷ show n) (ground arith)) (
        rw (split-free b':' (32 ∷ show n) (refl, show-lacks b':' n (inr (omega arith)))) (
          rw (strip_blank (show n) (show-Solid n) (show-ne-nil n))
            (rw (int_of-show c.unicode reads n))))

  parse_header-line : (n : ℕ) → parse_header c (title n ++ crlf) ≡ ok (some (pos n))
  unfolding parse_header
  parse_header-line n =
      rw (ascii (title n ++ crlf) (line-ascii n)) (rw (strip-line n) (content_length-title n))

  -- What the two calls of `readline` leave of a message: first the header line, then the blank one.
  break_line-frame :
      (v : Value) (rest : Bytes)
      → break_line (frame c v ++ rest)
        ≡ (title (length (c.dumps v)) ++ crlf, some (13 ∷ 10 ∷ (c.dumps v ++ rest)))
  unfolding frame
  break_line-frame v rest =
      let n = length (c.dumps v) in
      let tail : Bytes = 13 ∷ 10 ∷ 13 ∷ 10 ∷ c.dumps v in
      ap break_line (ap (λ t. codes "Content-Length: " ++ t) (append_assoc (show n) tail rest))
      ∙ break_line-lacks (title n) (tail ++ rest) (title-lacks n)
      ∙ unfold break_line in refl

  read_content-append :
      (v : Value) (rest : Bytes) (left : Stream)
      → c.loads (c.dumps v) ≡ ok v
      → flatten left ≡ 13 ∷ 10 ∷ (c.dumps v ++ rest)
      → ((read_content c (ok (some (pos (length (c.dumps v))))) left).0 ≡ ok (some v))
        × (flatten (read_content c (ok (some (pos (length (c.dumps v))))) left).1 ≡ rest)
  unfolding read_content
  read_content-append v rest left loads e =
      let blank : flatten (readline left).1 ≡ c.dumps v ++ rest =
        (readline-flatten left).1
        ∙ ap (λ t. left_or_nil (break_line t).1) e
        ∙ unfold break_line in refl in
      let (got, behind) = read_exact-append (readline left).1 (c.dumps v) rest blank in
      (rw got (rw loads), behind)

  -- A message that was written, and that the codec loads from what it dumps, is read back whole, however
  -- the pipe cuts it into chunks, and the bytes behind it stay for the next read, when the codec decodes
  -- ASCII as itself and the Unicode tables know the ASCII digits.
  pub read_message-frame :
      (v : Value) (rest : Bytes) (s : Stream)
      → c.loads (c.dumps v) ≡ ok v
      → flatten s ≡ frame c v ++ rest
      → ((read_message c s).0 ≡ ok (some v)) × (flatten (read_message c s).1 ≡ rest)
  read_message-frame v rest s loads e =
      let n = length (c.dumps v) in
      let (line, left) = readline-flatten s in
      let found = ap break_line e ∙ break_line-frame v rest in
      let header : (readline s).0 ≡ title n ++ crlf = line ∙ ap (λ t. t.0) found in
      let content : flatten (readline s).1 ≡ 13 ∷ 10 ∷ (c.dumps v ++ rest) =
        left ∙ ap (λ t. left_or_nil t.1) found in
      let whole : read_message c s ≡ read_content c (ok (some (pos n))) (readline s).1 =
        unfold read_message in rw header (rw (parse_header-line n)) in
      rw whole (read_content-append v rest (readline s).1 loads content)

  -- What `write` puts on the pipe for several messages, one after the other.
  abbrev pub frames : List Value → Bytes
  frames [] = []
  frames (v ∷ vs) = frame c v ++ frames vs

  -- The other side can decode the message, and the message is not empty.
  abbrev pub IsSent : Value → Type 0
  IsSent v = (c.loads (c.dumps v) ≡ ok v) × (truthy v ≡ true)

  -- The reading thread hands over exactly the messages that were written, in order, and then sees the
  -- end of the stream, when every message can be decoded and none is empty, however the pipe cuts
  -- the bytes into chunks, under the same conditions on the codec: it decodes ASCII as itself, and its
  -- tables know the ASCII digits. One round for each message and one for the end are enough.
  pub read_messages-frames :
      (vs : List Value) (s : Stream)
      → All IsSent vs
      → flatten s ≡ frames vs
      → read_messages (suc (length vs)) c s ≡ (vs, closed)
  unfolding read_messages
  read_messages-frames [] s h e =
      let line : (readline s).0 ≡ [] =
        (readline-flatten s).0 ∙ ap (λ t. (break_line t).0) e ∙ unfold break_line in refl in
      let none_left : (read_message c s).0 ≡ ok none = unfold read_message in rw line in
      rw (none_left, read_messages)
  read_messages-frames (v ∷ vs) s ((loads, some_v), h) e =
      let (got, left) = read_message-frame v (frames vs) s loads e in
      rw (got, read_messages) (rw some_v (rw (read_messages-frames vs (read_message c s).1 h left)))
