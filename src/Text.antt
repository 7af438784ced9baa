-- ===== src/Text.antt =====
-- Python's `str` as a list of code points, for the code that takes texts apart.
pub mod Strip
pub mod Numbers
use Prim.Native.Char.{code}
use copilot_sdk.Prelude.{
  ℕ, zero, suc, ◌+◌, ◌-◌, ◌*◌, ◌/◌, ◌%◌, String, Bool, true, false, ◌&&◌, ◌||◌, Option, none, some,
  List, [], ◌∷◌, ltb, leb, ◌==◌, if◌then◌else◌,
}
use copilot_sdk.Prelude.Int.{ℤ, pos, neg}

abbrev pub Text : Type 0
Text = List ℕ

-- The code points of a literal.
abbrev pub codes : String → Text
codes String.[] = []
codes (String.◌∷◌ c s) = code c ∷ codes s

-- What the code asks of the Unicode tables.
pub record Unicode : Type 0 where
  -- the value of a decimal digit of any script, as `int()` reads it
  pub decimal : ℕ → Option ℕ
  -- `str.isdigit` of one character
  pub isdigit : ℕ → Bool

-- `str.isspace` of one character: what `strip` removes.
unfoldable pub is_space : ℕ → Bool
is_space c =
    leb 9 c && leb c 13
    || leb 28 c && leb c 32
    || c == 0x85
    || c == 0xa0
    || c == 0x1680
    || leb 0x2000 c && leb c 0x200a
    || c == 0x2028
    || c == 0x2029
    || c == 0x202f
    || c == 0x205f
    || c == 0x3000

unfoldable pub lstrip : Text → Text
unfolding is_space
lstrip [] = []
lstrip (c ∷ s) = let rest = lstrip s in if is_space c then rest else c ∷ s

abbrev keep_or_drop : ℕ → Text → Text
keep_or_drop c [] = if is_space c then [] else c ∷ []
keep_or_drop c (d ∷ s) = c ∷ d ∷ s

unfoldable pub rstrip : Text → Text
unfolding is_space
rstrip [] = []
rstrip (c ∷ s) = keep_or_drop c (rstrip s)

-- `s.strip()`
unfoldable pub strip : Text → Text
unfolding lstrip rstrip
strip s = lstrip (rstrip s)

-- `s.startswith(p)`
unfoldable pub starts_with : Text → Text → Bool
starts_with s [] = true
starts_with [] (d ∷ p) = false
starts_with (c ∷ s) (d ∷ p) = c == d && starts_with s p

abbrev cons_head : ℕ → List Text → List Text
cons_head c [] = (c ∷ []) ∷ []
cons_head c (part ∷ parts) = (c ∷ part) ∷ parts

-- `s.split(sep)` at a separator of one character
unfoldable pub split : ℕ → Text → List Text
split sep [] = [] ∷ []
split sep (c ∷ s) = let rest = split sep s in if c == sep then [] ∷ rest else cons_head c rest

-- The digits of `int()`: single underscores may stand between two digits.
scan : Unicode → Bool → ℕ → Text → Option ℕ
scan u after_digit n [] = if after_digit then some n else none
scan u after_digit n (c ∷ s) =
    let skip = scan u false n s in
    let next : Option ℕ = elim (u.decimal c) [
      | none ↦ none
      | some d ↦ scan u true (n * 10 + d) s
    ] in
    if c == b'_' then (if after_digit then skip else none) else next

abbrev signed : (ℕ → ℤ) → Option ℕ → Option ℤ
signed sign none = none
signed sign (some n) = some (sign n)

signed_digits : Unicode → Text → Option ℤ
unfolding scan
signed_digits u [] = none
signed_digits u (c ∷ s) =
    if c == b'-'
    then signed neg (scan u false 0 s)
    else if c == b'+'
    then signed pos (scan u false 0 s)
    else signed pos (scan u false 0 (c ∷ s))

-- `int(s)`; `none` is a ValueError. The interpreter's limit on the number of digits is left out.
unfoldable pub int_of : Unicode → Text → Option ℤ
unfolding signed_digits strip
int_of u s = signed_digits u (strip s)

show_from : ℕ → ℕ → Text → Text
show_from zero n out = out
show_from (suc f) n out = elim (ltb n 10) [
  | true ↦ (48 + n) ∷ out
  | false ↦ show_from f (n / 10) ((48 + n % 10) ∷ out)
]

-- `str(n)` of a number that is not negative
unfoldable pub show : ℕ → Text
unfolding show_from
show n = show_from (suc n) n []
