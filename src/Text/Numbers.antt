-- ===== src/Text/Numbers.antt =====
-- Decimal numbers read back: `int(str(n)) == n`.
use copilot_sdk.Prelude.{
  ℕ, zero, suc, ◌+◌, ◌*◌, ◌/◌, ◌%◌, ◌<◌, ◌≡◌, refl, sym, ◌∙◌, Bool, true, false, some, [], ◌∷◌,
  arith, All, ◌==◌, ◌⊎◌, ◌≢◌, ap, ◌≤◌,
}
use mathlib.Core.Path.{subst}
use mathlib.Core.List.{cons-ne-nil}
use native.Mathlib.Decide.{dec_lt}
use copilot_sdk.Prelude.Int.{pos}
use copilot_sdk.Text.{Text, Unicode, is_space, scan, signed_digits, int_of, show_from, show}
use copilot_sdk.Text.Strip.{strip-Solid, Solid}

-- The tables agree with ASCII on the ten decimal digits.
abbrev pub ReadsDigits : Unicode → Type 0
ReadsDigits u = (d : ℕ) → d < 10 → u.decimal (48 + d) ≡ some d

abbrev pub IsDigit : ℕ → Type 0
IsDigit c = (d : ℕ) × (d < 10) × (c ≡ 48 + d)

show_from_last : (f n : ℕ) (out : Text) → n < 10 → show_from (suc f) n out ≡ (48 + n) ∷ out
unfolding show_from
show_from_last f n out h = ground arith

show_from_more :
    (f n : ℕ) (out : Text)
    → 10 ≤ n
    → show_from (suc f) n out ≡ show_from f (n / 10) ((48 + n % 10) ∷ out)
unfolding show_from
show_from_more f n out h = ground arith

show_from-digits : (f n : ℕ) (out : Text) → All IsDigit out → All IsDigit (show_from f n out)
show_from-digits zero n out h = unfold show_from in h
show_from-digits (suc f) n out h = elim (dec_lt n 10) [
  | yes small ↦ subst (All IsDigit) (sym (show_from_last f n out small)) ((n, small, refl), h)
  | no large ↦
      subst (All IsDigit) (sym (show_from_more f n out (omega arith)))
        (show_from-digits f (n / 10) ((48 + n % 10) ∷ out) ((n % 10, omega arith, refl), h))
]

show_from-ne-nil : (f n : ℕ) (c : ℕ) (out : Text) → show_from f n (c ∷ out) ≢ []
show_from-ne-nil zero n c out = unfold show_from in cons-ne-nil c out
show_from-ne-nil (suc f) n c out = elim (dec_lt n 10) [
  | yes small ↦ rw (show_from_last f n (c ∷ out) small) (cons-ne-nil _ _)
  | no large ↦
      rw (show_from_more f n (c ∷ out) (omega arith)) (show_from-ne-nil f (n / 10) _ (c ∷ out))
]

pub show-ne-nil : (n : ℕ) → show n ≢ []
unfolding show
show-ne-nil n = elim (dec_lt n 10) [
  | yes small ↦ rw (show_from_last n n [] small) (cons-ne-nil _ _)
  | no large ↦ rw (show_from_more n n [] (omega arith)) (show_from-ne-nil n (n / 10) _ [])
]

pub show-digits : (n : ℕ) → All IsDigit (show n)
unfolding show
show-digits n = show_from-digits (suc n) n [] tt

IsDigit-solid : (c : ℕ) → IsDigit c → is_space c ≡ false
unfolding is_space
IsDigit-solid c (d, h, e) = ground arith

-- A property of the ten digits holds along a number.
pub All-digits {κ} :
    {P : ℕ → Type κ} (s : Text) → ((c : ℕ) → IsDigit c → P c) → All IsDigit s → All P s
All-digits [] f h = tt
All-digits (c ∷ s) f (hc, hs) = (f c hc, All-digits s f hs)

pub show-Solid : (n : ℕ) → Solid (show n)
show-Solid n = All-digits (show n) IsDigit-solid (show-digits n)

-- No digit is a separator or a sign.
pub show-lacks : (sep n : ℕ) → sep < 48 ⊎ 57 < sep → All (λ c. (c == sep) ≡ false) (show n)
show-lacks sep n h = All-digits (show n) (λ c (d, lt, e). ground arith) (show-digits n)

module _ (u : Unicode) (reads : ReadsDigits u) where
  scan_digit :
      (b : Bool) (n d : ℕ) (s : Text)
      → d < 10
      → scan u b n ((48 + d) ∷ s) ≡ scan u true (n * 10 + d) s
  unfolding scan
  scan_digit b n d s h = rw (reads d h) (ground arith)

  scan-show_from :
      (f n : ℕ) (out : Text) → n < f → scan u false 0 (show_from f n out) ≡ scan u true n out
  scan-show_from zero n out h = elim h [ ]
  scan-show_from (suc f) n out h = elim (dec_lt n 10) [
    | yes small ↦
        rw (show_from_last f n out small)
          (scan_digit false 0 n out small ∙ ap (λ (m : ℕ). scan u true m out) (omega arith))
    | no large ↦ rw (show_from_more f n out (omega arith)) (
        scan-show_from f (n / 10) ((48 + n % 10) ∷ out) (omega arith)
        ∙ scan_digit true (n / 10) (n % 10) out (omega arith)
        ∙ ap (λ (m : ℕ). scan u true m out) (omega arith))
  ]

  unsigned :
      (s : Text) (n : ℕ)
      → s ≢ []
      → All IsDigit s
      → scan u false 0 s ≡ some n
      → signed_digits u s ≡ some (pos n)
  unfolding signed_digits
  unsigned [] n ne h e = absurd (ne refl)
  unsigned (c ∷ s) n ne ((d, lt, eq), hs) e = ground arith

  -- A printed number is read back.
  pub int_of-show : (n : ℕ) → int_of u (show n) ≡ some (pos n)
  unfolding int_of
  int_of-show n = rw (strip-Solid (show n) (show-Solid n)) (
      unsigned (show n) n (show-ne-nil n) (show-digits n)
        (unfold show scan in scan-show_from (suc n) n [] (omega arith)))
