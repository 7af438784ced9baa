-- ===== src/Text/Strip.antt =====
-- What `strip` and `split` do with the texts that the code makes itself.
use copilot_sdk.Prelude.{ℕ, ◌≡◌, refl, ap, true, false, [], ◌∷◌, ◌++◌, arith, All, ◌==◌}
use copilot_sdk.Text.{Text, is_space, lstrip, rstrip, strip, keep_or_drop, split}

-- No character of the text is white space.
abbrev pub Solid : Text → Type 0
Solid = All (λ c. is_space c ≡ false)

-- Every character of the text is white space.
abbrev pub Blank : Text → Type 0
Blank = All (λ c. is_space c ≡ true)

keep_or_drop-solid : (c : ℕ) (t : Text) → is_space c ≡ false → keep_or_drop c t ≡ c ∷ t
keep_or_drop-solid c [] h = rw h
keep_or_drop-solid c (d ∷ t) h = refl

pub rstrip-Blank : (w : Text) → Blank w → rstrip w ≡ []
unfolding rstrip
rstrip-Blank [] h = refl
rstrip-Blank (c ∷ w) (hc, hw) = rw (rstrip-Blank w hw) (rw hc)

pub rstrip-append_Blank : (s w : Text) → Solid s → Blank w → rstrip (s ++ w) ≡ s
unfolding rstrip
rstrip-append_Blank [] w hs hw = rstrip-Blank w hw
rstrip-append_Blank (c ∷ s) w (hc, hs) hw =
    rw (rstrip-append_Blank s w hs hw) (keep_or_drop-solid c s hc)

-- A text in front of one that keeps its last character is not touched.
pub rstrip-append :
    (p s : Text) (c : ℕ) (t : Text) → rstrip s ≡ c ∷ t → rstrip (p ++ s) ≡ p ++ (c ∷ t)
unfolding rstrip
rstrip-append [] s c t h = h
rstrip-append (d ∷ []) s c t h = rw h
rstrip-append (d ∷ e ∷ p) s c t h = ap (keep_or_drop d) (rstrip-append (e ∷ p) s c t h)

pub lstrip-Solid : (c : ℕ) (s : Text) → is_space c ≡ false → lstrip (c ∷ s) ≡ c ∷ s
unfolding lstrip
lstrip-Solid c s h = rw h

pub rstrip-Solid : (s : Text) → Solid s → rstrip s ≡ s
unfolding rstrip
rstrip-Solid [] h = refl
rstrip-Solid (c ∷ s) (hc, hs) = rw (rstrip-Solid s hs) (keep_or_drop-solid c s hc)

pub strip-Solid : (s : Text) → Solid s → strip s ≡ s
unfolding strip
strip-Solid [] h = refl
strip-Solid (c ∷ s) h = rw (rstrip-Solid (c ∷ s) h) (lstrip-Solid c s h.0)

-- A text without the separator is its only part.
pub split-free : (sep : ℕ) (s : Text) → All (λ c. (c == sep) ≡ false) s → split sep s ≡ s ∷ []
unfolding split
split-free sep [] h = refl
split-free sep (c ∷ s) (hc, hs) = rw (hc, split-free sep s hs)

-- The part in front of the first separator.
pub split-append :
    (sep : ℕ) (s t : Text)
    → All (λ c. (c == sep) ≡ false) s
    → split sep (s ++ sep ∷ t) ≡ s ∷ split sep t
unfolding split
split-append sep [] t h = ground arith
split-append sep (c ∷ s) t (hc, hs) = rw (hc, split-append sep s t hs)
