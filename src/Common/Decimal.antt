-- ===== src/Common/Decimal.antt =====
-- Numbers as texts: `str(n)` for a number that is not negative, and `int(text)`, for the decimal
-- digits of ASCII.
use Prim.Native.Nat.{ℕ, zero, suc, ◌+◌, ◌-◌, ◌*◌, ◌/◌, ◌%◌, ◌<◌}
use mathlib.Core.Path.{◌≡◌, refl, ◌∙◌, ap}
use mathlib.Core.Logic.{inl, inr}
use mathlib.Core.Bool.{Bool, true, false, ◌&&◌}
use mathlib.Core.Option.{Option, none, some}
use mathlib.Core.List.{[], ◌∷◌, ◌++◌}
use native.Mathlib.Omega.{arith}
use vibes.Common.Tests.{if◌then◌else◌, leb, ltb, ◌==◌, Bool-cases}
use vibes.Common.Lists.{All, All-imp}
use vibes.Common.Texts.{Text, is_space, strip, rstrip}
use vibes.Common.Int.{ℤ, pos, negsuc}

digits_within : ℕ → ℕ → Text
digits_within zero n = []
digits_within (suc fuel) n =
    let front = digits_within fuel (n / 10) in
    if ltb n 10 then (48 + n) ∷ [] else front ++ (48 + n % 10) ∷ []

-- `str(n)`
unfoldable pub digits : ℕ → Text
unfolding digits_within
digits n = digits_within (suc n) n

abbrev pub is_digit : ℕ → Bool
is_digit c = leb 48 c && leb c 57

-- The digits from here on: `value` is what was read, and an underscore may stand after a digit.
unfoldable pub read_digits : ℕ → Bool → Text → Option ℕ
read_digits value after_digit [] = if after_digit then some value else none
read_digits value after_digit (c ∷ text) =
    let more = read_digits (value * 10 + (c - 48)) true text in
    let skip = read_digits value false text in
    if is_digit c then more else if c == b'_' && after_digit then skip else none

abbrev negated : ℕ → ℤ
negated zero = pos 0
negated (suc n) = negsuc n

abbrev as_int : (ℕ → ℤ) → Option ℕ → Option ℤ
as_int f none = none
as_int f (some n) = some (f n)

-- A number with its sign and no space around it.
unfoldable pub read_signed : Text → Option ℤ
unfolding read_digits
read_signed [] = none
read_signed (c ∷ text) =
    if c == b'-'
    then as_int negated (read_digits 0 false text)
    else if c == b'+'
    then as_int pos (read_digits 0 false text)
    else as_int pos (read_digits 0 false (c ∷ text))

-- `int(text)`, with `none` for a ValueError
unfoldable pub int_of : Text → Option ℤ
unfolding read_signed strip
int_of text = read_signed (strip text)

abbrev pub IsDigits : Text → Type 0
IsDigits = All (λ c. is_digit c ≡ true)

IsDigits-snoc :
    (text : Text) (c : ℕ) → IsDigits text → is_digit c ≡ true → IsDigits (text ++ c ∷ [])
IsDigits-snoc [] c h d = (d, tt)
IsDigits-snoc (x ∷ text) c (p, h) d = (p, IsDigits-snoc text c h d)

digits_within-IsDigits : (fuel n : ℕ) → IsDigits (digits_within fuel n)
unfolding digits_within
digits_within-IsDigits zero n = tt
digits_within-IsDigits (suc fuel) n = elim (Bool-cases (ltb n 10)) [
  | inl small ↦ rw small (ground arith, tt)
  | inr large ↦
      rw large (IsDigits-snoc _ (48 + n % 10) (digits_within-IsDigits fuel (n / 10)) (ground arith))
]

pub digits-IsDigits : (n : ℕ) → IsDigits (digits n)
unfolding digits
digits-IsDigits n = digits_within-IsDigits (suc n) n

rstrip_solid : (text : Text) → All (λ c. is_space c ≡ false) text → rstrip text ≡ text
unfolding rstrip
rstrip_solid [] h = refl
rstrip_solid (c ∷ text) (p, h) = ground (arith, rstrip_solid text h)

strip_solid : (text : Text) → All (λ c. is_space c ≡ false) text → strip text ≡ text
unfolding strip
strip_solid [] h = refl
strip_solid (c ∷ text) (p, h) = let rest = rstrip_solid (c ∷ text) (p, h) in ground (arith, rest)

digit_solid : (c : ℕ) → is_digit c ≡ true → is_space c ≡ false
digit_solid c h = ground arith

read_digits-snoc :
    (value : ℕ) (after_digit : Bool) (text : Text) (c : ℕ) {v : ℕ}
    → is_digit c ≡ true
    → IsDigits text
    → read_digits value (after_digit) text ≡ some v
    → read_digits value after_digit (text ++ c ∷ []) ≡ some (v * 10 + (c - 48))
unfolding read_digits
read_digits-snoc value after_digit [] c d h r = ground arith
read_digits-snoc value after_digit (x ∷ text) c d (p, h) r =
    let r' = rw (p, read_digits) at r in
    rw p (read_digits-snoc (value * 10 + (x - 48)) true text c d h r')

read_digits-digits_within :
    (fuel n : ℕ) → n < fuel → read_digits 0 false (digits_within fuel n) ≡ some n
unfolding digits_within
read_digits-digits_within zero n h = absurd (omega arith)
read_digits-digits_within (suc fuel) n h = elim (Bool-cases (ltb n 10)) [
  | inl small ↦ rw small (unfold read_digits in ground arith)
  | inr large ↦
      let front = read_digits-digits_within fuel (n / 10) (ground arith) in
      let snoc =
        read_digits-snoc 0 false (digits_within fuel (n / 10)) (48 + n % 10) (ground arith)
          (digits_within-IsDigits fuel (n / 10)) front in
      rw large (snoc ∙ ap some {x = n / 10 * 10 + (48 + n % 10 - 48)} (omega arith))
]

read_signed-digits :
    (text : Text) {n : ℕ}
    → IsDigits text
    → read_digits 0 false text ≡ some n
    → read_signed text ≡ some (pos n)
unfolding read_signed
read_signed-digits [] d r = unfold read_digits in cc
read_signed-digits (c ∷ text) (p, h) r = ground (arith, r)

-- What `str` writes, `int` reads.
pub int_of-digits : (n : ℕ) → int_of (digits n) ≡ some (pos n)
unfolding int_of digits
int_of-digits n =
    let solid = All-imp _ (λ c. is_space c ≡ false) (digits n) digit_solid (digits-IsDigits n) in
    rw (strip_solid (digits n) solid) (
      read_signed-digits (digits n) (digits-IsDigits n)
        (read_digits-digits_within (suc n) n (omega arith)))
