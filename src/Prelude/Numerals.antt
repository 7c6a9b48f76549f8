-- ===== src/Prelude/Numerals.antt =====
-- Python's readers of numbers, on texts with ASCII digits: `int(s)` and the digits of a decimal.
use one_capture.Prelude.{
  ℕ, ◌+◌, ◌-◌, ◌*◌, ◌≡◌, refl, Bool, true, false, ◌&&◌, Option, none, some, [], ◌∷◌, leb, nat_beq,
  if◌then◌else◌,
}
use one_capture.Prelude.Int.{ℤ, pos, ◌-ℤ◌}
use one_capture.Prelude.Text.{Text, codes, strip, lstrip, is_space}

unfoldable pub is_digit : ℕ → Bool
is_digit c = leb b'0' c && leb c b'9'

-- The digits in front, and the rest.
unfoldable pub span_digits : Text → Text × Text
span_digits [] = ([], [])
span_digits (c ∷ s) =
    let (ds, rest) = span_digits s in if is_digit c then (c ∷ ds, rest) else ([], c ∷ s)

unfoldable pub digits_value : ℕ → Text → ℕ
digits_value acc [] = acc
digits_value acc (c ∷ s) = digits_value (acc * 10 + (c - b'0')) s

-- Digits with single underscores between them; the flag says that a digit stood before.
scan_int : Bool → ℕ → Text → Option ℕ
scan_int true acc [] = some acc
scan_int false acc [] = none
scan_int after_digit acc (c ∷ s) =
    let digit = scan_int true (acc * 10 + (c - b'0')) s in
    let underscore = scan_int false acc s in
    if is_digit c then digit else if nat_beq c b'_' && after_digit then underscore else none

-- A leading sign: true for minus.
unfoldable pub split_sign : Text → Bool × Text
split_sign [] = (false, [])
split_sign (c ∷ s) =
    if nat_beq c b'-' then (true, s) else if nat_beq c b'+' then (false, s) else (false, c ∷ s)

unfoldable pub with_sign : Bool → ℕ → ℤ
with_sign negative n = if negative then pos 0 -ℤ pos n else pos n

abbrev signed_option : Bool → Option ℕ → Option ℤ
signed_option negative none = none
signed_option negative (some n) = some (with_sign negative n)

-- `int(s)`; `none` is ValueError
unfoldable pub int_of_text : Text → Option ℤ
unfolding strip lstrip is_space is_digit scan_int split_sign with_sign ◌-ℤ◌
int_of_text s =
    let (negative, body) = split_sign (strip s) in signed_option negative (scan_int false 0 body)

int_of_text-sample : int_of_text (codes " -1_0 ") ≡ some (pos 0 -ℤ pos 10)
unfolding int_of_text
int_of_text-sample = refl

int_of_text-bad : int_of_text (codes "1_") ≡ none
unfolding int_of_text
int_of_text-bad = refl
