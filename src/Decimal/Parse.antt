-- ===== src/Decimal/Parse.antt =====
-- `Decimal(s)`: the numeric strings of the decimal arithmetic specification, with ASCII digits.
use one_capture.Prelude.{
  ◌≡◌, refl, Bool, true, false, not, ◌&&◌, ◌||◌, Option, none, some, [], ◌∷◌, ◌++◌, nat_beq,
  if◌then◌else◌, length, ◌==◌, list_eq, nat_eq, keep,
}
use one_capture.Prelude.Int.{ℤ, pos, negsuc, ◌-ℤ◌}
use one_capture.Prelude.Text.{Text, codes, strip, lstrip, is_space, lower, truthy}
use one_capture.Prelude.Numerals.{span_digits, is_digit, digits_value, split_sign, with_sign}
use one_capture.Decimal.{Decimal}

-- `special` is a NaN or an infinity; `invalid` is InvalidOperation.
pub data Parsed : Type 0 where
  finite : Decimal → Parsed
  special invalid : Parsed

abbrev number : Bool → Text → Text → ℤ → Parsed
number negative whole fraction exponent = finite (record {
  negative = negative;
  coefficient = digits_value 0 (whole ++ fraction);
  exponent = exponent -ℤ pos (length fraction);
})

-- The exponent behind an `E`: a sign and digits to the end.
parse_exponent : Bool → Text → Text → Text → Parsed
parse_exponent negative whole fraction s =
    let (minus, body) = split_sign s in
    let (digits, rest) = span_digits body in
    if truthy digits && not (truthy rest)
    then number negative whole fraction (with_sign minus (digits_value 0 digits))
    else invalid

parse_tail : Bool → Text → Text → Text → Parsed
parse_tail negative whole fraction [] = number negative whole fraction (pos 0)
parse_tail negative whole fraction (c ∷ s) =
    if nat_beq c b'E' || nat_beq c b'e' then parse_exponent negative whole fraction s else invalid

parse_fraction : Bool → Text → Text → Parsed
parse_fraction negative whole [] = if truthy whole then parse_tail negative whole [] [] else invalid
parse_fraction negative whole (c ∷ s) =
    let (fraction, rest) = span_digits s in
    if nat_beq c b'.'
    then (if truthy whole || truthy fraction
        then parse_tail negative whole fraction rest
        else invalid)
    else if truthy whole
    then parse_tail negative whole [] (c ∷ s)
    else invalid

drop_prefix : Text → Text → Option Text
drop_prefix [] s = some s
drop_prefix (c ∷ p) [] = none
drop_prefix (c ∷ p) (d ∷ s) = let rest = drop_prefix p s in if nat_beq c d then rest else none

abbrev only_digits : Option Text → Bool
only_digits none = false
only_digits (some s) = not (truthy (span_digits s).1)

is_special : Text → Bool
is_special s =
    s == codes "inf"
    || s == codes "infinity"
    || only_digits (drop_prefix (codes "nan") s)
    || only_digits (drop_prefix (codes "snan") s)

parse_finite : Bool → Text → Parsed
parse_finite negative body =
    let (whole, rest) = span_digits body in parse_fraction negative whole rest

abbrev without_underscores : Text → Text
without_underscores s = keep (λ c. not (nat_beq c b'_')) s

-- `Decimal(s)`
unfoldable pub decimal_of_text : Text → Parsed
unfolding strip lstrip is_space lower span_digits is_digit digits_value split_sign with_sign
    parse_exponent parse_tail parse_fraction drop_prefix is_special parse_finite ◌-ℤ◌
decimal_of_text s =
    let (negative, body) = split_sign (without_underscores (strip s)) in
    if is_special (lower body) then special else parse_finite negative body

decimal_of_text-sample :
    decimal_of_text (codes " -12.50 ")
    ≡ finite (record { negative = true; coefficient = 1250; exponent = negsuc 1 })
unfolding decimal_of_text
decimal_of_text-sample = refl

decimal_of_text-exponent :
    decimal_of_text (codes "2.5E+3")
    ≡ finite (record { negative = false; coefficient = 25; exponent = pos 2 })
unfolding decimal_of_text
decimal_of_text-exponent = refl

decimal_of_text-special :
    (decimal_of_text (codes "NaN") ≡ special)
    × (decimal_of_text (codes "-Infinity") ≡ special)
    × (decimal_of_text (codes "RM 5") ≡ invalid)
    × (decimal_of_text (codes ".") ≡ invalid)
unfolding decimal_of_text
decimal_of_text-special = (refl, refl, refl, refl)
