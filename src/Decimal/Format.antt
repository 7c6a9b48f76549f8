-- ===== src/Decimal/Format.antt =====
-- `format(d, "f")`: a decimal in fixed-point notation.
use one_capture.Prelude.{
  ℕ, zero, suc, ◌-◌, ◌≡◌, refl, true, false, [], ◌∷◌, ◌++◌, if◌then◌else◌, length, nat_beq, leb,
}
use one_capture.Prelude.Int.{ℤ, pos, negsuc}
use one_capture.Prelude.Text.{Text, codes, take_text, drop_text}
use one_capture.Core.Json.{show}
use one_capture.Decimal.{Decimal}

zeros : ℕ → Text
zeros zero = []
zeros (suc n) = b'0' ∷ zeros n

-- The digits of a coefficient with a point before the last `places`.
with_point : Text → ℕ → Text
with_point digits places =
    if leb (length digits) places
    then codes "0." ++ (zeros (places - length digits) ++ digits)
    else take_text (length digits - places) digits
      ++ b'.' ∷ drop_text (length digits - places) digits

fixed : ℕ → ℤ → Text
fixed c (pos n) = if nat_beq c 0 then codes "0" else show c ++ zeros n
fixed c (negsuc n) = with_point (show c) (suc n)

pub format_f : Decimal → Text
unfolding fixed with_point take_text drop_text zeros show
format_f d = let body = fixed d.coefficient d.exponent in if d.negative then b'-' ∷ body else body

format_f-sample :
    (format_f (record { negative = false; coefficient = 33501; exponent = negsuc 5 })
      ≡ codes "0.033501")
    × (format_f (record { negative = true; coefficient = 1250; exponent = negsuc 1 })
        ≡ codes "-12.50")
    × (format_f (record { negative = false; coefficient = 12; exponent = pos 2 }) ≡ codes "1200")
unfolding format_f
format_f-sample = (refl, refl, refl)
