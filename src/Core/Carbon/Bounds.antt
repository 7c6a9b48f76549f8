-- ===== src/Core/Carbon/Bounds.antt =====
-- What the tonnes of a line are, as a number.
use one_capture.Prelude.{ℕ, ◌+◌, ◌*◌, ◌^◌, ◌≤◌, ◌<◌, ◌≡◌, refl, ◌∙◌, none, some, arith, lt→ltb, ◌↔◌}
use one_capture.Prelude.Int.{ℤ, pos, negsuc, pos_part, neg_part, ◌+ℤ◌}
use one_capture.Decimal.{Decimal, limit, xor, rescale, mul, div_thousand, quantize_micro}
use one_capture.Decimal.Rounding.{
  rescaled, rescale_bounds, rescaled-div_thousand, div_thousand-negative, mul_exact,
}
use one_capture.Core.Carbon.{quantise_tco2e, tco2e}

-- `r`, in millionths of a tonne, is the number nearest to coefficient * 10^shift, a half upwards.
pub record IsNearest (coefficient : ℕ) (shift : ℤ) (r : ℕ) : Type 0 where
  pub below :
      2 * r * 10 ^ neg_part shift ≤ 2 * (coefficient * 10 ^ pos_part shift) + 10 ^ neg_part shift
  pub above :
      2 * (coefficient * 10 ^ pos_part shift) < 2 * r * 10 ^ neg_part shift + 10 ^ neg_part shift

rescale-IsNearest : (c : ℕ) (s : ℤ) → IsNearest c s (rescale c s)
rescale-IsNearest c s = record { below = (rescale_bounds c s).0; above = (rescale_bounds c s).1 }

-- The exponent of the tonnes, counted from the sixth decimal place.
abbrev pub micro_shift : Decimal → Decimal → ℤ
micro_shift units factor = units.exponent +ℤ factor.exponent +ℤ pos 3

abbrev pub micro : Decimal → Decimal → ℕ
micro units factor = rescale (units.coefficient * factor.coefficient) (micro_shift units factor)

rescaled-mul :
    (units factor : Decimal)
    → units.coefficient * factor.coefficient < limit
    → rescaled (div_thousand (mul units factor)) ≡ micro units factor
rescaled-mul units factor h =
    rescaled-div_thousand (mul units factor) ∙ (rw (mul_exact units factor h))

negative-mul :
    (units factor : Decimal)
    → units.coefficient * factor.coefficient < limit
    → (div_thousand (mul units factor)).negative ≡ xor units.negative factor.negative
negative-mul units factor h =
    div_thousand-negative (mul units factor) ∙ (rw (mul_exact units factor h))

quantize_micro_fits :
    (d : Decimal)
    → rescaled d < limit
    → quantize_micro d
      ≡ some (record { negative = d.negative; coefficient = rescaled d; exponent = negsuc 5 })
unfolding quantize_micro
quantize_micro_fits d h = rw (lt→ltb _ _ h)

tco2e_fits :
    (units factor : Decimal)
    → units.coefficient * factor.coefficient < limit
    → micro units factor < limit
    → tco2e units factor
      ≡ some (record {
        negative = xor units.negative factor.negative;
        coefficient = micro units factor;
        exponent = negsuc 5;
      })
unfolding tco2e quantise_tco2e
tco2e_fits units factor h g =
    quantize_micro_fits (div_thousand (mul units factor)) (rw (rescaled-mul units factor h) g)
    ∙ rw (rescaled-mul units factor h, negative-mul units factor h)

-- When the product and the result fit in 28 digits, `tco2e` returns a number with six decimals
-- and the sign of the product, the nearest to units * factor / 1000, a half away from zero.
pub tco2e-IsNearest :
    (units factor : Decimal)
    → units.coefficient * factor.coefficient < limit
    → micro units factor < limit
    → (r : Decimal) × (tco2e units factor ≡ some r)
      × IsNearest (units.coefficient * factor.coefficient) (micro_shift units factor) r.coefficient
      × (r.exponent ≡ negsuc 5)
      × (r.negative ≡ xor units.negative factor.negative)
tco2e-IsNearest units factor h g =
    (_, tco2e_fits units factor h g, rescale-IsNearest _ _, refl, refl)

-- `tco2e` raises InvalidOperation exactly when the tonnes need more than 28 digits, for a product
-- that fits in 28 digits.
pub tco2e_overflow :
    (units factor : Decimal)
    → units.coefficient * factor.coefficient < limit
    → (tco2e units factor ≡ none) ↔ (limit ≤ micro units factor)
unfolding tco2e quantise_tco2e quantize_micro
tco2e_overflow units factor h =
    rw (rescaled-mul units factor h) (λ e. ground arith, λ e. ground arith)
