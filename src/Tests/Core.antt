-- ===== src/Tests/Core.antt =====
-- The shared core on concrete inputs. SHA-256 is replaced by a text that is cut or padded to 64.
use one_capture.Prelude.{
  ℕ, zero, suc, ◌≡◌, refl, ap, ◌≤◌, ◌*◌, false, none, some, List, [], ◌∷◌, ◌↔◌, ◌⊎◌, arith, length,
  list_eq, nat_eq,
}
use one_capture.Prelude.Int.{negsuc, pos, ◌+ℤ◌}
use one_capture.Prelude.Text.{Text, codes}
use one_capture.Decimal.{Decimal, limit, xor, rescale}
use one_capture.Core.Carbon.{tco2e}
use one_capture.Core.Carbon.Bounds.{IsNearest, micro, micro_shift, tco2e-IsNearest, tco2e_overflow}
use one_capture.Core.Json.{Json, text}
use one_capture.Core.Audit.{Event, link_all}
use one_capture.Core.Audit.Chain.{assertions, Collision, tamper_evident, verify_chain-link_all}

padded : ℕ → Text → Text
padded zero t = []
padded (suc n) [] = 0 ∷ padded n []
padded (suc n) (c ∷ t) = c ∷ padded n t

length-padded : (n : ℕ) (t : Text) → length (padded n t) ≡ n
unfolding padded
length-padded zero t = refl
length-padded (suc n) [] = ap suc (length-padded n [])
length-padded (suc n) (c ∷ t) = ap suc (length-padded n t)

-- 1234.5 units and a factor of 0.78 kilograms.
abbrev units_sample : Decimal
units_sample = record { negative = false; coefficient = 12345; exponent = negsuc 0 }

abbrev factor_sample : Decimal
factor_sample = record { negative = false; coefficient = 78; exponent = negsuc 1 }

tco2e-IsNearest_example :
    (r : Decimal) × (tco2e units_sample factor_sample ≡ some r)
    × IsNearest (12345 * 78) (micro_shift units_sample factor_sample) r.coefficient
    × (r.exponent ≡ negsuc 5)
    × (r.negative ≡ xor false false)
unfolding ◌+ℤ◌ rescale
tco2e-IsNearest_example = tco2e-IsNearest units_sample factor_sample (omega arith) (omega arith)

-- A quantity of 24 digits before the point.
abbrev huge_sample : Decimal
huge_sample = record { negative = false; coefficient = 1; exponent = pos 27 }

tco2e_overflow_example :
    (tco2e huge_sample factor_sample ≡ none) ↔ (limit ≤ micro huge_sample factor_sample)
tco2e_overflow_example = tco2e_overflow huge_sample factor_sample (omega arith)

abbrev payloads_sample : List Json
payloads_sample = text (codes "submitted") ∷ text (codes "approved") ∷ []

abbrev trail : List Event
trail = link_all (padded 64) none payloads_sample

tamper_evident_example : (assertions trail ≡ assertions trail) ⊎ Collision (padded 64)
tamper_evident_example =
    tamper_evident (padded 64) (length-padded 64) trail trail refl
      (verify_chain-link_all (padded 64) payloads_sample)
      (verify_chain-link_all (padded 64) payloads_sample) refl
