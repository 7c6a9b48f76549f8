-- ===== src/ErpSync/Emissions.antt =====
-- The calculator: src/erpsync/emissions/calculator.py.
pub mod Factors
use one_capture.Prelude.{Bool, true, false, Option, none, some}
use one_capture.Prelude.Int.{pos, negsuc}
use one_capture.Prelude.Text.{Text}
use one_capture.Prelude.Result.{Result, ok, err, ◌>>=◌, or_raise}
use one_capture.Decimal.{Decimal, of_ℕ}
use one_capture.Core.Carbon.{tco2e}
use one_capture.ErpSync.Domain.{
  QuantityBasis, activity, spend, Error, activity_without_quantity, spend_without_amount,
  invalid_operation,
}
use one_capture.ErpSync.Quantity.{Resolution}
use one_capture.ErpSync.Emissions.Factors.{Factor, FactorSet, get}

pub record EmissionResult : Type 0 where
  pub tco2e : Decimal
  pub factor_ref : Option Text
  pub factor_value : Decimal
  pub factor_version : Text

-- Decimal("0.000000")
abbrev pub zero_tonnes : Decimal
zero_tonnes = record { negative = false; coefficient = 0; exponent = negsuc 5 }

abbrev pub units : QuantityBasis → Option Decimal → Option Decimal → Result Error Decimal
units activity quantity amount = or_raise quantity activity_without_quantity
units spend quantity amount = or_raise amount spend_without_amount

compute_ref : Resolution → FactorSet → Option Text → Result Error EmissionResult
compute_ref resolution factors none = ok (record {
  tco2e = zero_tonnes;
  factor_ref = none;
  factor_value = of_ℕ 0;
  factor_version = factors.version;
})
compute_ref resolution factors (some ref) = do
  factor ← get factors ref
  amount ← units resolution.basis resolution.quantity resolution.amount
  tonnes ← or_raise (tco2e amount factor.value) invalid_operation
  ok (record {
    tco2e = tonnes;
    factor_ref = some factor.ref;
    factor_value = factor.value;
    factor_version = factors.version;
  })

-- `compute(resolution, factors)`
pub compute : Resolution → FactorSet → Result Error EmissionResult
unfolding compute_ref
compute resolution factors = compute_ref resolution factors resolution.factor_ref
