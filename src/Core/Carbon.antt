-- ===== src/Core/Carbon.antt =====
-- Exact carbon arithmetic: src/core/carbon.py. `none` stands for decimal.InvalidOperation.
pub mod Bounds
use one_capture.Prelude.{Option}
use one_capture.Decimal.{Decimal, mul, div_thousand, quantize_micro}

-- `quantise_tco2e(value)`
unfoldable pub quantise_tco2e : Decimal → Option Decimal
quantise_tco2e value = quantize_micro value

-- `tco2e(units, factor_value)`
unfoldable pub tco2e : Decimal → Decimal → Option Decimal
tco2e units factor_value = quantise_tco2e (div_thousand (mul units factor_value))
