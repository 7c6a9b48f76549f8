-- ===== src/ErpSync/Emissions/Factors.antt =====
-- The factor registry: `Factor`, `FactorSet` and its lookup, of src/erpsync/emissions/factors.py.
use one_capture.Prelude.{Option, List, lookup, list_eq, nat_eq}
use one_capture.Prelude.Text.{Text}
use one_capture.Prelude.Result.{Result, or_raise}
use one_capture.Decimal.{Decimal}
use one_capture.ErpSync.Domain.{QuantityBasis, Error, unknown_factor}

pub record Factor : Type 0 where
  pub ref : Text
  pub value : Decimal
  pub basis : QuantityBasis
  pub uom : Option Text
  pub source : Text

pub record FactorSet : Type 0 where
  pub version : Text
  pub factors : List (Text × Factor)

-- `FactorSet.get(ref)`
unfoldable pub get : FactorSet → Text → Result Error Factor
get set ref = or_raise (lookup ref set.factors) (unknown_factor ref)
