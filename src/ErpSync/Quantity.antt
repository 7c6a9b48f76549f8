-- ===== src/ErpSync/Quantity.antt =====
-- Quantity resolution: src/erpsync/quantity/resolver.py.
use one_capture.Prelude.{
  Bool, false, Option, none, some, List, [], ◌∷◌, ◌==◌, list_eq, nat_eq, ◌&&◌, not, if◌then◌else◌,
  is_some,
}
use one_capture.Prelude.Text.{Text, strip, upper, truthy, truthy?}
use one_capture.Prelude.Result.{Result, ok, ◌>>=◌}
use one_capture.Decimal.{Decimal, is_positive}
use one_capture.ErpSync.Domain.{
  SourceRecord, MappingRule, QuantityBasis, activity, spend, DataQuality, measured, estimated,
  flagged, Message, spend_by_rule, uom_mismatch, no_usable_quantity, no_spend_fallback, Error,
}
use one_capture.ErpSync.Emissions.Factors.{Factor, FactorSet, get}

pub record Resolution : Type 0 where
  pub basis : QuantityBasis
  pub data_quality : DataQuality
  pub quantity : Option Decimal
  pub uom : Option Text
  pub amount : Option Decimal
  pub factor_ref : Option Text
  pub notes : List Message

-- `_uom_match(record_uom, factor_uom)`
uom_match : Option Text → Option Text → Bool
uom_match none f = false
uom_match (some r) none = false
uom_match (some r) (some f) = truthy r && truthy f && (upper (strip r) == upper (strip f))

-- `_has_quantity(record)`
has_quantity_of : Option Decimal → Bool
has_quantity_of none = false
has_quantity_of (some q) = is_positive q

has_quantity : SourceRecord → Bool
unfolding has_quantity_of
has_quantity r = has_quantity_of r.quantity

-- Why the activity could not be used.
abbrev why : SourceRecord → Factor → Message
why r factor =
    if has_quantity r && not (uom_match r.uom factor.uom)
    then uom_mismatch r.uom factor.uom
    else no_usable_quantity

abbrev by_spend : SourceRecord → DataQuality → Option Text → List Message → Resolution
by_spend r quality ref notes = record {
  basis = spend;
  data_quality = quality;
  quantity = none;
  uom = none;
  amount = r.amount;
  factor_ref = ref;
  notes = notes;
}

resolve_activity : SourceRecord → MappingRule → Factor → Resolution
resolve_activity r rule factor =
    if has_quantity r && uom_match r.uom factor.uom
    then record {
      basis = activity;
      data_quality = measured;
      quantity = r.quantity;
      uom = r.uom;
      amount = none;
      factor_ref = some rule.factor_ref;
      notes = [];
    }
    else if truthy? rule.spend_fallback_ref && is_some r.amount
    then by_spend r estimated rule.spend_fallback_ref (why r factor ∷ [])
    else by_spend r flagged none (why r factor ∷ no_spend_fallback ∷ [])

resolve_with : SourceRecord → MappingRule → QuantityBasis → Factor → Resolution
resolve_with r rule spend factor = by_spend r estimated (some rule.factor_ref) (spend_by_rule ∷ [])
resolve_with r rule activity factor = resolve_activity r rule factor

-- `resolve(record, rule, factors)`
pub resolve : SourceRecord → MappingRule → FactorSet → Result Error Resolution
unfolding resolve_with resolve_activity
resolve r rule factors = do
  factor ← get factors rule.factor_ref
  ok (resolve_with r rule rule.basis factor)
