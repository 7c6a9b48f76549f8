-- ===== src/ErpSync/Gate.antt =====
-- The release gate: src/erpsync/release/gate.py.
use one_capture.Prelude.{
  Bool, Option, none, some, List, [], ◌∷◌, if◌then◌else◌, ◌==◌, list_eq, nat_eq,
}
use one_capture.Prelude.Int.{leb_ℤ}
use one_capture.Prelude.Text.{Text, codes}
use one_capture.Decimal.{Decimal}
use one_capture.Decimal.Format.{format_f}
use one_capture.Core.Json.{
  Json, null, text, number, array, object, items_of, fields_of, optional_text, text_leb,
}
use one_capture.Core.Release.{canonical_hash}
use one_capture.ErpSync.Domain.{
  Scope, s1, s2, s3_4, s3_11, s3_other, QuantityBasis, activity, spend, DataQuality, measured,
  estimated, flagged, LineKey, EmissionEntry,
}

-- The values of the enumerations are part of the hashed contract.
abbrev scope_value : Scope → Text
scope_value s1 = codes "scope_1"
scope_value s2 = codes "scope_2"
scope_value s3_4 = codes "scope_3_4"
scope_value s3_11 = codes "scope_3_11"
scope_value s3_other = codes "scope_3_other"

abbrev basis_value : QuantityBasis → Text
basis_value activity = codes "activity"
basis_value spend = codes "spend"

abbrev quality_value : DataQuality → Text
quality_value measured = codes "measured"
quality_value estimated = codes "estimated"
quality_value flagged = codes "flagged"

-- `_dec(value)`
abbrev dec : Option Decimal → Json
dec none = null
dec (some d) = text (format_f d)

-- `_entry_canonical(entry)`
entry_canonical : EmissionEntry → Json
entry_canonical e = object (
    fields_of (
      (
        codes "line_key",
        array (items_of (text e.line_key.0 ∷ text e.line_key.1 ∷ number e.line_key.2 ∷ [])),
      )
      ∷ (codes "doc_number", optional_text e.doc_number)
      ∷ (codes "category", text e.category)
      ∷ (codes "scope", text (scope_value e.scope))
      ∷ (codes "basis", text (basis_value e.basis))
      ∷ (codes "data_quality", text (quality_value e.data_quality))
      ∷ (codes "quantity", dec e.quantity)
      ∷ (codes "uom", optional_text e.uom)
      ∷ (codes "amount", dec e.amount)
      ∷ (codes "factor_ref", text e.factor_ref)
      ∷ (codes "factor_value", dec (some e.factor_value))
      ∷ (codes "factor_version", text e.factor_version)
      ∷ (codes "rule_id", text e.rule_id)
      ∷ (codes "rule_version", text e.rule_version)
      ∷ (codes "tco2e", dec (some e.tco2e))
      ∷ (codes "source_hash", text e.source_hash)
      ∷ []))

-- Python's order of the lists [client_id, doc_entry, line_num].
key_leb : LineKey → LineKey → Bool
key_leb (c, d, l) (c', d', l') =
    if c == c' then (if d == d' then leb_ℤ l l' else text_leb d d') else text_leb c c'

-- `batch_hash(entries)`, which is `ReleaseGate.compute_hash`
pub batch_hash : (Text → Text) → List EmissionEntry → Text
batch_hash sha256 entries = canonical_hash sha256 entry_canonical key_leb (λ e. e.line_key) entries
