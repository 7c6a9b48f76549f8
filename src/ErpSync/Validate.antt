-- ===== src/ErpSync/Validate.antt =====
-- Row validation: src/erpsync/ingest/validate.py, with the presets of
-- src/erpsync/ingest/column_preset.py.
pub mod Keys
use one_capture.Prelude.{
  ℕ, suc, ◌+◌, ◌≡◌, Bool, true, false, not, ◌&&◌, ◌||◌, Option, none, some, List, [], ◌∷◌, ◌++◌,
  if◌then◌else◌, nat_beq, keep, contains, lookup, list_eq, nat_eq,
}
use one_capture.Prelude.Int.{ℤ, pos}
use one_capture.Prelude.Numerals.{int_of_text}
use one_capture.Prelude.Text.{Text, codes, strip, truthy, or_none, or_default}
use one_capture.Prelude.Result.{Result, ok, err, ◌>>=◌}
use one_capture.Decimal.{Decimal}
use one_capture.Decimal.Parse.{Parsed, finite, special, invalid, decimal_of_text}
use one_capture.ErpSync.Domain.{
  LineKey, key_eq, SourceRecord, Message, missing_required, line_number_not_integer,
  unparseable_numeric, already_committed, repeated_in_file, RowStatus, RowOutcome, duplicate, Error,
  number_not_finite,
}

abbrev pub Row : Type 0
Row = List (Text × Text)

-- `ColumnPreset`: canonical field -> source header
abbrev pub Mapping : Type 0
Mapping = List (Text × Text)

pub record ParsedRow : Type 0 where
  pub row_index : ℕ
  pub source : SourceRecord

pub record ValidationResult : Type 0 where
  pub accepted : List ParsedRow
  pub outcomes : List RowOutcome

abbrev cell_text : Option Text → Text
cell_text none = []
cell_text (some v) = strip v

abbrev cell_at : Option Text → Row → Text
cell_at none raw = []
cell_at (some header) raw = cell_text (lookup header raw)

-- `_get(raw, preset, canonical)`
unfoldable pub get : Row → Mapping → Text → Text
get raw preset canonical = cell_at (lookup canonical preset) raw

abbrev required_fields : List Text
required_fields = codes "doc_entry" ∷ codes "vendor_name" ∷ codes "amount" ∷ []

abbrev cleaned : Text → Text
cleaned s = keep (λ c. not (nat_beq c b',') && not (nat_beq c b'_')) s

-- What `_parse_decimal(text)` does: blank is None, bad raises.
pub data Cell : Type 0 where
  blank : Cell
  number : Decimal → Cell
  not_finite bad : Cell

abbrev cell_of : Parsed → Cell
cell_of (finite d) = number d
cell_of special = not_finite
cell_of invalid = bad

unfoldable pub parse_decimal : Text → Cell
parse_decimal s = if truthy (strip s) then cell_of (decimal_of_text (cleaned (strip s))) else blank

-- The line number, 0 if the cell is empty.
unfoldable pub parse_line_num : Text → Option ℤ
parse_line_num [] = some (pos 0)
parse_line_num (c ∷ s) = int_of_text (c ∷ s)

-- What one row is, before the file's own keys are looked at.
pub data Verdict : Type 0 where
  reject : Message → Verdict
  repeat_of : LineKey → Message → Verdict
  accept : SourceRecord → Verdict
  abort : Verdict

abbrev field_value : Cell → Option Decimal
field_value (number d) = some d
field_value _ = none

unfoldable pub is_bad : Cell → Bool
is_bad bad = true
is_bad _ = false

unfoldable pub is_not_finite : Cell → Bool
is_not_finite not_finite = true
is_not_finite _ = false

module _ (preset : Mapping) (client_id : Text) where
  unfoldable pub missing : Row → List Text
  missing raw = keep (λ f. not (truthy (get raw preset f))) required_fields

  unfoldable pub record_of : Row → ℤ → Cell → Cell → SourceRecord
  record_of raw line_num amount quantity = record {
    client_id = client_id;
    doc_entry = get raw preset (codes "doc_entry");
    line_num = line_num;
    doc_number = or_none (get raw preset (codes "doc_number"));
    posting_date = or_none (get raw preset (codes "posting_date"));
    item_code = or_none (get raw preset (codes "item_code"));
    item_name = or_none (get raw preset (codes "item_name"));
    vendor_name = some (get raw preset (codes "vendor_name"));
    gl_account = or_none (get raw preset (codes "gl_account"));
    quantity = field_value quantity;
    uom = or_none (get raw preset (codes "uom"));
    amount = field_value amount;
    currency = or_default (get raw preset (codes "currency")) (codes "MYR");
    raw = raw;
  }

  unfoldable pub judge_key : Row → List LineKey → List LineKey → ℤ → Cell → Cell → Verdict
  judge_key raw seen in_file line_num amount quantity =
      let key : LineKey = (client_id, get raw preset (codes "doc_entry"), line_num) in
      if contains seen key
      then repeat_of key already_committed
      else if contains in_file key
      then repeat_of key repeated_in_file
      else if is_not_finite amount || is_not_finite quantity
      then abort
      else accept (record_of raw line_num amount quantity)

  unfoldable pub judge_numbers : Row → List LineKey → List LineKey → Option ℤ → Verdict
  judge_numbers raw seen in_file none =
      reject (line_number_not_integer (get raw preset (codes "line_num")))
  judge_numbers raw seen in_file (some line_num) =
      let amount = parse_decimal (get raw preset (codes "amount")) in
      let quantity = parse_decimal (get raw preset (codes "quantity")) in
      if is_bad amount || is_bad quantity
      then reject (
          unparseable_numeric (get raw preset (codes "amount")) (get raw preset (codes "quantity")))
      else judge_key raw seen in_file line_num amount quantity

  unfoldable pub judge_missing : Row → List LineKey → List LineKey → List Text → Verdict
  judge_missing raw seen in_file [] =
      judge_numbers raw seen in_file (parse_line_num (get raw preset (codes "line_num")))
  judge_missing raw seen in_file (f ∷ fs) = reject (missing_required (f ∷ fs))

  -- The body of the loop over the rows, as far as its `continue`s.
  unfoldable pub judge : Row → List LineKey → List LineKey → Verdict
  judge raw seen in_file = judge_missing raw seen in_file (missing raw)

abbrev pub key_of : SourceRecord → LineKey
key_of r = (r.client_id, r.doc_entry, r.line_num)

-- How a verdict changes the result and the keys of this file.
abbrev pub outcome : ℕ → RowStatus → Option LineKey → Message → RowOutcome
outcome i status key m = record {
  row_index = i;
  status = status;
  line_key = key;
  messages = m ∷ [];
}

pub record Scan : Type 0 where
  pub result : ValidationResult
  pub in_file : List LineKey

abbrev pub apply_verdict : ℕ → Scan → Verdict → Result Error Scan
apply_verdict i s (reject m) = ok (record s {
  result = record s.result {
    outcomes = s.result.outcomes ++ outcome i RowStatus.rejected none m ∷ [];
  };
})
apply_verdict i s (repeat_of key m) = ok (record s {
  result = record s.result {
    outcomes = s.result.outcomes ++ outcome i duplicate (some key) m ∷ [];
  };
})
apply_verdict i s (accept r) = ok (record s {
  result = record s.result {
    accepted = s.result.accepted ++ (record { row_index = i; source = r }) ∷ [];
  };
  in_file = key_of r ∷ s.in_file;
})
apply_verdict i s abort = err number_not_finite

module _ (preset : Mapping) (client_id : Text) (seen : List LineKey) where
  unfoldable pub validate_from : ℕ → Scan → List Row → Result Error Scan
  validate_from i s [] = ok s
  validate_from i s (raw ∷ rows) = do
    s' ← apply_verdict i s (judge preset client_id raw seen s.in_file)
    validate_from (i + 1) s' rows

  abbrev start : Scan
  start = record { result = record { accepted = []; outcomes = [] }; in_file = [] }

  -- `validate_rows(raw_rows, preset, client_id, seen_keys=seen)`
  unfoldable pub validate_rows : List Row → Result Error ValidationResult
  validate_rows rows = do s ← validate_from 1 start rows; ok s.result
