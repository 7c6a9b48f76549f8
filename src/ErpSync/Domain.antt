-- ===== src/ErpSync/Domain.antt =====
-- The enumerations and models of src/erpsync/domain. Message texts are data: one constructor for
-- each format string, with the values that it shows.
use one_capture.Prelude.{
  ℕ, ◌≡◌, Bool, true, false, Option, List, Eq, arith, nat_beq, keep, length, ◌==◌, ◌&&◌, ◌↔◌,
  list_eq, nat_eq, list_beq_iff,
}
use one_capture.Prelude.Int.{ℤ, int_eq, int_beq_iff}
use one_capture.Prelude.Text.{Text}
use one_capture.Decimal.{Decimal}

pub data Scope : Type 0 where
  s1 s2 s3_4 s3_11 s3_other : Scope

pub data QuantityBasis : Type 0 where
  activity spend : QuantityBasis

pub data DataQuality : Type 0 where
  measured estimated flagged : DataQuality

pub data RowStatus : Type 0 where
  clean warning duplicate rejected : RowStatus

pub data BatchStatus : Type 0 where
  rejected staged released : BatchStatus

pub data Channel : Type 0 where
  erp_sync e_claim : Channel

-- (client_id, doc_entry, line_num)
abbrev pub LineKey : Type 0
LineKey = Text × Text × ℤ

pub record SourceRecord : Type 0 where
  pub client_id : Text
  pub doc_entry : Text
  pub line_num : ℤ
  pub doc_number : Option Text
  pub posting_date : Option Text
  pub item_code : Option Text
  pub item_name : Option Text
  pub vendor_name : Option Text
  pub gl_account : Option Text
  pub quantity : Option Decimal
  pub uom : Option Text
  pub amount : Option Decimal
  pub currency : Text
  pub raw : List (Text × Text)

-- `SourceRecord.line_key`
abbrev pub line_key : SourceRecord → LineKey
line_key r = (r.client_id, r.doc_entry, r.line_num)

pub record MappingRule : Type 0 where
  pub rule_id : Text
  pub item_code : Option Text
  pub vendor_match : Option Text
  pub gl_account : Option Text
  pub category : Text
  pub scope : Scope
  pub basis : QuantityBasis
  pub factor_ref : Text
  pub spend_fallback_ref : Option Text

pub record RuleSet : Type 0 where
  pub client_id : Text
  pub version : Text
  pub rules : List MappingRule

-- The notes of an entry and the messages of a row.
pub data Message : Type 0 where
  missing_required : List Text → Message
  line_number_not_integer : Text → Message
  unparseable_numeric : Text → Text → Message
  already_committed repeated_in_file : Message
  spend_by_rule : Message
  uom_mismatch : Option Text → Option Text → Message
  no_usable_quantity no_spend_fallback no_rule_matched : Message
  category_owned_by : Text → Channel → Message
  document_in_eclaim : Option Text → Message

pub record EmissionEntry : Type 0 where
  pub line_key : LineKey
  pub doc_entry : Text
  pub line_num : ℤ
  pub doc_number : Option Text
  pub category : Text
  pub scope : Scope
  pub basis : QuantityBasis
  pub data_quality : DataQuality
  pub quantity : Option Decimal
  pub uom : Option Text
  pub amount : Option Decimal
  pub factor_ref : Text
  pub factor_value : Decimal
  pub factor_version : Text
  pub rule_id : Text
  pub rule_version : Text
  pub tco2e : Decimal
  pub source_hash : Text
  pub notes : List Message

pub record RowOutcome : Type 0 where
  pub row_index : ℕ
  pub status : RowStatus
  pub line_key : Option LineKey
  pub messages : List Message

pub record ValidationReport : Type 0 where
  pub file_name : Text
  pub file_sha256 : Text
  pub total_rows : ℕ
  pub outcomes : List RowOutcome

pub record DuplicateHit : Type 0 where
  pub line_key : LineKey
  pub doc_number : Text
  pub category : Text
  pub owning_channel : Channel
  pub other_channel : Channel
  pub reason : Message

abbrev pub status_beq : RowStatus → RowStatus → Bool
status_beq clean clean = true
status_beq warning warning = true
status_beq duplicate duplicate = true
status_beq RowStatus.rejected RowStatus.rejected = true
status_beq _ _ = false

-- `ValidationReport._count(status)`
abbrev count_status : RowStatus → List RowOutcome → ℕ
count_status s outcomes = length (keep (λ o. status_beq o.status s) outcomes)

abbrev clean_count : ValidationReport → ℕ
clean_count r = count_status clean r.outcomes

abbrev warnings : ValidationReport → ℕ
warnings r = count_status warning r.outcomes

abbrev duplicates : ValidationReport → ℕ
duplicates r = count_status duplicate r.outcomes

abbrev rejected_count : ValidationReport → ℕ
rejected_count r = count_status RowStatus.rejected r.outcomes

-- Whole-batch policy: any rejected row blocks the commit.
abbrev committable : ValidationReport → Bool
committable r = nat_beq (rejected_count r) 0

abbrev key_beq : LineKey → LineKey → Bool
key_beq (c, d, l) (c', d', l') = c == c' && (d == d' && l == l')

pub key_beq_iff : (a b : LineKey) → (key_beq a b ≡ true) ↔ (a ≡ b)
key_beq_iff (c, d, l) (c', d', l') =
    ground (arith, list_beq_iff c c', list_beq_iff d d', int_beq_iff l l')

instance abbrev pub key_eq : Eq LineKey
key_eq = record { beq = key_beq; beq_iff = key_beq_iff }

-- What the pipeline raises instead of returning.
pub data Error : Type 0 where
  unknown_factor : Text → Error
  activity_without_quantity spend_without_amount : Error
  invalid_operation : Error
  -- pydantic refuses a NaN or an infinity in a `Decimal` field
  number_not_finite : Error
