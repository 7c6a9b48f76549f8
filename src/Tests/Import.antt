-- ===== src/Tests/Import.antt =====
-- A small import: one bad file, one good file, and a second commit. The JSON of an entry is the
-- entry itself, and the digest of a text is its length.
use one_capture.Prelude.{
  ◌≡◌, ◌≢◌, refl, true, none, some, [], ◌∷◌, length, list_eq, nat_eq, arith, ◌+◌,
}
use one_capture.Prelude.Int.{pos}
use one_capture.Prelude.Numerals.{int_of_text}
use one_capture.Prelude.Text.{Text, codes, strip, lstrip, lower, is_infix, is_space}
use one_capture.Prelude.Result.{Result, ok, err}
use one_capture.Decimal.{of_ℕ}
use one_capture.Decimal.Parse.{decimal_of_text}
use one_capture.ErpSync.Domain.{
  e_claim, s2, SourceRecord, MappingRule, RuleSet, EmissionEntry, key_eq, spend, Error, flagged,
}
use one_capture.ErpSync.Rules.{
  matches, matches_in, dimension, dimension_of, compare_texts, first_in, match_rule,
}
use one_capture.ErpSync.Rules.Precedence.{Governs, Nothing, match_rule-Governs, match_rule-none}
use one_capture.ErpSync.Emissions.{zero_tonnes}
use one_capture.ErpSync.Store.{Store, commit, commit_all, open_store}
use one_capture.ErpSync.Store.Commit.{
  IsConsistent, Known, commit_idempotent, commit-IsConsistent, reopen-commit,
}
use one_capture.ErpSync.Validate.{
  Row, Mapping, ValidationResult, get, parse_decimal, parse_line_num, is_bad, is_not_finite,
  missing, record_of, judge_key, judge_numbers, judge_missing, judge, validate_from, validate_rows,
}
use one_capture.ErpSync.Validate.Keys.{IsValidated, validate_rows-IsValidated}
use one_capture.ErpSync.Dedup.{screen, screen_entries, screen_entry, hit_owner}
use one_capture.ErpSync.Pipeline.{
  PipelineConfig, Imported, unmapped_entry, staged_import, committed_lines, run_import,
  import_validated, rejected_import, build_lines, build_line, build_entry, build_matched,
}
use one_capture.ErpSync.Pipeline.Commit.{is_repeated, staged_entries}

abbrev preset : Mapping
preset =
    (codes "doc_entry", codes "Doc")
    ∷ (codes "line_num", codes "Line")
    ∷ (codes "vendor_name", codes "Vendor")
    ∷ (codes "amount", codes "Amount")
    ∷ []

abbrev power_row : Row
power_row =
    (codes "Doc", codes "7")
    ∷ (codes "Line", codes "0")
    ∷ (codes "Vendor", codes "TNB")
    ∷ (codes "Amount", codes "150")
    ∷ []

-- The vendor is missing.
abbrev bad_row : Row
bad_row = (codes "Doc", codes "8") ∷ (codes "Amount", codes "90") ∷ []

abbrev vendor_rule : MappingRule
vendor_rule = record {
  rule_id = codes "r1";
  item_code = none;
  vendor_match = some (codes "TNB");
  gl_account = none;
  category = codes "electricity";
  scope = s2;
  basis = spend;
  factor_ref = codes "grid";
  spend_fallback_ref = none;
}

abbrev rules : RuleSet
rules = record { client_id = codes "c"; version = codes "v1"; rules = vendor_rule ∷ [] }

abbrev config : PipelineConfig
config = record {
  client_id = codes "c";
  preset = preset;
  rules = rules;
  factors = record { version = codes "f1"; factors = [] };
  ownership = record { client_id = codes "c"; owner_by_category = [] };
  eclaim_doc_numbers = [];
}

abbrev store : Store EmissionEntry
store = record { path = true; entries = []; keys = []; file = none }

abbrev same_entry : EmissionEntry → EmissionEntry
same_entry e = e

abbrev length_digest : Text → Text
length_digest t = length t ∷ []

abbrev validation : ValidationResult → Result Error ValidationResult → ValidationResult
validation fallback (ok v) = v
validation fallback (err e) = fallback

abbrev validated : ValidationResult
validated =
    validation (record { accepted = []; outcomes = [] })
      (validate_rows preset (codes "c") [] (power_row ∷ power_row ∷ bad_row ∷ []))

validated_ok :
    validate_rows preset (codes "c") [] (power_row ∷ power_row ∷ bad_row ∷ []) ≡ ok validated
unfolding validate_rows validate_from judge judge_missing judge_numbers judge_key missing get
    parse_decimal parse_line_num is_bad is_not_finite strip lstrip decimal_of_text int_of_text
    record_of
validated_ok = refl

validate_rows-IsValidated_example : IsValidated [] 3 validated
validate_rows-IsValidated_example =
    validate_rows-IsValidated preset (codes "c") [] (power_row ∷ power_row ∷ bad_row ∷ [])
      validated_ok

abbrev power_line : SourceRecord
power_line = record {
  client_id = codes "c";
  doc_entry = codes "7";
  line_num = pos 0;
  doc_number = none;
  posting_date = none;
  item_code = none;
  item_name = none;
  vendor_name = some (codes "TNB");
  gl_account = none;
  quantity = none;
  uom = none;
  amount = some (of_ℕ 150);
  currency = codes "MYR";
  raw = power_row;
}

matched :
    match_rule power_line rules ≡ some (record { rule = vendor_rule; rule_version = codes "v1" })
unfolding match_rule first_in matches matches_in dimension dimension_of compare_texts is_infix lower
    strip lstrip is_space
matched = refl

match_rule-Governs_example :
    Governs power_line rules (record { rule = vendor_rule; rule_version = codes "v1" })
match_rule-Governs_example = match_rule-Governs power_line rules matched

abbrev no_rules : RuleSet
no_rules = record rules { rules = [] }

unmatched : match_rule power_line no_rules ≡ none
unfolding match_rule first_in
unmatched = refl

match_rule-none_example : Nothing power_line []
match_rule-none_example = match_rule-none power_line no_rules unmatched

abbrev entry : EmissionEntry
entry = record {
  line_key = (codes "c", codes "7", pos 0);
  doc_entry = codes "7";
  line_num = pos 0;
  doc_number = none;
  category = codes "electricity";
  scope = s2;
  basis = spend;
  data_quality = flagged;
  quantity = none;
  uom = none;
  amount = some (of_ℕ 150);
  factor_ref = codes "grid";
  factor_value = zero_tonnes;
  factor_version = codes "f1";
  rule_id = codes "r1";
  rule_version = codes "v1";
  tco2e = zero_tonnes;
  source_hash = [];
  notes = [];
}

commit_idempotent_example :
    commit same_entry (commit same_entry store (entry ∷ entry ∷ [])).0 (entry ∷ entry ∷ [])
    ≡ ((commit same_entry store (entry ∷ entry ∷ [])).0, 0)
commit_idempotent_example = commit_idempotent same_entry store (entry ∷ entry ∷ [])

store-IsConsistent : IsConsistent store
store-IsConsistent = record { mirrored = λ k. refl; distinct = tt }

commit-IsConsistent_example :
    IsConsistent (commit same_entry store (entry ∷ [])).0
    × (length (commit same_entry store (entry ∷ [])).0.entries
        ≡ 0 + (commit same_entry store (entry ∷ [])).1)
    × Known (commit same_entry store (entry ∷ [])).0 (entry ∷ [])
commit-IsConsistent_example = commit-IsConsistent same_entry store (entry ∷ []) store-IsConsistent

added_one : (commit same_entry store (entry ∷ [])).1 ≢ 0
unfolding commit commit_all
added_one h = omega (arith, h)

reopen-commit_example :
    (open_store same_entry true (commit same_entry store (entry ∷ [])).0.file).entries
    ≡ (commit same_entry store (entry ∷ [])).0.entries
reopen-commit_example =
    reopen-commit same_entry same_entry (λ e. refl) store (entry ∷ []) refl added_one

abbrev imported :
    Imported EmissionEntry → Result Error (Imported EmissionEntry) → Imported EmissionEntry
imported fallback (ok i) = i
imported fallback (err e) = fallback

-- No rule maps the line, and e-Claim owns what is not mapped.
abbrev owned : PipelineConfig
owned = record config {
  rules = no_rules;
  ownership = record {
    client_id = codes "c";
    owner_by_category = (codes "UNMAPPED", e_claim) ∷ [];
  };
}

-- The import of one good row, with a cross-channel hit.
abbrev good_import : Imported EmissionEntry
good_import =
    imported (rejected_import length_digest same_entry [] [] 0 [] store)
      (run_import length_digest same_entry [] [] owned store (power_row ∷ []))

is_held_back :
    (is_repeated owned (staged_entries good_import) (codes "c", codes "7", pos 0) ≡ true)
    × (good_import.result.entries ≡ [])
unfolding run_import validate_rows validate_from judge judge_missing judge_numbers judge_key missing
    get parse_decimal parse_line_num is_bad is_not_finite strip lstrip decimal_of_text int_of_text
    record_of import_validated build_lines build_line build_entry build_matched match_rule first_in
    screen screen_entries screen_entry hit_owner staged_import committed_lines unmapped_entry
is_held_back = (refl, refl)
