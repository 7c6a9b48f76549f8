-- ===== src/ErpSync/Pipeline.antt =====
-- The import pipeline: src/erpsync/pipeline.py. Reading the file is the caller's: the rows and the
-- digest of the bytes are arguments. SHA-256 of a text is a parameter, as in `Core.Audit`.
pub mod Commit
use one_capture.Prelude.{
  ℕ, ◌+◌, Bool, true, false, not, ◌&&◌, Option, none, some, List, [], ◌∷◌, ◌++◌, map, if◌then◌else◌,
  keep, any, contains, length, leb, find_first, is_some, ◌==◌, list_eq, nat_eq,
}
use one_capture.Prelude.Sorting.{sorted}
use one_capture.Prelude.Text.{Text, codes}
use one_capture.Prelude.Result.{Result, ok, err, ◌>>=◌}
use one_capture.Decimal.{Decimal, of_ℕ}
use one_capture.Core.Json.{Json, array, object, text, number, items_of, fields_of, canonical_json}
use one_capture.ErpSync.Domain.{
  Scope, s3_other, activity, spend, DataQuality, measured, estimated, flagged, RowStatus, clean,
  warning, duplicate, BatchStatus, staged, LineKey, key_eq, line_key, SourceRecord, RuleSet,
  Message, no_rule_matched, EmissionEntry, RowOutcome, ValidationReport, DuplicateHit, Error,
  status_beq,
}
use one_capture.ErpSync.Rules.{RuleMatch, match_rule}
use one_capture.ErpSync.Quantity.{Resolution, resolve}
use one_capture.ErpSync.Emissions.{EmissionResult, zero_tonnes, compute}
use one_capture.ErpSync.Emissions.Factors.{FactorSet}
use one_capture.ErpSync.Dedup.{OwnershipMatrix, screen}
use one_capture.ErpSync.Validate.{Row, Mapping, ParsedRow, ValidationResult, validate_rows}
use one_capture.ErpSync.Store.{Store, known_keys, commit}
use one_capture.ErpSync.Gate.{batch_hash}

pub record PipelineConfig : Type 0 where
  pub client_id : Text
  pub preset : Mapping
  pub rules : RuleSet
  pub factors : FactorSet
  pub ownership : OwnershipMatrix
  pub eclaim_doc_numbers : List Text

pub record PipelineResult : Type 0 where
  pub report : ValidationReport
  pub batch_status : BatchStatus
  pub entries : List EmissionEntry
  pub duplicate_hits : List DuplicateHit
  pub batch_hash : Option Text
  pub committed_count : ℕ

-- The review status of a staged line: "held", "clean" or "flagged".
pub data StageStatus : Type 0 where
  held ready needs_review : StageStatus

abbrev raw_fields : List (Text × Text) → List (Text × Json)
raw_fields fs = map (λ f. (f.0, text f.1)) fs

-- A line of `staged` with what the dictionaries `status_by_key` and `index_by_key` hold at its line
-- key. The keys of one file are distinct (`Validate.Keys`), so no line overwrites another's.
pub record StagedLine : Type 0 where
  pub entry : EmissionEntry
  pub status : RowStatus
  pub row_index : ℕ

-- What `run_import` leaves behind: its result, the store, and the rows for the staging sink.
pub record Imported (Raw : Type 0) : Type 0 where
  pub result : PipelineResult
  pub store : Store Raw
  pub staged_rows : List (EmissionEntry × StageStatus)

abbrev pub key_of_line : StagedLine → LineKey
key_of_line l = l.entry.line_key

abbrev pub hit_keys : List DuplicateHit → List LineKey
hit_keys hits = map (λ h. h.line_key) hits

-- `_stage_status(entry, hit_keys, status_by_key)`
pub stage_status : List LineKey → StagedLine → StageStatus
stage_status hits l =
    if contains hits (key_of_line l)
    then held
    else if status_beq l.status RowStatus.clean
    then ready
    else needs_review

reasons : List DuplicateHit → LineKey → List Message
reasons hits key = elim (find_first (λ h. h.line_key == key) hits) [
  | none ↦ []
  | some h ↦ h.reason ∷ []
]

-- The outcome of an accepted row.
pub line_outcome : List DuplicateHit → StagedLine → RowOutcome
unfolding reasons
line_outcome hits l =
    if contains (hit_keys hits) (key_of_line l)
    then record {
      row_index = l.row_index;
      status = duplicate;
      line_key = some (key_of_line l);
      messages = reasons hits (key_of_line l);
    }
    else record {
      row_index = l.row_index;
      status = l.status;
      line_key = some (key_of_line l);
      messages = l.entry.notes;
    }

-- `_sorted(outcomes)`
abbrev sorted_outcomes : List RowOutcome → List RowOutcome
sorted_outcomes = sorted leb (λ o. o.row_index)

-- The lines that no cross-channel hit holds back.
unfoldable pub committed_lines : List DuplicateHit → List StagedLine → List StagedLine
committed_lines hits = keep (λ l. not (contains (hit_keys hits) (key_of_line l)))

abbrev pub has_rejected : List RowOutcome → Bool
has_rejected = any (λ o. status_beq o.status RowStatus.rejected)

abbrev ref_or_empty : Option Text → Text
ref_or_empty none = []
ref_or_empty (some ref) = ref

abbrev status_of : DataQuality → RowStatus
status_of measured = RowStatus.clean
status_of _ = warning

module _ (sha256 : Text → Text) where
  -- `source_snapshot_hash(record)` of src/erpsync/ingest/batch.py
  pub source_snapshot_hash : SourceRecord → Text
  source_snapshot_hash r = sha256 (
      canonical_json (
        object (
          fields_of (
            (
              codes "line_key",
              array (items_of (text r.client_id ∷ text r.doc_entry ∷ number r.line_num ∷ [])),
            )
            ∷ (codes "raw", object (fields_of (raw_fields r.raw)))
            ∷ []))))

  unfoldable pub unmapped_entry : SourceRecord → PipelineConfig → EmissionEntry
  unmapped_entry r config = record {
    line_key = line_key r;
    doc_entry = r.doc_entry;
    line_num = r.line_num;
    doc_number = r.doc_number;
    category = codes "UNMAPPED";
    scope = s3_other;
    basis = spend;
    data_quality = DataQuality.flagged;
    quantity = none;
    uom = none;
    amount = r.amount;
    factor_ref = [];
    factor_value = zero_tonnes;
    factor_version = config.factors.version;
    rule_id = [];
    rule_version = config.rules.version;
    tco2e = zero_tonnes;
    source_hash = source_snapshot_hash r;
    notes = no_rule_matched ∷ [];
  }

  pub mapped_entry : SourceRecord → RuleMatch → Resolution → EmissionResult → EmissionEntry
  mapped_entry r m resolution emission = record {
    line_key = line_key r;
    doc_entry = r.doc_entry;
    line_num = r.line_num;
    doc_number = r.doc_number;
    category = m.rule.category;
    scope = m.rule.scope;
    basis = resolution.basis;
    data_quality = resolution.data_quality;
    quantity = resolution.quantity;
    uom = resolution.uom;
    amount = resolution.amount;
    factor_ref = ref_or_empty emission.factor_ref;
    factor_value = emission.factor_value;
    factor_version = emission.factor_version;
    rule_id = m.rule.rule_id;
    rule_version = m.rule_version;
    tco2e = emission.tco2e;
    source_hash = source_snapshot_hash r;
    notes = resolution.notes;
  }

  unfoldable pub build_matched :
      SourceRecord → PipelineConfig → Option RuleMatch → Result Error (EmissionEntry × RowStatus)
  build_matched r config none = ok (unmapped_entry r config, warning)
  build_matched r config (some m) = do
    resolution ← resolve r m.rule config.factors
    emission ← compute resolution config.factors
    ok (mapped_entry r m resolution emission, status_of resolution.data_quality)

  -- `_build_entry(parsed, config)`
  unfoldable pub build_entry : PipelineConfig → ParsedRow → Result Error (EmissionEntry × RowStatus)
  build_entry config parsed =
      build_matched parsed.source config (match_rule parsed.source config.rules)

  unfoldable pub build_line : PipelineConfig → ParsedRow → Result Error StagedLine
  build_line config parsed = do
    built ← build_entry config parsed
    ok (record { entry = built.0; status = built.1; row_index = parsed.row_index })

  unfoldable pub build_lines : PipelineConfig → List ParsedRow → Result Error (List StagedLine)
  build_lines config [] = ok []
  build_lines config (p ∷ ps) = do l ← build_line config p; ls ← build_lines config ps; ok (l ∷ ls)

  module _ {Raw : Type 0} (dump : EmissionEntry → Raw) (file_name file_sha256 : Text) where
    pub report : ℕ → List RowOutcome → ValidationReport
    report total outcomes = record {
      file_name = file_name;
      file_sha256 = file_sha256;
      total_rows = total;
      outcomes = sorted_outcomes outcomes;
    }

    pub rejected_import : ℕ → List RowOutcome → Store Raw → Imported Raw
    rejected_import total outcomes store = record {
      result = record {
        report = report total outcomes;
        batch_status = BatchStatus.rejected;
        entries = [];
        duplicate_hits = [];
        batch_hash = none;
        committed_count = 0;
      };
      store = store;
      staged_rows = [];
    }

    abbrev digest_of : List EmissionEntry → Option Text
    digest_of [] = none
    digest_of (e ∷ es) = some (batch_hash sha256 (e ∷ es))

    unfoldable pub staged_import :
        ℕ → List RowOutcome → List DuplicateHit → List StagedLine → Store Raw → Imported Raw
    staged_import total outcomes hits lines store =
        let committed = map (λ l. l.entry) (committed_lines hits lines) in
        let (store', added) = commit dump store committed in
        record {
          result = record {
            report = report total (outcomes ++ map (line_outcome hits) lines);
            batch_status = staged;
            entries = committed;
            duplicate_hits = hits;
            batch_hash = digest_of committed;
            committed_count = added;
          };
          store = store';
          staged_rows = map (λ l. (l.entry, stage_status (hit_keys hits) l)) lines;
        }

    unfoldable pub import_validated :
        PipelineConfig → Store Raw → ℕ → ValidationResult → Result Error (Imported Raw)
    import_validated config store total validation =
        if has_rejected validation.outcomes
        then ok (rejected_import total validation.outcomes store)
        else (do
          lines ← build_lines config validation.accepted
          let hits = screen (map (λ l. l.entry) lines) config.ownership config.eclaim_doc_numbers
          ok (staged_import total validation.outcomes hits lines store))

    -- `run_import(file, config, store, staging=...)` on the rows of the file.
    unfoldable pub run_import : PipelineConfig → Store Raw → List Row → Result Error (Imported Raw)
    run_import config store rows = do
      validation ←
          validate_rows config.preset config.client_id (known_keys store config.client_id) rows
      import_validated config store (length rows) validation
