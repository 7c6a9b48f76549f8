-- ===== src/ErpSync/Pipeline/Commit.antt =====
-- What an import leaves behind, by how it ended.
use one_capture.Prelude.{
  not, ◌&&◌, keep, ◌==◌, list_eq, nat_eq, ℕ, ◌≡◌, Bool, true, false, List, [], map, length, All,
  any,
}
use one_capture.Prelude.Text.{Text}
use one_capture.Prelude.Result.{Result}
use one_capture.ErpSync.Domain.{
  BatchStatus, staged, LineKey, key_eq, EmissionEntry, RowOutcome, Error, RowStatus, status_beq,
}
use one_capture.ErpSync.Validate.{ValidationResult}
use one_capture.ErpSync.Store.{Store}
use one_capture.ErpSync.Dedup.{stripped}
use one_capture.ErpSync.Dedup.Hits.{is_repeat}
use one_capture.ErpSync.Pipeline.{
  PipelineConfig, StagedLine, Imported, StageStatus, held, stage_status, has_rejected,
  import_validated, report,
}

abbrev is_held : StageStatus → Bool
is_held held = true
is_held _ = false

-- The key of a line with a cross-channel repeat among these entries.
abbrev pub is_repeated : PipelineConfig → List EmissionEntry → LineKey → Bool
is_repeated config es key =
    any
      (λ e. is_repeat config.ownership (stripped config.eclaim_doc_numbers) e && key == e.line_key)
      es

-- A row of the sink is held exactly when a staged line with its key repeats one of e-Claim.
abbrev pub Tagged :
    PipelineConfig → List EmissionEntry → List (EmissionEntry × StageStatus) → Type 0
Tagged config es rows = All (λ r. is_held r.1 ≡ is_repeated config es r.0.line_key) rows

abbrev entry_of : StagedLine → EmissionEntry
entry_of l = l.entry

abbrev rows_of : List LineKey → List StagedLine → List (EmissionEntry × StageStatus)
rows_of ks ls = map (λ l. (l.entry, stage_status ks l)) ls

-- Whether the report has a rejected row.
abbrev rejected_rows : {Raw : Type 0} → Imported Raw → Bool
rejected_rows i = has_rejected i.result.report.outcomes

-- The entries that were staged.
abbrev pub staged_entries : {Raw : Type 0} → Imported Raw → List EmissionEntry
staged_entries i = map (λ r. r.0) i.staged_rows

-- What an import leaves behind, by how it ended.
pub data Outcome {Raw : Type 0} (config : PipelineConfig) (store : Store Raw) (v : ValidationResult)
    (total : ℕ) (i : Imported Raw) : Type 0 where
  nothing :
      i.result.batch_status ≡ BatchStatus.rejected
      → rejected_rows i ≡ true
      → i.store ≡ store
      → i.result.entries ≡ []
      → i.staged_rows ≡ []
      → Outcome config store v total i
  whole :
      i.result.batch_status ≡ staged
      → rejected_rows i ≡ false
      → length i.result.report.outcomes ≡ total
      → length i.staged_rows ≡ length v.accepted
      → i.result.entries
        ≡ keep (λ e. not (is_repeated config (staged_entries i) e.line_key)) (staged_entries i)
      → Tagged config (staged_entries i) i.staged_rows
      → Outcome config store v total i

abbrev is_rejected : RowOutcome → Bool
is_rejected o = status_beq o.status RowStatus.rejected

-- No line was classified as rejected.
abbrev Sound : List StagedLine → Type 0
Sound ls = All (λ l. status_beq l.status RowStatus.rejected ≡ false) ls

module _ (sha256 : Text → Text) {Raw : Type 0} (dump : EmissionEntry → Raw)
    (name digest : Text) where
  abbrev importing : PipelineConfig → Store Raw → ℕ → ValidationResult → Result Error (Imported Raw)
  importing = import_validated sha256 dump name digest
