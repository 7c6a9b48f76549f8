-- ===== src/ErpSync/Ledger.antt =====
-- The staging table `erpsync_entry`, the ledger `emission_entry` and the batches `release_batch` of
-- src/eclaim/db/models.py with their CHECK and UNIQUE constraints, the lookups of
-- `ReleaseRepository` in src/eclaim/repositories.py, and src/erpsync/persistence/pg_staging.py. A
-- table is the list of its rows in the order in which they were inserted. An audit event is its
-- type with its details as data; `Core.Audit` has the chain it is hashed into.
pub mod Evolution
use one_capture.Prelude.{
  ℕ, suc, Bool, true, false, not, ◌&&◌, ◌||◌, Option, none, some, List, [], ◌∷◌, ◌++◌, map,
  if◌then◌else◌, find_first, any, contains, ◌==◌, list_eq, nat_eq, ◌+◌, nat_beq,
}
use one_capture.Prelude.Int.{ℤ}
use one_capture.Prelude.Text.{Text, codes}
use one_capture.Prelude.Result.{Result, ok, err, ◌>>=◌, raise_if, or_raise}
use one_capture.Prelude.Rows.{put_row, row_at}
use one_capture.Decimal.{Decimal}
use one_capture.EClaim.Sod.{Uuid, is_id}
use one_capture.ErpSync.Domain.{
  Scope, s1, s2, s3_4, s3_11, s3_other, QuantityBasis, activity, spend, DataQuality, measured,
  estimated, Message, LineKey, key_eq, EmissionEntry,
}
use one_capture.ErpSync.Pipeline.{StageStatus, ready, needs_review}

-- `status` of an `erpsync_entry`
pub data Status : Type 0 where
  clean held flagged approved dismissed released : Status

abbrev pub status_beq : Status → Status → Bool
status_beq clean clean = true
status_beq held held = true
status_beq flagged flagged = true
status_beq approved approved = true
status_beq dismissed dismissed = true
status_beq released released = true
status_beq _ _ = false

pub record ErpsyncEntry : Type 0 where
  pub id : Uuid
  pub firm_id : Uuid
  pub client_id : Uuid
  pub doc_entry : Text
  pub line_num : ℤ
  pub doc_number : Option Text
  pub category : Text
  pub scope : Text
  pub basis : Text
  pub data_quality : Text
  pub quantity : Option Decimal
  pub uom : Option Text
  pub amount : Option Decimal
  pub factor_ref : Text
  pub factor_value : Decimal
  pub factor_version : Text
  pub rule_id : Text
  pub rule_version : Text
  pub tco2e : Decimal
  pub source_hash : Text
  pub notes : List Message
  pub status : Status
  pub edited_by_user_id : Option Uuid
  pub reviewed_by_user_id : Option Uuid
  pub reviewed_at : Option ℕ
  pub review_note : Option Text
  pub created_at : ℕ

-- A row of the table `emission_entry`; nothing reads its own id.
pub record LedgerEntry : Type 0 where
  pub firm_id : Uuid
  pub client_id : Uuid
  pub source_type : Text
  pub source_id : Uuid
  pub scope : ℕ
  pub factor_key : Text
  pub factor_version : ℕ
  pub quantity : Option Decimal
  pub unit : Option Text
  pub basis : Text
  pub tco2e : Option Decimal
  pub release_batch_id : Uuid
  pub idempotency_key : Text
  pub carbon_ref : Text

pub record ReleaseBatch : Type 0 where
  pub id : Uuid
  pub firm_id : Uuid
  pub client_id : Uuid
  pub source_type : Text
  pub created_by : Text
  pub batch_hash : Text
  pub tsa_token : Text
  pub record_count : ℕ
  pub total_tco2e : Decimal
  pub status : Text

pub data EventType : Type 0 where
  entry_approved : Status → Option Text → EventType
  entry_remapped : Text → Text → Text → EventType
  -- The event's own name, the status before, and the note.
  entry_dismissed : Text → Status → Option Text → EventType
  entry_released : Text → Uuid → EventType
  tsa_anchored : Text → ℕ → EventType

pub record AuditEvent : Type 0 where
  pub entity_type : Text
  pub entity_id : Uuid
  pub event : EventType
  pub actor : Text

pub record Session : Type 0 where
  pub entries : List ErpsyncEntry
  pub ledger : List LedgerEntry
  pub batches : List ReleaseBatch
  pub events : List AuditEvent

-- What the database refuses; the last is not an IntegrityError but a DataError.
pub data IntegrityError : Type 0 where
  entry_check primary_key batch_taken out_of_range : IntegrityError

-- `ck_erpsync_entry_sod`, where a comparison with NULL does not fail a CHECK
unfoldable pub is_apart : ErpsyncEntry → Bool
is_apart e = elim e.reviewed_by_user_id [ none ↦ true | some a ↦ not (is_id e.edited_by_user_id a) ]

abbrev pub scopes : List Text
scopes =
    codes "scope_1"
    ∷ codes "scope_2"
    ∷ codes "scope_3_4"
    ∷ codes "scope_3_11"
    ∷ codes "scope_3_other"
    ∷ []

abbrev pub bases : List Text
bases = codes "activity" ∷ codes "spend" ∷ []

abbrev pub qualities : List Text
qualities = codes "measured" ∷ codes "estimated" ∷ codes "flagged" ∷ []

-- The CHECK constraints of `erpsync_entry`; that on the status is the type `Status`.
unfoldable pub passes_checks : ErpsyncEntry → Bool
passes_checks e =
    is_apart e
    && contains scopes e.scope
    && contains bases e.basis
    && contains qualities e.data_quality

-- The CHECK constraints of `emission_entry`.
unfoldable pub passes_ledger_checks : LedgerEntry → Bool
passes_ledger_checks l =
    (nat_beq l.scope 1 || nat_beq l.scope 2 || nat_beq l.scope 3)
    && contains bases l.basis
    && contains (codes "eclaim" ∷ codes "erpsync" ∷ []) l.source_type

abbrev pub id_of : ErpsyncEntry → Uuid
id_of e = e.id

abbrev pub status_of : ErpsyncEntry → Status
status_of e = e.status

-- (client_id, doc_entry, line_num) of `uq_erpsync_entry_line`
abbrev pub grain : ErpsyncEntry → LineKey
grain e = (e.client_id, e.doc_entry, e.line_num)

-- `batch_by_hash(client_id, batch_hash)`
unfoldable pub batch_by_hash : Session → Uuid → Text → Option ReleaseBatch
batch_by_hash s client_id batch_hash =
    find_first (λ b. b.client_id == client_id && b.batch_hash == batch_hash) s.batches

-- `add_batch(batch)`, under `uq_release_batch_client_hash`
unfoldable pub add_batch : ReleaseBatch → Session → Result IntegrityError Session
add_batch batch s = do
  _ ←
      raise_if
        (any (λ b. b.client_id == batch.client_id && b.batch_hash == batch.batch_hash) s.batches)
        batch_taken
  ok (record s { batches = s.batches ++ batch ∷ [] })

-- `entry_for(idempotency_key)`
unfoldable pub entry_for : List LedgerEntry → Text → Option LedgerEntry
entry_for ledger idempotency_key = find_first (λ l. l.idempotency_key == idempotency_key) ledger

-- `Scope.value`
unfoldable pub scope_value : Scope → Text
scope_value s1 = codes "scope_1"
scope_value s2 = codes "scope_2"
scope_value s3_4 = codes "scope_3_4"
scope_value s3_11 = codes "scope_3_11"
scope_value s3_other = codes "scope_3_other"

-- `QuantityBasis.value`
unfoldable pub basis_value : QuantityBasis → Text
basis_value activity = codes "activity"
basis_value spend = codes "spend"

-- `DataQuality.value`
unfoldable pub quality_value : DataQuality → Text
quality_value measured = codes "measured"
quality_value estimated = codes "estimated"
quality_value DataQuality.flagged = codes "flagged"

unfoldable pub review_status : StageStatus → Status
review_status ready = clean
review_status StageStatus.held = held
review_status needs_review = flagged

-- `PgStagingStore`, with the time of its transaction
pub record PgStagingStore : Type 0 where
  pub firm_id : Uuid
  pub client_id : Uuid
  pub now : ℕ

-- A row for staging: the entry and its status.
abbrev pub StagedRow : Type 0
StagedRow = EmissionEntry × StageStatus

-- `_to_values(entry, status)`, with the columns that the database fills in, the id among them
unfoldable pub to_values : PgStagingStore → Uuid → StagedRow → ErpsyncEntry
to_values store id (entry, status) = record {
  id = id;
  firm_id = store.firm_id;
  client_id = store.client_id;
  doc_entry = entry.doc_entry;
  line_num = entry.line_num;
  doc_number = entry.doc_number;
  category = entry.category;
  scope = scope_value entry.scope;
  basis = basis_value entry.basis;
  data_quality = quality_value entry.data_quality;
  quantity = entry.quantity;
  uom = entry.uom;
  amount = entry.amount;
  factor_ref = entry.factor_ref;
  factor_value = entry.factor_value;
  factor_version = entry.factor_version;
  rule_id = entry.rule_id;
  rule_version = entry.rule_version;
  tco2e = entry.tco2e;
  source_hash = entry.source_hash;
  notes = entry.notes;
  status = review_status status;
  edited_by_user_id = none;
  reviewed_by_user_id = none;
  reviewed_at = none;
  review_note = none;
  created_at = store.now;
}

-- One row of the INSERT: skipped when its grain is staged, refused when its id is taken.
unfoldable pub insert_entry :
    ErpsyncEntry → List ErpsyncEntry → Result IntegrityError (List ErpsyncEntry × ℕ)
insert_entry e table =
    if contains (map grain table) (grain e)
    then ok (table, 0)
    else if contains (map id_of table) e.id
    then err primary_key
    else if passes_checks e
    then ok (table ++ e ∷ [], 1)
    else err entry_check

unfoldable pub insert_all :
    List ErpsyncEntry → List ErpsyncEntry → Result IntegrityError (List ErpsyncEntry × ℕ)
insert_all [] table = ok (table, 0)
insert_all (e ∷ es) table = do
  (with_one, one) ← insert_entry e table
  (with_all, more) ← insert_all es with_one
  ok (with_all, one + more)

-- The VALUES of the INSERT, from the row of this number on; the database draws an id for each.
unfoldable pub values_from : PgStagingStore → (ℕ → Uuid) → ℕ → List StagedRow → List ErpsyncEntry
values_from store fresh n [] = []
values_from store fresh n (row ∷ rows) =
    to_values store (fresh n) row ∷ values_from store fresh (suc n) rows

-- `stage(rows)`: the number of rows inserted
unfoldable pub stage :
    PgStagingStore → (ℕ → Uuid) → List StagedRow → Session → Result IntegrityError (Session × ℕ)
stage store fresh rows s = do
  (table, inserted) ← insert_all (values_from store fresh 0 rows) s.entries
  ok (record s { entries = table }, inserted)
