-- ===== src/ErpSync/Release.antt =====
-- The release of reviewed rows into the ledger: src/erpsync/release/service.py. SHA-256 of a text
-- is a parameter, and so are the id and the time that the database gives.
pub mod Sweep
pub mod Posting
pub mod Ending
pub mod Outcome
pub mod Twice
use one_capture.Prelude.{
  ℕ, Bool, true, false, not, ◌&&◌, ◌||◌, Option, none, some, List, [], ◌∷◌, ◌++◌, if◌then◌else◌,
  keep, map, contains, ◌==◌, list_eq, nat_eq, leb, length, is_some, ltb, ◌^◌,
}
use one_capture.Prelude.Text.{Text, codes, take_text, upper}
use one_capture.Prelude.Result.{Result, ok, err}
use one_capture.Prelude.Rows.{put_row}
use one_capture.Prelude.Sorting.{sorted}
use one_capture.Decimal.{Decimal, add, of_ℕ, dec_gtb}
use one_capture.Decimal.Format.{format_f}
use one_capture.Core.Json.{Json, null, text, object, fields_of, text_leb}
use one_capture.Core.Release.{canonical_hash_default, stamp}
use one_capture.EClaim.Sod.{Uuid}
use one_capture.ErpSync.Ledger.{
  Status, clean, approved, released, ErpsyncEntry, LedgerEntry, ReleaseBatch, entry_released,
  tsa_anchored, AuditEvent, Session, IntegrityError, out_of_range, id_of, batch_by_hash, add_batch,
  entry_for,
}

-- `status in RELEASABLE_STATUSES`
abbrev pub is_releasable : Status → Bool
is_releasable clean = true
is_releasable approved = true
is_releasable _ = false

-- The filter of `release_clean`.
unfoldable pub takes : Uuid → ErpsyncEntry → Bool
takes client_id row = row.client_id == client_id && is_releasable row.status

-- The order of (created_at, id).
abbrev pub release_leb : ErpsyncEntry → ErpsyncEntry → Bool
release_leb a b =
    ltb a.created_at b.created_at || (leb a.created_at b.created_at && text_leb a.id b.id)

-- The rows that `release_clean` reads.
unfoldable pub rows_for : Session → Uuid → List ErpsyncEntry
rows_for s client_id = sorted release_leb (λ row. row) (keep (takes client_id) s.entries)

abbrev optional_decimal : Option Decimal → Json
optional_decimal none = null
optional_decimal (some d) = text (format_f d)

-- `_projection(row)`
unfoldable pub projection : ErpsyncEntry → Json
projection row = object (
    fields_of (
      (codes "erpsync_entry_id", text row.id)
      ∷ (codes "scope", text row.scope)
      ∷ (codes "factor_ref", text row.factor_ref)
      ∷ (codes "factor_version", text row.factor_version)
      ∷ (codes "rule_id", text row.rule_id)
      ∷ (codes "rule_version", text row.rule_version)
      ∷ (codes "quantity", optional_decimal row.quantity)
      ∷ (codes "tco2e", text (format_f row.tco2e))
      ∷ (codes "source_hash", text row.source_hash)
      ∷ []))

-- `_scope_to_int(scope)`
unfoldable pub scope_to_int : Text → ℕ
scope_to_int scope =
    if scope == codes "scope_1" then 1 else if scope == codes "scope_2" then 2 else 3

-- `sum((row.tco2e for row in rows), start=Decimal("0"))`
unfoldable pub total_from : Decimal → List ErpsyncEntry → Decimal
total_from sum [] = sum
total_from sum (row ∷ rows) = total_from (add sum row.tco2e) rows

abbrev pub source_type : Text
source_type = codes "erpsync"

unfoldable pub released_entry : ErpsyncEntry → ErpsyncEntry
released_entry row = record row { status = released }

-- `if releases.entry_for(idem) is None: releases.add_entry(...)`
unfoldable pub post_entry : LedgerEntry → List LedgerEntry → List LedgerEntry
post_entry new ledger =
    if is_some (entry_for ledger new.idempotency_key) then ledger else ledger ++ new ∷ []

-- A column `Numeric(16, 6)` can hold this number, which has at most six decimal places, since it is
-- read from a column with as many or is a sum of such numbers.
unfoldable pub fits_column : Decimal → Bool
fits_column d = dec_gtb (of_ℕ (10 ^ 10)) (record d { negative = false })

module _ (sha256 : Text → Text) where
  -- `_idempotency_key(client_id, entry_id)`
  unfoldable pub idempotency_key : Uuid → Uuid → Text
  idempotency_key client_id entry_id = sha256 (client_id ++ entry_id)

  unfoldable pub ledger_entry : Uuid → Uuid → Uuid → ErpsyncEntry → LedgerEntry
  ledger_entry firm_id client_id batch_id row =
      let idem = idempotency_key client_id row.id in
      record {
        firm_id = firm_id;
        client_id = client_id;
        source_type = source_type;
        source_id = row.id;
        scope = scope_to_int row.scope;
        factor_key = row.factor_ref;
        factor_version = 0;
        quantity = row.quantity;
        unit = row.uom;
        basis = row.basis;
        tco2e = some row.tco2e;
        release_batch_id = batch_id;
        idempotency_key = idem;
        carbon_ref = codes "CARB-" ++ upper (take_text 12 idem);
      }

  -- One row of the loop of `release_clean`.
  unfoldable pub release_row : ReleaseBatch → Text → ErpsyncEntry → Session → Session
  release_row batch actor row s = record s {
    entries = put_row id_of (released_entry row) s.entries;
    ledger = post_entry (ledger_entry batch.firm_id batch.client_id batch.id row) s.ledger;
    events =
        s.events
        ++ record {
          entity_type = codes "erpsync_entry";
          entity_id = row.id;
          event = entry_released batch.batch_hash batch.id;
          actor = actor;
        }
          ∷ [];
  }

  unfoldable pub release_rows : ReleaseBatch → Text → List ErpsyncEntry → Session → Session
  release_rows batch actor [] s = s
  release_rows batch actor (row ∷ rows) s =
      release_rows batch actor rows (release_row batch actor row s)

  -- The batch of the rows of a release.
  unfoldable pub batch_of : Uuid → Uuid → Uuid → Text → List ErpsyncEntry → ReleaseBatch
  batch_of batch_id firm_id client_id actor rows =
      let digest = canonical_hash_default sha256 projection rows in
      record {
        id = batch_id;
        firm_id = firm_id;
        client_id = client_id;
        source_type = source_type;
        created_by = actor;
        batch_hash = digest;
        tsa_token = stamp digest;
        record_count = length rows;
        total_tco2e = total_from (of_ℕ 0) rows;
        status = codes "released";
      }

  abbrev pub anchored : ReleaseBatch → Session → Session
  anchored batch s = record s {
    events =
        s.events
        ++ record {
          entity_type = codes "release_batch";
          entity_id = batch.id;
          event = tsa_anchored batch.tsa_token batch.record_count;
          actor = codes "system";
        }
          ∷ [];
  }

  -- The column `tco2e` of the ledger can hold the number of each row that the loop posts.
  unfoldable pub fits_ledger : ReleaseBatch → List ErpsyncEntry → List LedgerEntry → Bool
  fits_ledger batch [] ledger = true
  fits_ledger batch (row ∷ rows) ledger =
      let new = ledger_entry batch.firm_id batch.client_id batch.id row in
      (is_some (entry_for ledger new.idempotency_key) || fits_column row.tco2e)
      && fits_ledger batch rows (post_entry new ledger)

  -- The savepoint of `release_clean` after its batch was added, or refused with the batch before it.
  -- A row that does not fit ends the request with a DataError, which nothing catches.
  unfoldable pub in_savepoint :
      Result IntegrityError Session
      → Option ReleaseBatch
      → ReleaseBatch
      → Text
      → List ErpsyncEntry
      → Session
      → Result IntegrityError (Session × Option ReleaseBatch)
  in_savepoint (ok with_batch) found batch actor rows s =
      if fits_ledger batch rows with_batch.ledger
      then ok (anchored batch (release_rows batch actor rows with_batch), some batch)
      else err out_of_range
  in_savepoint (err failure) (some prior) batch actor rows s = ok (s, some prior)
  in_savepoint (err failure) none batch actor rows s = err failure

  -- The total is written before a constraint is looked at.
  unfoldable pub release_batch :
      ReleaseBatch
      → Text
      → List ErpsyncEntry
      → Session
      → Result IntegrityError (Session × Option ReleaseBatch)
  release_batch batch actor rows s =
      if fits_column batch.total_tco2e
      then in_savepoint (add_batch batch s) (batch_by_hash s batch.client_id batch.batch_hash) batch
          actor rows s
      else err out_of_range

  -- `release_clean` on the rows that it has read
  unfoldable pub release_read :
      Uuid
      → Session
      → Uuid
      → Uuid
      → Text
      → List ErpsyncEntry
      → Result IntegrityError (Session × Option ReleaseBatch)
  release_read batch_id s firm_id client_id actor [] = ok (s, none)
  release_read batch_id s firm_id client_id actor (row ∷ rows) =
      release_batch (batch_of batch_id firm_id client_id actor (row ∷ rows)) actor (row ∷ rows) s

  -- `release_clean(session, firm_id, client_id, actor)`
  unfoldable pub release_clean :
      Uuid → Session → Uuid → Uuid → Text → Result IntegrityError (Session × Option ReleaseBatch)
  release_clean batch_id s firm_id client_id actor =
      release_read batch_id s firm_id client_id actor (rows_for s client_id)
