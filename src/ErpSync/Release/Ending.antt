-- ===== src/ErpSync/Release/Ending.antt =====
-- The ways in which `release_clean` of src/erpsync/release/service.py ends.
use mathlib.Core.Path.{subst}
use one_capture.Prelude.{
  ◌≡◌, true, false, Option, none, some, [], ◌∷◌, ◌++◌, list_eq, nat_eq, map, keep, any, length, not,
}
use one_capture.Prelude.Text.{Text}
use one_capture.Prelude.Result.{Result, ok, err, ok-injective}
use one_capture.Decimal.{of_ℕ}
use one_capture.Core.Release.{canonical_hash_default}
use one_capture.EClaim.Sod.{Uuid}
use one_capture.ErpSync.Ledger.{ReleaseBatch, Session, IntegrityError, out_of_range, batch_by_hash}
use one_capture.ErpSync.Release.{takes, rows_for, projection, total_from, fits_column, fits_ledger}
use one_capture.ErpSync.Release.Sweep.{settled}
use one_capture.ErpSync.Release.Posting.{Posted}

module _ (sha256 : Text → Text) where
  -- The content hash of the rows that a release of this client reads.
  abbrev pub digest_for : Session → Uuid → Text
  digest_for s client_id = canonical_hash_default sha256 projection (rows_for s client_id)

  -- A new batch over the rows of the client.
  pub record NewBatch (s after : Session) (client_id : Uuid) (batch : ReleaseBatch) : Type 0 where
    pub of_client : batch.client_id ≡ client_id
    pub hashes : batch.batch_hash ≡ digest_for s client_id
    pub counts : batch.record_count ≡ length (keep (takes client_id) s.entries)
    pub sums : batch.total_tco2e ≡ total_from (of_ℕ 0) (rows_for s client_id)
    pub new : batch_by_hash s client_id batch.batch_hash ≡ none
    pub batches_eq : after.batches ≡ s.batches ++ batch ∷ []
    pub entries_eq : after.entries ≡ map (settled client_id) s.entries
    pub posted : Posted sha256 batch (rows_for s client_id) s.ledger after.ledger
    pub total_fits : fits_column batch.total_tco2e ≡ true
    pub rows_fit : fits_ledger sha256 batch (rows_for s client_id) s.ledger ≡ true

  -- The three ends of a release.
  pub data Outcome (s : Session) (client_id : Uuid) : Session × Option ReleaseBatch → Type 0 where
    nothing : keep (takes client_id) s.entries ≡ [] → Outcome s client_id (s, none)
    repeated :
        (prior : ReleaseBatch)
        → batch_by_hash s client_id (digest_for s client_id) ≡ some prior
        → Outcome s client_id (s, some prior)
    released :
        (after : Session) (batch : ReleaseBatch)
        → NewBatch s after client_id batch
        → Outcome s client_id (after, some batch)

  -- How a release ends: it returns, or the total or the number of a row that it would post has
  -- more than ten digits before the point.
  pub data Ending (s : Session) (client_id : Uuid)
      : Result IntegrityError (Session × Option ReleaseBatch) → Type 0 where
    returns :
        (result : Session × Option ReleaseBatch)
        → Outcome s client_id result
        → Ending s client_id (ok result)
    large_total :
        fits_column (total_from (of_ℕ 0) (rows_for s client_id)) ≡ false
        → Ending s client_id (err out_of_range)
    large_row :
        any (λ r. not (fits_column r.tco2e)) (rows_for s client_id) ≡ true
        → Ending s client_id (err out_of_range)

  -- What a release that has returned did.
  pub Ending-ok :
      {s : Session} {client_id : Uuid} {r : Result IntegrityError (Session × Option ReleaseBatch)}
      {result : Session × Option ReleaseBatch}
      → Ending s client_id r
      → r ≡ ok result
      → Outcome s client_id result
  Ending-ok {s} {client_id} (returns result outcome) h =
      subst (Outcome s client_id) (ok-injective h) outcome
  Ending-ok (large_total large) h = cc
  Ending-ok (large_row large) h = cc
