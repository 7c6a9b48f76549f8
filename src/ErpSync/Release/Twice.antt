-- ===== src/ErpSync/Release/Twice.antt =====
-- A release that is repeated: src/erpsync/release/service.py.
use one_capture.Prelude.{
  ◌≡◌, sym, ap, ◌∙◌, Option, none, [], IsDistinct, map, keep, list_eq, nat_eq,
}
use one_capture.Prelude.Text.{Text}
use one_capture.Prelude.Result.{ok}
use one_capture.Prelude.Sorting.{sorted}
use one_capture.EClaim.Sod.{Uuid}
use one_capture.ErpSync.Ledger.{ReleaseBatch, Session, id_of, batch_by_hash}
use one_capture.ErpSync.Release.{takes, release_leb, rows_for, release_read, release_clean}
use one_capture.ErpSync.Release.Sweep.{keep-settled}
use one_capture.ErpSync.Release.Ending.{Outcome, nothing, repeated, released, digest_for, Ending-ok}
use one_capture.ErpSync.Release.Outcome.{release_clean-Outcome}

module _ (sha256 : Text → Text) where
  -- With no row to read, a release returns None and changes nothing.
  empty_release :
      (s : Session) (batch_id firm_id client_id : Uuid) (actor : Text)
      → keep (takes client_id) s.entries ≡ []
      → release_clean sha256 batch_id s firm_id client_id actor ≡ ok (s, none)
  unfolding release_clean rows_for release_read sorted
  empty_release s batch_id firm_id client_id actor empty =
      ap
        (λ rows.
          release_read sha256 batch_id s firm_id client_id actor
            (sorted release_leb (λ row. row) rows))
        empty

  after_outcome :
      {s : Session} {client_id : Uuid} {result : Session × Option ReleaseBatch}
      → Outcome sha256 s client_id result
      → batch_by_hash s client_id (digest_for sha256 s client_id) ≡ none
      → keep (takes client_id) result.0.entries ≡ []
  after_outcome (nothing empty) fresh = empty
  after_outcome (repeated prior found) fresh = (let bad = sym found ∙ fresh in cc)
  after_outcome {s} {client_id} (released after batch new) fresh =
      ap (keep (takes client_id)) new.entries_eq ∙ keep-settled client_id s.entries

  -- A release that returned, in a session without an earlier batch of the same content, leaves
  -- nothing for a second one: whoever releases the client next, the release returns None and
  -- changes nothing. The other condition is the primary key of the staging table.
  pub release_clean_twice :
      (s : Session) (batch_id firm_id client_id : Uuid) (actor : Text) {s' : Session}
      {batch : Option ReleaseBatch}
      → IsDistinct (map id_of s.entries)
      → batch_by_hash s client_id (digest_for sha256 s client_id) ≡ none
      → release_clean sha256 batch_id s firm_id client_id actor ≡ ok (s', batch)
      → (batch_id' firm_id' : Uuid) (actor' : Text)
      → release_clean sha256 batch_id' s' firm_id' client_id actor' ≡ ok (s', none)
  release_clean_twice s batch_id firm_id client_id actor {s'} {batch} distinct fresh h batch_id'
        firm_id' actor' =
      let ended = release_clean-Outcome sha256 s batch_id firm_id client_id actor distinct in
      empty_release s' batch_id' firm_id' client_id actor'
        (after_outcome (Ending-ok sha256 ended h) fresh)
