-- ===== src/ErpSync/Lifecycle.antt =====
-- The life of the staged rows: sequences of imports (src/erpsync/persistence/pg_staging.py), reviews
-- (src/erpsync/review/service.py) and releases (src/erpsync/release/service.py).
pub mod Staging
pub mod Restaging
pub mod Ledger
pub mod Reached
use one_capture.Prelude.{ℕ, ◌≡◌, Option, List}
use one_capture.Prelude.Text.{Text}
use one_capture.Prelude.Result.{ok}
use one_capture.EClaim.Sod.{Uuid, Principal}
use one_capture.ErpSync.Ledger.{
  ErpsyncEntry, ReleaseBatch, Session, PgStagingStore, StagedRow, stage,
}
use one_capture.ErpSync.Review.{RemapInput, approve, remap, dismiss}
use one_capture.ErpSync.Release.{release_clean}

-- One request that returned.
pub data Step (sha256 : Text → Text) : Session → Session → Type 0 where
  stages :
      {s s' : Session} (store : PgStagingStore) (fresh : ℕ → Uuid) (rows : List StagedRow)
      (inserted : ℕ)
      → stage store fresh rows s ≡ ok (s', inserted)
      → Step sha256 s s'
  approves :
      {s s' : Session} (id : Uuid) (reviewer : Principal) (now : ℕ) (new_note : Option Text)
      (e : ErpsyncEntry)
      → approve s id reviewer now new_note ≡ ok (s', e)
      → Step sha256 s s'
  remaps :
      {s s' : Session} (id : Uuid) (mapping : RemapInput) (reviewer : Principal) (e : ErpsyncEntry)
      → remap s id mapping reviewer ≡ ok (s', e)
      → Step sha256 s s'
  dismisses :
      {s s' : Session} (id : Uuid) (reviewer : Principal) (now : ℕ) (event_type : Text)
      (new_note : Option Text) (e : ErpsyncEntry)
      → dismiss s id reviewer now event_type new_note ≡ ok (s', e)
      → Step sha256 s s'
  releases :
      {s s' : Session} (batch_id firm_id client_id : Uuid) (actor : Text)
      (batch : Option ReleaseBatch)
      → release_clean sha256 batch_id s firm_id client_id actor ≡ ok (s', batch)
      → Step sha256 s s'

-- The sessions that requests lead to.
pub data Reach (sha256 : Text → Text) (first : Session) : Session → Type 0 where
  begin : Reach sha256 first first
  next : {t u : Session} → Reach sha256 first t → Step sha256 t u → Reach sha256 first u
