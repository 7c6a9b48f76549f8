-- ===== src/ErpSync/Lifecycle/Reached.antt =====
-- What holds over every sequence of imports, reviews and releases.
use mathlib.Core.Path.{subst}
use one_capture.Prelude.{◌≡◌, refl, Bool, true, false, Option, some, arith, list_eq, nat_eq}
use one_capture.Prelude.Text.{Text}
use one_capture.Prelude.Result.{ok}
use one_capture.Prelude.Rows.{row_at}
use one_capture.Prelude.Lifecycle.{Travels, stays, goes, Continues-trans}
use one_capture.EClaim.Sod.{Uuid}
use one_capture.ErpSync.Ledger.{
  Status, dismissed, released, ErpsyncEntry, ReleaseBatch, Session, id_of, status_of,
}
use one_capture.ErpSync.Ledger.Evolution.{may_move, Evolves, Evolves-Continues, ContinuesIn}
use one_capture.ErpSync.Review.Deciding.{
  Acted-Evolves, approve-Acted, dismiss-Acted, remap-Remapped,
}
use one_capture.ErpSync.Release.{release_clean}
use one_capture.ErpSync.Release.Ending.{Outcome, nothing, repeated, released, Ending-ok}
use one_capture.ErpSync.Release.Outcome.{release_clean-Outcome}
use one_capture.ErpSync.Lifecycle.{
  Step, stages, approves, remaps, dismisses, releases, Reach, begin, next,
}
use one_capture.ErpSync.Lifecycle.Staging.{stage-Extended}
use one_capture.ErpSync.Lifecycle.Ledger.{
  IsSound, Acted-IsSound, Extended-IsSound, NewBatch-Evolves, NewBatch-IsSound,
}

abbrev pub is_final : Status → Bool
is_final dismissed = true
is_final released = true
is_final _ = false

final_stays : (p q : Status) → is_final p ≡ true → may_move p q ≡ true → q ≡ p
final_stays p q h m = ground arith

module _ (sha256 : Text → Text) where
  -- What a request keeps, and how the staging table went on.
  record Kept (s s' : Session) : Type 0 where
    sound : IsSound sha256 s'
    continues :
        (id : Uuid) (r : ErpsyncEntry)
        → row_at id_of s.entries id ≡ some r
        → ContinuesIn r id s'.entries

  by_evolution : {s s' : Session} → IsSound sha256 s' → Evolves s.entries s'.entries → Kept s s'
  by_evolution sound evolves = record { sound = sound; continues = Evolves-Continues evolves }

  Outcome-Kept :
      {s : Session} {client_id : Uuid} {result : Session × Option ReleaseBatch}
      → Outcome sha256 s client_id result
      → IsSound sha256 s
      → Kept s result.0
  Outcome-Kept (nothing empty) sound = record {
    sound = sound;
    continues = λ id r h. record { now = r; found = h; along = stays };
  }
  Outcome-Kept (repeated prior found) sound = record {
    sound = sound;
    continues = λ id r h. record { now = r; found = h; along = stays };
  }
  Outcome-Kept (Outcome.released after batch new) sound =
      by_evolution (NewBatch-IsSound sha256 new sound) (NewBatch-Evolves sha256 new)

  release_clean-Kept :
      (s : Session) (batch_id firm_id client_id : Uuid) (actor : Text) {s' : Session}
      {batch : Option ReleaseBatch}
      → release_clean sha256 batch_id s firm_id client_id actor ≡ ok (s', batch)
      → IsSound sha256 s
      → Kept s s'
  release_clean-Kept s batch_id firm_id client_id actor {s'} {batch} h sound =
      let ended =
        release_clean-Outcome sha256 s batch_id firm_id client_id actor sound.table.distinct_ids in
      Outcome-Kept (Ending-ok sha256 ended h) sound

  Step-Kept : {s s' : Session} → Step sha256 s s' → IsSound sha256 s → Kept s s'
  Step-Kept (stages store fresh rows inserted h) sound =
      let (extended, same) = stage-Extended store fresh rows _ h in
      by_evolution (Extended-IsSound sha256 extended same sound) extended.evolves
  Step-Kept (approves id reviewer now new_note e h) sound =
      let acted = approve-Acted _ id reviewer now new_note h in
      by_evolution (Acted-IsSound sha256 acted sound) (Acted-Evolves sound.table acted)
  Step-Kept (remaps id mapping reviewer e h) sound =
      let acted = (remap-Remapped _ id mapping reviewer h).acted in
      by_evolution (Acted-IsSound sha256 acted sound) (Acted-Evolves sound.table acted)
  Step-Kept (dismisses id reviewer now event_type new_note e h) sound =
      let acted = dismiss-Acted _ id reviewer now event_type new_note h in
      by_evolution (Acted-IsSound sha256 acted sound) (Acted-Evolves sound.table acted)
  Step-Kept (releases batch_id firm_id client_id actor batch h) sound =
      release_clean-Kept _ batch_id firm_id client_id actor h sound

  -- Every sequence of imports, reviews and releases keeps the staging table and the ledger sound:
  -- when they are sound in the first session they are in the last. Sound means: ids and source
  -- lines are distinct; an undecided row has no reviewer, a decided one has, and no row's reviewer
  -- is its editor; the CHECKs of both tables hold; the ledger's keys are distinct; each of its
  -- entries stands for a staged row that is released; and each released row has its key in it.
  pub Reach-IsSound : {s s' : Session} → Reach sha256 s s' → IsSound sha256 s → IsSound sha256 s'
  Reach-IsSound begin sound = sound
  Reach-IsSound (next reach step) sound = (Step-Kept step (Reach-IsSound reach sound)).sound

  Reach-ContinuesIn :
      {s s' : Session}
      → Reach sha256 s s'
      → IsSound sha256 s
      → (id : Uuid) (r : ErpsyncEntry) → row_at id_of s.entries id ≡ some r
      → ContinuesIn r id s'.entries
  Reach-ContinuesIn begin sound id r h = record { now = r; found = h; along = stays }
  Reach-ContinuesIn (next reach step) sound id r h =
      let before = Reach-ContinuesIn reach sound id r h in
      Continues-trans id_of status_of may_move before
        ((Step-Kept step (Reach-IsSound reach sound)).continues id before.now before.found)

  Travels-final : {p q : Status} → is_final p ≡ true → Travels may_move p q → q ≡ p
  Travels-final h stays = refl
  Travels-final {p} h (goes {via} {to} more last) =
      final_stays p to h (subst (λ v. may_move v to ≡ true) (Travels-final h more) last)

  -- No sequence of imports, reviews and releases, from a sound session, loses a staged row: the
  -- last session has a row under its id, whose status came from the old one by the moves of
  -- `may_move`. A dismissed row stays dismissed and a released one stays released.
  pub Reach-final_of_row :
      {s s' : Session}
      → Reach sha256 s s'
      → IsSound sha256 s
      → (id : Uuid) (r : ErpsyncEntry) → row_at id_of s.entries id ≡ some r
      → (now : ErpsyncEntry) × (row_at id_of s'.entries id ≡ some now)
        × Travels may_move r.status now.status
        × (is_final r.status ≡ true → now.status ≡ r.status)
  Reach-final_of_row reach sound id r h =
      let later = Reach-ContinuesIn reach sound id r h in
      (later.now, later.found, later.along, λ final. Travels-final final later.along)
