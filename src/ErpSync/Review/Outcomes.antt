-- ===== src/ErpSync/Review/Outcomes.antt =====
-- When the actions of src/erpsync/review/service.py go through, and when they are refused.
use one_capture.Prelude.{
  ℕ, ◌≡◌, refl, true, not, Option, some, arith, ◌==◌, list_eq, nat_eq, beq_self,
}
use one_capture.Prelude.Text.{Text, codes}
use one_capture.Prelude.Result.{ok, err, guard-eq-ok}
use one_capture.Prelude.Rows.{row_at, put_row, row_at-All}
use one_capture.Decimal.{Decimal}
use one_capture.EClaim.Sod.{Uuid, is_id, Principal, can_access_client}
use one_capture.ErpSync.Ledger.{
  Status, flagged, status_beq, ErpsyncEntry, Session, entry_approved, entry_dismissed, id_of,
}
use one_capture.ErpSync.Ledger.Evolution.{IsOrderly, IsTable}
use one_capture.ErpSync.Review.{
  is_reviewable, violation, reviews_own_edit, RemapInput, check_can_review, get_entry,
  require_reviewable, audit, flush, approved_entry, approve, remapped_entry, remap, dismissed_entry,
  dismiss,
}
use one_capture.ErpSync.Review.Deciding.{
  check_can_review-apart, approved_entry-Follows, dismissed_entry-Follows, Acted-row_at,
  remap-Remapped,
}

-- What both actions end in, with the row and the event of each.
abbrev stored : Session → ErpsyncEntry → Session
stored s new = record s { entries = put_row id_of new s.entries }

-- A row that is held or flagged can be approved and can be dismissed by every reviewer whom
-- `check_can_review` lets pass, in a session whose rows are orderly: no CHECK of the table refuses
-- either action. The row is replaced by its decided version, and one event is added.
pub approve-dismiss_go_through :
    (s : Session) (id : Uuid) (reviewer : Principal) (now : ℕ) (event_type : Text)
    (new_note : Option Text) (e : ErpsyncEntry)
    → IsTable s.entries
    → row_at id_of s.entries id ≡ some e
    → is_reviewable e.status ≡ true
    → check_can_review e reviewer ≡ ok tt
    → (approve s id reviewer now new_note ≡ (
        let new = approved_entry reviewer now new_note e in
        ok (audit new (entry_approved e.status new_note) reviewer (stored s new), new)))
      × (dismiss s id reviewer now event_type new_note ≡ (
          let new = dismissed_entry reviewer now new_note e in
          ok (
            audit new (entry_dismissed event_type e.status new_note) reviewer (stored s new),
            new,
          )))
unfolding approve dismiss get_entry require_reviewable flush
approve-dismiss_go_through s id reviewer now event_type new_note e t found pending can =
    let sound = row_at-All id_of IsOrderly s.entries id t.orderly found in
    let apart = check_can_review-apart e reviewer can in
    let pass =
      ((approved_entry-Follows reviewer now new_note e pending apart).orderly sound).checked in
    let pass' =
      ((dismissed_entry-Follows reviewer now new_note e pending apart).orderly sound).checked in
    (rw (found, pending, can, pass) refl, rw (found, pending, can, pass') refl)

flagged_reviewable : (q : Status) → status_beq q flagged ≡ true → is_reviewable q ≡ true
flagged_reviewable q h = ground arith

still_flagged :
    (mapping : RemapInput) (quality : Text) (tonnes : Decimal) (p : Principal) (old : ErpsyncEntry)
    → status_beq old.status flagged ≡ true
    → status_beq (remapped_entry mapping quality tonnes p old).status flagged ≡ true
unfolding remapped_entry
still_flagged mapping quality tonnes p old h = h

-- The guard on the row that its own editor asks for.
own_edit :
    (old new : ErpsyncEntry) (p : Principal)
    → check_can_review old p ≡ ok tt
    → new.client_id ≡ old.client_id
    → is_id new.edited_by_user_id p.user_id ≡ true
    → check_can_review new p ≡ err (violation reviews_own_edit)
unfolding check_can_review
own_edit old new p can same own =
    let (writes, h1) = guard-eq-ok (p.base_role == codes "viewer") _ _ can in
    let (granted, h2) = guard-eq-ok (not (can_access_client p old.client_id)) _ _ h1 in
    rw (writes, same, granted, own) refl

-- What a reviewer has remapped, the same reviewer can neither approve, nor dismiss, nor remap
-- again: right after a remap that went through, each of the three is refused as a review of one's
-- own edit.
pub remap_then_refused :
    (s : Session) (id : Uuid) (mapping : RemapInput) (p : Principal) {s' : Session}
    {e : ErpsyncEntry}
    → remap s id mapping p ≡ ok (s', e)
    → (now : ℕ) (event_type : Text) (new_note : Option Text) (mapping' : RemapInput)
    → (approve s' id p now new_note ≡ err (violation reviews_own_edit))
      × (dismiss s' id p now event_type new_note ≡ err (violation reviews_own_edit))
      × (remap s' id mapping' p ≡ err (violation reviews_own_edit))
unfolding approve dismiss remap get_entry require_reviewable
remap_then_refused s id mapping p h now event_type new_note mapping' =
    let r = remap-Remapped s id mapping p h in
    let new = remapped_entry mapping r.quality r.tonnes p r.acted.old in
    let found = Acted-row_at r.acted in
    let refused =
      own_edit r.acted.old new p r.acted.allowed (unfold remapped_entry in refl)
        (unfold remapped_entry in beq_self p.user_id) in
    let still = still_flagged mapping r.quality r.tonnes p r.acted.old r.was_flagged in
    let pending = flagged_reviewable new.status still in
    (
      rw (found, pending, refused) refl,
      rw (found, pending, refused) refl,
      rw (found, still, refused) refl,
    )
