-- ===== src/EClaim/Claims/Changes/Deciding.antt =====
-- The decisions of src/eclaim/services/claims.py as changes of one claim.
use one_capture.Prelude.{◌≡◌, refl, not, Option, some, List, not-false, list_eq, nat_eq}
use one_capture.Prelude.Text.{Text}
use one_capture.Prelude.Result.{ok, >>=-eq-ok, ok-injective, guard-eq-ok}
use one_capture.EClaim.Sod.{Uuid, Principal}
use one_capture.EClaim.Claims.{
  submitted, rejected, Decision, claim_approved, Session, get, lines_of, require_writer, authorize,
}
use one_capture.EClaim.Claims.Money.{require_fx_resolved}
use one_capture.EClaim.Claims.Decide.{
  require_in_review, authorize_any, approve, decide_lines, is_approval, decide, send_back, reject,
  unapprove,
}
use one_capture.EClaim.Claims.Changes.{
  Changed, finished, from_review, relabelled, review_moves, approved-Becomes, decided-Becomes,
  reopened-Becomes,
}

pub approve-Changed :
    (s : Session) (id : Uuid) (actor : Text) (approver : Option Principal) {s' : Session}
    → approve s id actor approver ≡ ok s'
    → Changed s s'
unfolding approve
approve-Changed s id actor approver h =
    let (c, got, h1) = >>=-eq-ok (get s id) _ h in
    let (u, guard, h2) = >>=-eq-ok (require_in_review c) _ h1 in
    let (v, complete, h3) = >>=-eq-ok (require_fx_resolved (lines_of s id)) _ h2 in
    let (w, gate, h4) = >>=-eq-ok (authorize_any s c (lines_of s id) approver) _ h3 in
    finished s id c _ _ claim_approved actor got
      (approved-Becomes s c approver _ (lines_of s id) (from_review c guard) gate) (ok-injective h4)

pub decide-Changed :
    (s : Session) (id : Uuid) (reviewer : Principal) (decisions : List (Uuid × Decision))
    (actor : Text) (new_note : Option Text) {s' : Session}
    → decide s id reviewer decisions actor new_note ≡ ok s'
    → Changed s s'
unfolding decide
decide-Changed s id reviewer decisions actor new_note h =
    let (c, got, h1) = >>=-eq-ok (get s id) _ h in
    let (u, guard, h2) = >>=-eq-ok (require_in_review c) _ h1 in
    let (v, complete, h3) = >>=-eq-ok (require_fx_resolved (lines_of s id)) _ h2 in
    let (w, gate, h4) = >>=-eq-ok (authorize s c (lines_of s id) reviewer) _ h3 in
    let (lines, chosen, h5) = >>=-eq-ok (decide_lines decisions (lines_of s id)) _ h4 in
    finished s id c _ _ _ actor got
      (decided-Becomes s c reviewer new_note lines (lines_of s id) (from_review c guard) gate)
      (ok-injective h5)

pub send_back-Changed :
    (s : Session) (id : Uuid) (reviewer : Principal) (reason : Option Text) {s' : Session}
    → send_back s id reviewer reason ≡ ok s'
    → Changed s s'
unfolding send_back
send_back-Changed s id reviewer reason h =
    let (c, got, h1) = >>=-eq-ok (get s id) _ h in
    let (u, guard, h2) = >>=-eq-ok (require_in_review c) _ h1 in
    let (w, gate, h3) = >>=-eq-ok (authorize s c (lines_of s id) reviewer) _ h2 in
    finished s id c _ _ _ _ got
      (relabelled c (record c { status = submitted }) refl
        (review_moves c.status submitted (from_review c guard) refl) refl refl)
      (ok-injective h3)

pub reject-Changed :
    (s : Session) (id : Uuid) (reviewer : Principal) (reason : Option Text) {s' : Session}
    → reject s id reviewer reason ≡ ok s'
    → Changed s s'
unfolding reject
reject-Changed s id reviewer reason h =
    let (c, got, h1) = >>=-eq-ok (get s id) _ h in
    let (u, guard, h2) = >>=-eq-ok (require_in_review c) _ h1 in
    let (w, gate, h3) = >>=-eq-ok (authorize s c (lines_of s id) reviewer) _ h2 in
    finished s id c _ _ _ _ got
      (relabelled c (record c { status = rejected }) refl
        (review_moves c.status rejected (from_review c guard) refl) refl refl)
      (ok-injective h3)

pub unapprove-Changed :
    (s : Session) (id : Uuid) (reviewer : Principal) (actor : Text) {s' : Session}
    → unapprove s id reviewer actor ≡ ok s'
    → Changed s s'
unfolding unapprove
unapprove-Changed s id reviewer actor h =
    let (c, got, h1) = >>=-eq-ok (get s id) _ h in
    let (guard, h2) = guard-eq-ok (not (is_approval c.status)) _ _ h1 in
    let (u, writes, h3) = >>=-eq-ok (require_writer c (some reviewer)) _ h2 in
    finished s id c _ _ _ actor got (reopened-Becomes c _ (not-false _ guard)) (ok-injective h3)
