-- ===== src/EClaim/Claims/Changes/Settling.antt =====
-- The other operations of src/eclaim/services/claims.py as changes of one claim.
use one_capture.Prelude.{
  ℕ, ◌≡◌, refl, sym, ap, ◌∙◌, Bool, true, false, not, ◌&&◌, Option, some, if◌then◌else◌, arith,
  not-false, list_eq, nat_eq, any, is_some, contains, if_either,
}
use one_capture.Prelude.Text.{Text}
use one_capture.Prelude.Result.{ok, >>=-eq-ok, ok-injective, guard-eq-ok}
use one_capture.EClaim.Sod.{Uuid, Principal}
use one_capture.EClaim.Claims.{
  Status, submitted, in_review, paid, status_beq, Claim, Session, get, lines_of, require_writer,
}
use one_capture.EClaim.Claims.Money.{is_out_of_pocket}
use one_capture.EClaim.Claims.Settle.{
  submitted_claim, submit, confirm_content, mark_paid, keyed_by, has_left, is_payable, is_returned,
  resubmit, attest,
}
use one_capture.EClaim.Claims.Changes.{
  may_move, Becomes, Changed, stored, relabelled, review_moves, status_stays, is_status,
}

parked_moves :
    (p : Status) (b : Bool) → p ≡ in_review → may_move p (if b then submitted else p) ≡ true
parked_moves p true here = review_moves p submitted here refl
parked_moves p false here = status_stays p

submitted-Becomes :
    (s : Session) (actor : Text) (now : ℕ) (attested self_verified : Bool) (c : Claim)
    → c.status ≡ in_review
    → Becomes c (submitted_claim s actor now attested self_verified c)
unfolding submitted_claim
submitted-Becomes s actor now attested self_verified c here =
    let moved =
      parked_moves c.status (not self_verified && contains s.verifying_clients c.client_id) here in
    if_either (Becomes c) (attested && any is_out_of_pocket (lines_of s c.id))
      (relabelled c _ refl moved refl refl) (relabelled c _ refl moved refl refl)

pub submit-Changed :
    (s : Session) (id : Uuid) (actor : Text) (now : ℕ) (line_count : ℕ)
    (attested self_verified : Bool) {s' : Session} (c : Claim)
    → get s id ≡ ok c
    → c.status ≡ in_review
    → submit s id actor now line_count attested self_verified ≡ ok s'
    → Changed s s'
unfolding submit
submit-Changed s id actor now line_count attested self_verified c got here h =
    let (d, found, h1) = >>=-eq-ok (get s id) _ h in
    let same = ok-injective (sym got ∙ found) in
    stored s id d _ _ actor found
      (submitted-Becomes s actor now attested self_verified d
        (ap (λ (x : Claim). x.status) (sym same) ∙ here))
      (ok-injective h1)

pub confirm_content-Changed :
    (s : Session) (id : Uuid) (actor : Text) (principal : Option Principal) {s' : Session}
    → confirm_content s id actor principal ≡ ok s'
    → Changed s s'
unfolding confirm_content
confirm_content-Changed s id actor principal h =
    let (c, got, h1) = >>=-eq-ok (get s id) _ h in
    let (u, writes, h2) = >>=-eq-ok (require_writer c principal) _ h1 in
    let (guard, h3) = guard-eq-ok (not (status_beq c.status submitted)) _ _ h2 in
    stored s id c _ _ actor got
      (relabelled c (record c { status = in_review }) refl
        (ap (λ p. may_move p in_review) (is_status c.status submitted (not-false _ guard))) refl
        refl)
      (ok-injective h3)

payable_pays : (p : Status) → is_payable p ≡ true → may_move p paid ≡ true
payable_pays p h = ground arith

pub mark_paid-Changed :
    (s : Session) (id : Uuid) (actor : Text) (principal : Option Principal) {s' : Session}
    → mark_paid s id actor principal ≡ ok s'
    → Changed s s'
unfolding mark_paid
mark_paid-Changed s id actor principal h =
    let (c, got, h1) = >>=-eq-ok (get s id) _ h in
    let (u, writes, h2) = >>=-eq-ok (require_writer c principal) _ h1 in
    let (other, h3) = guard-eq-ok (keyed_by c principal) _ _ h2 in
    let (guard, h4) = guard-eq-ok (not (is_payable c.status)) _ _ h3 in
    stored s id c _ _ actor got
      (relabelled c (record c { status = paid }) refl (payable_pays c.status (not-false _ guard))
        refl refl)
      (ok-injective h4)

returned_returns : (p : Status) → is_returned p ≡ true → may_move p in_review ≡ true
returned_returns p h = ground arith

pub resubmit-Changed :
    (s : Session) (id : Uuid) (actor : Text) (principal : Option Principal) {s' : Session}
    → resubmit s id actor principal ≡ ok s'
    → Changed s s'
unfolding resubmit
resubmit-Changed s id actor principal h =
    let (c, got, h1) = >>=-eq-ok (get s id) _ h in
    let (u, writes, h2) = >>=-eq-ok (require_writer c principal) _ h1 in
    let (guard, h3) = guard-eq-ok (not (is_returned c.status)) _ _ h2 in
    stored s id c _ _ actor got
      (relabelled c (record c { status = in_review }) refl
        (returned_returns c.status (not-false _ guard)) refl refl)
      (ok-injective h3)

pub attest-Changed :
    (s : Session) (id : Uuid) (actor : Text) (now : ℕ) (principal : Option Principal) {s' : Session}
    → attest s id actor now principal ≡ ok s'
    → Changed s s'
unfolding attest
attest-Changed s id actor now principal h =
    let (c, got, h1) = >>=-eq-ok (get s id) _ h in
    let (u, writes, h2) = >>=-eq-ok (require_writer c principal) _ h1 in
    let (early, h3) = guard-eq-ok (has_left c.status) _ _ h2 in
    let (some_paid, h4) = guard-eq-ok (not (any is_out_of_pocket (lines_of s id))) _ _ h3 in
    let (first, h5) = guard-eq-ok (is_some c.attested_by) _ _ h4 in
    stored s id c _ _ actor got
      (relabelled c (record c { attested_by = some actor; attested_at = some now }) refl
        (status_stays c.status) refl refl)
      (ok-injective h5)
