-- ===== src/EClaim/Ap/Effects/Deciding.antt =====
-- The effects of the operations from the submission on.
use mathlib.Core.Path.{subst}
use one_capture.Prelude.{
  ℕ, ◌≡◌, refl, Bool, true, false, not, Option, if◌then◌else◌, arith, is_some, Bool-cases, inl, inr,
  list_eq, nat_eq, not-false,
}
use one_capture.Prelude.Text.{Text}
use one_capture.Prelude.Result.{Result, ok, err, >>=-eq-ok, ok-injective, guard-eq-ok}
use one_capture.EClaim.Sod.{Uuid, Principal}
use one_capture.EClaim.Ap.{
  Status, captured, coded, pending_approval, approved, paid, held, rejected, status_beq, ApInvoice,
  Session, ApError, get_invoice, require_writer,
}
use one_capture.EClaim.Ap.Approval.{
  submit_for_approval, submitted, require_categories, approve, approved_by, is_approvable,
  release_hold, released,
}
use one_capture.EClaim.Ap.Settle.{
  mark_paid, filed_by, is_payable, unapprove, reject, is_settled, turned_down, reopened, PostResult,
  mark_posted, is_postable, stamped, after_posting,
}
use one_capture.EClaim.Ap.Checked.{Decided, approve-Decided}
use one_capture.EClaim.Ap.Effects.{may_move, none_changed, EffectOf, moved}

coded_moves : (q : Status) → status_beq q coded ≡ true → may_move q pending_approval ≡ true
coded_moves q h = ground arith

pub submit_for_approval-Effect :
    (s : Session) (id : Uuid) (actor : Text) (p : Option Principal) {s' : Session}
    → submit_for_approval s id actor p ≡ ok s'
    → EffectOf s s'
unfolding submit_for_approval
submit_for_approval-Effect s id actor p h =
    let (i, found, h1) = >>=-eq-ok (get_invoice s id) _ h in
    let (fit, h2) = guard-eq-ok (not (status_beq i.status coded)) _ _ h1 in
    let (_, e, h3) = >>=-eq-ok (require_categories s i) _ h2 in
    subst (EffectOf s) (ok-injective h3) (
      moved s id i (submitted p i) found (unfold submitted in refl)
        (unfold submitted in coded_moves i.status (not-false _ fit)) refl)

approvable_moves : (q : Status) → is_approvable q ≡ true → may_move q approved ≡ true
approvable_moves q h = ground arith

pub approve-Effect :
    (s : Session) (id : Uuid) (p : Principal) (actor : Text) (now : ℕ)
    → EffectOf s (approve s id p actor now).0
approve-Effect s id p actor now =
    by_outcome (approve s id p actor now) (approve-Decided s id p actor now)
  where
    by_outcome : (r : Session × Result ApError (Unit {0})) → Decided s id p now r → EffectOf s r.0
    by_outcome (s', ok u) d =
        moved s id d.invoice (approved_by p now d.invoice) d.ready.found
          (unfold approved_by in refl)
          (unfold approved_by in approvable_moves d.invoice.status d.ready.waiting) d.stored
    by_outcome (s', err x) d = none_changed d.same_invoices

held_moves :
    (q : Status) (b : Bool)
    → status_beq q held ≡ true
    → may_move q (if b then coded else captured) ≡ true
held_moves q true h = ground arith
held_moves q false h = ground arith

pub release_hold-Effect :
    (s : Session) (id : Uuid) (actor : Text) {s' : Session}
    → release_hold s id actor ≡ ok s'
    → EffectOf s s'
unfolding release_hold
release_hold-Effect s id actor h =
    let (i, found, h1) = >>=-eq-ok (get_invoice s id) _ h in
    let (fit, h2) = guard-eq-ok (not (status_beq i.status held)) _ _ h1 in
    subst (EffectOf s) (ok-injective h2) (
      moved s id i (released i) found (unfold released in refl)
        (unfold released in held_moves i.status (is_some i.coded_by_user_id) (not-false _ fit))
        refl)

payable_moves : (q : Status) → is_payable q ≡ true → may_move q paid ≡ true
payable_moves q h = ground arith

pub mark_paid-Effect :
    (s : Session) (id : Uuid) (actor : Text) (payer : Option Principal) {s' : Session}
    → mark_paid s id actor payer ≡ ok s'
    → EffectOf s s'
unfolding mark_paid
mark_paid-Effect s id actor payer h =
    let (i, found, h1) = >>=-eq-ok (get_invoice s id) _ h in
    let (_, h2) = guard-eq-ok (filed_by i payer) _ _ h1 in
    let (fit, h3) = guard-eq-ok (not (is_payable i.status)) _ _ h2 in
    subst (EffectOf s) (ok-injective h3) (
      moved s id i (record i { status = paid }) found refl
        (payable_moves i.status (not-false _ fit)) refl)

approved_moves : (q : Status) → status_beq q approved ≡ true → may_move q coded ≡ true
approved_moves q h = ground arith

pub unapprove-Effect :
    (s : Session) (id : Uuid) (editor : Principal) (actor : Text) {s' : Session}
    → unapprove s id editor actor ≡ ok s'
    → EffectOf s s'
unfolding unapprove
unapprove-Effect s id editor actor h =
    let (i, found, h1) = >>=-eq-ok (get_invoice s id) _ h in
    let (_, e, h2) = >>=-eq-ok (require_writer editor i) _ h1 in
    let (fit, h3) = guard-eq-ok (not (status_beq i.status approved)) _ _ h2 in
    subst (EffectOf s) (ok-injective h3) (
      moved s id i (reopened i) found (unfold reopened in refl)
        (unfold reopened in approved_moves i.status (not-false _ fit)) refl)

unsettled_moves : (q : Status) → is_settled q ≡ false → may_move q rejected ≡ true
unsettled_moves q h = ground arith

pub reject-Effect :
    (s : Session) (id : Uuid) (actor : Text) (reason : Option Text) {s' : Session}
    → reject s id actor reason ≡ ok s'
    → EffectOf s s'
unfolding reject
reject-Effect s id actor reason h =
    let (i, found, h1) = >>=-eq-ok (get_invoice s id) _ h in
    let (fit, h2) = guard-eq-ok (is_settled i.status) _ _ h1 in
    subst (EffectOf s) (ok-injective h2) (
      moved s id i (turned_down reason i) found (unfold turned_down in refl)
        (unfold turned_down in unsettled_moves i.status fit) refl)

postable_moves : (q : Status) → is_postable q ≡ true → may_move q (after_posting q) ≡ true
postable_moves q h = ground arith

pub mark_posted-Effect :
    (s : Session) (id : Uuid) (i : ApInvoice) (r : PostResult) {s' : Session}
    → get_invoice s id ≡ ok i
    → mark_posted s i r ≡ ok s'
    → EffectOf s s'
unfolding mark_posted
mark_posted-Effect s id i r found h = elim (Bool-cases (not r.is_ok)) [
  | inl failed ↦ subst (EffectOf s) (ok-injective (rw failed at h)) (none_changed refl)
  | inr posting ↦
      (let (fit, h1) = guard-eq-ok (not (is_postable i.status)) _ _ (rw posting at h) in
        let (_, h2) = guard-eq-ok (is_some i.erp_doc_entry) _ _ h1 in
        subst (EffectOf s) (ok-injective h2) (
          moved s id i (stamped r i) found (unfold stamped in refl)
            (unfold stamped in postable_moves i.status (not-false _ fit)) refl))
]
