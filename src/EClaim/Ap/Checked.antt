-- ===== src/EClaim/Ap/Checked.antt =====
-- What an approval has passed, and what a refused one leaves.
use mathlib.Core.Path.{subst}
use one_capture.Prelude.{
  ℕ, ◌≡◌, refl, Bool, true, false, not, ◌||◌, [], ◌∷◌, arith, is_some, Bool-cases, inl, inr, ◌==◌,
  list_eq, nat_eq, length, length-append, ◌≤◌, suc, not-false,
}
use one_capture.Prelude.Text.{Text, codes}
use one_capture.Prelude.Result.{
  Result, ok, err, >>=-eq-ok, ok-injective, raise_if-eq-ok, guard-eq-ok,
}
use one_capture.EClaim.Sod.{
  Uuid, Principal, can_access_client, Governing, SodViolation, exceeds, is_no_band, unmet,
  check_authority, is_id,
}
use one_capture.EClaim.Ap.{ApInvoice, Session, ApError, get_invoice, put_row}
use one_capture.EClaim.Ap.Approval.{
  all_categorised, require_categories, check_can_approve_invoice, matrix_rule_for_invoice,
  approved_by, is_approvable, approvable, decide, conclude, record_denied, approve,
}
use one_capture.EClaim.Ap.Separation.{prepared_by}

-- Every condition of the gate on a bill.
pub record IsAdmitted (i : ApInvoice) (p : Principal) (rule : Governing) : Type 0 where
  pub not_viewer : (p.base_role == codes "viewer") ≡ false
  pub has_grant : can_access_client p i.client_id ≡ true
  pub is_coded : is_some i.coded_by_user_id ≡ true
  pub apart : prepared_by i p.user_id ≡ false
  pub within_limit : exceeds i.total_amount p.authority_limit ≡ false
  pub has_band : is_no_band rule ≡ false
  pub satisfies : unmet rule p ≡ false

none_of : (a b c : Bool) → a ≡ false → b ≡ false → c ≡ false → (a || b || c) ≡ false
none_of false b c ha hb hc = ground (arith, hb, hc)
none_of true b c ha hb hc = cc

check_can_approve_invoice-IsAdmitted :
    (i : ApInvoice) (p : Principal) (rule : Governing) {u : Unit {0}}
    → check_can_approve_invoice i p rule ≡ ok u
    → IsAdmitted i p rule
unfolding check_can_approve_invoice check_authority
check_can_approve_invoice-IsAdmitted i p rule h =
    let (e1, h1) = guard-eq-ok (p.base_role == codes "viewer") _ _ h in
    let (e2, h2) = guard-eq-ok (not (can_access_client p i.client_id)) _ _ h1 in
    let (e3, h3) = guard-eq-ok (not (is_some i.coded_by_user_id)) _ _ h2 in
    let (e4, h4) = guard-eq-ok (is_id i.coded_by_user_id p.user_id) _ _ h3 in
    let (e5, h5) = guard-eq-ok (is_id i.created_by_user_id p.user_id) _ _ h4 in
    let (e6, h6) = guard-eq-ok (is_id i.submitted_by_user_id p.user_id) _ _ h5 in
    let (e7, h7) = guard-eq-ok (exceeds i.total_amount p.authority_limit) _ _ h6 in
    let (e8, h8) = guard-eq-ok (is_no_band rule) _ _ h7 in
    record {
      not_viewer = e1;
      has_grant = not-false _ e2;
      is_coded = not-false _ e3;
      apart = none_of _ _ _ e4 e5 e6;
      within_limit = e7;
      has_band = e8;
      satisfies = raise_if-eq-ok (unmet rule p) _ h8;
    }

pub record IsReady (s : Session) (id : Uuid) (i : ApInvoice) : Type 0 where
  pub found : get_invoice s id ≡ ok i
  pub waiting : is_approvable i.status ≡ true
  pub categorised : all_categorised s i.id ≡ true

approvable-IsReady :
    (s : Session) (id : Uuid) {i : ApInvoice} → approvable s id ≡ ok i → IsReady s id i
unfolding approvable require_categories
approvable-IsReady s id h =
    let (j, found, h1) = >>=-eq-ok (get_invoice s id) _ h in
    let (e1, h2) = guard-eq-ok (not (is_approvable j.status)) _ _ h1 in
    let (e2, h3) = guard-eq-ok (not (all_categorised s j.id)) _ _ h2 in
    subst (IsReady s id) (ok-injective h3)
      (record { found = found; waiting = not-false _ e1; categorised = not-false _ e2 })

-- What a session is after this user's approval of a bill.
pub record IsApproval (s : Session) (id : Uuid) (p : Principal) (now : ℕ) (s' : Session)
    : Type 0 where
  pub invoice : ApInvoice
  pub ready : IsReady s id invoice
  pub admitted : IsAdmitted invoice p (matrix_rule_for_invoice s invoice)
  pub stored : s'.invoices ≡ put_row (approved_by p now invoice) s.invoices

-- What a session is after a refusal.
pub record IsRefusal (s s' : Session) : Type 0 where
  pub same_invoices : s'.invoices ≡ s.invoices
  pub same_lines : s'.lines ≡ s.lines
  pub one_event : length s'.events ≤ suc (length s.events)

abbrev pub Decided : Session → Uuid → Principal → ℕ → Session × Result ApError (Unit {0}) → Type 0
Decided s id p now (s', ok _) = IsApproval s id p now s'
Decided s id p now (s', err _) = IsRefusal s s'

record_denied-IsRefusal :
    (i : ApInvoice) (p : Principal) (actor : Text) (reason : SodViolation) (s : Session)
    → IsRefusal s (record_denied i p actor reason s)
unfolding record_denied
record_denied-IsRefusal i p actor reason s = elim (Bool-cases (can_access_client p i.client_id)) [
  | inl access ↦ rw access (record {
    same_invoices = refl;
    same_lines = refl;
    one_event = omega (arith, length-append s.events (_ ∷ []));
  })
  | inr none_yet ↦
      rw none_yet (record { same_invoices = refl; same_lines = refl; one_event = omega arith })
]

conclude-Decided :
    (s : Session) (id : Uuid) (i : ApInvoice) (p : Principal) (actor : Text) (now : ℕ)
    (r : Result SodViolation (Unit {0}))
    → IsReady s id i
    → check_can_approve_invoice i p (matrix_rule_for_invoice s i) ≡ r
    → Decided s id p now (conclude s i p actor now r)
unfolding conclude
conclude-Decided s id i p actor now (ok u) ready e = record {
  invoice = i;
  ready = ready;
  admitted = check_can_approve_invoice-IsAdmitted i p _ e;
  stored = refl;
}
conclude-Decided s id i p actor now (err reason) ready e =
    record_denied-IsRefusal i p actor reason s

decide-Decided :
    (s : Session) (id : Uuid) (p : Principal) (actor : Text) (now : ℕ)
    (r : Result ApError ApInvoice)
    → approvable s id ≡ r
    → Decided s id p now (decide s p actor now r)
unfolding decide
decide-Decided s id p actor now (err x) e = record {
  same_invoices = refl;
  same_lines = refl;
  one_event = omega arith;
}
decide-Decided s id p actor now (ok i) e =
    conclude-Decided s id i p actor now _ (approvable-IsReady s id e) refl

-- An attempt to approve a bill ends in one of two ways. If it is approved, then the bill was
-- found, waited as pending or coded, had a category on every line, and passed every check of the
-- gate: the approver is no viewer, has the client's grant, has not coded, filed or submitted the
-- bill, is within the personal limit, and satisfies the matrix, which has a band for the amount;
-- the approved bill replaces the rows of its id, and no other row changes. If it is refused, the
-- bills and their lines are as before, and at most one audit event is added.
pub approve-Decided :
    (s : Session) (id : Uuid) (p : Principal) (actor : Text) (now : ℕ)
    → Decided s id p now (approve s id p actor now)
unfolding approve
approve-Decided s id p actor now = decide-Decided s id p actor now (approvable s id) refl
