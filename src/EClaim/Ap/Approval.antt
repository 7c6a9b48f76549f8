-- ===== src/EClaim/Ap/Approval.antt =====
-- From a coded bill to an approved one: src/eclaim/services/ap.py.
use one_capture.Prelude.{
  ℕ, Bool, not, ◌||◌, Option, none, some, List, [], ◌∷◌, if◌then◌else◌, any, keep, map, is_some,
  ◌==◌, list_eq, nat_eq,
}
use one_capture.Prelude.Text.{Text, codes}
use one_capture.Prelude.Result.{Result, ok, err, ◌>>=◌, raise_if}
use one_capture.EClaim.Sod.{
  Uuid, is_id, Principal, can_access_client, ApprovalMatrixRule, Governing, governing, SodViolation,
  is_viewer, no_grant, not_coded, is_coder, is_creator, is_submitter, check_authority, or_zero,
}
use one_capture.EClaim.Ap.{
  Status, captured, coded, pending_approval, approved, held, status_beq, ApInvoice, ApInvoiceLine,
  ap_submitted, ap_approved, ap_approval_denied, ap_hold_released, Session, ApError,
  illegal_transition, sod, line_without_category, audit, get_invoice, put_invoice, lines_of,
}

unfoldable pub all_categorised : Session → Uuid → Bool
all_categorised s id = not (any (λ l. not (is_some l.input.category_id)) (lines_of s id))

-- `_require_categories(session, invoice)`
unfoldable pub require_categories : Session → ApInvoice → Result ApError (Unit {0})
require_categories s invoice = raise_if (not (all_categorised s invoice.id)) line_without_category

abbrev submitted_by : Option Principal → Option Uuid → Option Uuid
submitted_by none old = old
submitted_by (some p) old = some p.user_id

unfoldable pub submitted : Option Principal → ApInvoice → ApInvoice
submitted submitter invoice = record invoice {
  status = pending_approval;
  submitted_by_user_id = submitted_by submitter invoice.submitted_by_user_id;
}

-- `submit_for_approval(session, invoice_id, actor, submitter)`
unfoldable pub submit_for_approval :
    Session → Uuid → Text → Option Principal → Result ApError Session
submit_for_approval s invoice_id actor submitter = do
  invoice ← get_invoice s invoice_id
  _ ← raise_if (not (status_beq invoice.status coded)) (illegal_transition invoice.status)
  _ ← require_categories s invoice
  let new = submitted submitter invoice
  ok (audit new ap_submitted actor (put_invoice new s))

-- `check_can_approve_invoice(invoice, approver, matrix_rule=...)`
unfoldable pub check_can_approve_invoice :
    ApInvoice → Principal → Governing → Result SodViolation (Unit {0})
check_can_approve_invoice invoice approver rule = do
  _ ← raise_if (approver.base_role == codes "viewer") is_viewer
  _ ← raise_if (not (can_access_client approver invoice.client_id)) no_grant
  _ ← raise_if (not (is_some invoice.coded_by_user_id)) not_coded
  _ ← raise_if (is_id invoice.coded_by_user_id approver.user_id) is_coder
  _ ← raise_if (is_id invoice.created_by_user_id approver.user_id) is_creator
  _ ← raise_if (is_id invoice.submitted_by_user_id approver.user_id) is_submitter
  check_authority invoice.total_amount approver rule

unfoldable pub rules_of : Uuid → List (Uuid × ApprovalMatrixRule) → List ApprovalMatrixRule
rules_of client rules = map (λ r. r.1) (keep (λ r. r.0 == client) rules)

unfoldable pub categories_of : List ApInvoiceLine → List Uuid
categories_of [] = []
categories_of (l ∷ ls) = elim l.input.category_id [
  | none ↦ categories_of ls
  | some c ↦ c ∷ categories_of ls
]

-- `matrix_rule_for_invoice(session, invoice)`
unfoldable pub matrix_rule_for_invoice : Session → ApInvoice → Governing
matrix_rule_for_invoice s invoice =
    governing (rules_of invoice.client_id s.rules) (or_zero invoice.total_amount) none
      (categories_of (lines_of s invoice.id)) (codes "ap")

-- The bill after its approval, at this time.
unfoldable pub approved_by : Principal → ℕ → ApInvoice → ApInvoice
approved_by approver now invoice = record invoice {
  status = approved;
  approved_by_user_id = some approver.user_id;
  approved_at = some now;
}

-- `_record_denied` commits its event on its own, where the approver has access.
unfoldable pub record_denied : ApInvoice → Principal → Text → SodViolation → Session → Session
record_denied invoice approver actor reason s =
    if can_access_client approver invoice.client_id
    then audit invoice (ap_approval_denied reason) actor s
    else s

unfoldable pub conclude :
    Session
    → ApInvoice
    → Principal
    → Text
    → ℕ
    → Result SodViolation (Unit {0})
    → Session × Result ApError (Unit {0})
conclude s invoice approver actor now (ok _) = (
  audit (approved_by approver now invoice) ap_approved actor
      (put_invoice (approved_by approver now invoice) s),
  ok tt,
)
conclude s invoice approver actor now (err reason) =
    (record_denied invoice approver actor reason s, err (sod reason))

abbrev pub is_approvable : Status → Bool
is_approvable status = status_beq status pending_approval || status_beq status coded

-- The guards of `approve` before the gate.
unfoldable pub approvable : Session → Uuid → Result ApError ApInvoice
approvable s invoice_id = do
  invoice ← get_invoice s invoice_id
  _ ← raise_if (not (is_approvable invoice.status)) (illegal_transition invoice.status)
  _ ← require_categories s invoice
  ok invoice

unfoldable pub decide :
    Session → Principal → Text → ℕ → Result ApError ApInvoice → Session × Result ApError (Unit {0})
decide s approver actor now (err e) = (s, err e)
decide s approver actor now (ok invoice) =
    conclude s invoice approver actor now
      (check_can_approve_invoice invoice approver (matrix_rule_for_invoice s invoice))

-- `approve(session, invoice_id, approver, actor)`: what is durable after it, and its outcome.
unfoldable pub approve : Session → Uuid → Principal → Text → ℕ → Session × Result ApError (Unit {0})
approve s invoice_id approver actor now = decide s approver actor now (approvable s invoice_id)

unfoldable pub released : ApInvoice → ApInvoice
released invoice = record invoice {
  status = if is_some invoice.coded_by_user_id then coded else captured;
  hold_reason = none;
}

-- `release_hold(session, invoice_id, actor)`
unfoldable pub release_hold : Session → Uuid → Text → Result ApError Session
release_hold s invoice_id actor = do
  invoice ← get_invoice s invoice_id
  _ ← raise_if (not (status_beq invoice.status held)) (illegal_transition invoice.status)
  let new = released invoice
  ok (audit new (ap_hold_released new.status invoice.hold_reason) actor (put_invoice new s))
