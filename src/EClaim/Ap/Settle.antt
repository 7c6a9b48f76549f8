-- ===== src/EClaim/Ap/Settle.antt =====
-- After the approval: `mark_paid`, `unapprove`, `reject` and `exportable_invoices` of
-- src/eclaim/services/ap.py, and `mark_posted` of src/eclaim/services/erp.py.
use one_capture.Prelude.{
  Bool, false, not, ◌&&◌, ◌||◌, Option, none, some, List, [], ◌∷◌, ◌++◌, if◌then◌else◌, keep,
  contains, is_some, list_eq, nat_eq,
}
use one_capture.Prelude.Text.{Text}
use one_capture.Prelude.Result.{Result, ok, ◌>>=◌, raise_if}
use one_capture.EClaim.Sod.{Uuid, is_id, Principal, is_payer}
use one_capture.EClaim.Ap.{
  Status, coded, approved, posted, paid, rejected, status_beq, HoldReason, given, ApInvoice,
  ap_paid, ap_unapproved, ap_rejected, Session, ApError, illegal_transition, sod, audit,
  get_invoice, put_invoice, require_writer,
}

pub filed_by : ApInvoice → Option Principal → Bool
filed_by invoice none = false
filed_by invoice (some payer) = is_id invoice.created_by_user_id payer.user_id

abbrev pub is_payable : Status → Bool
is_payable status = status_beq status approved || status_beq status posted

-- `mark_paid(session, invoice_id, actor, payer)`
unfoldable pub mark_paid : Session → Uuid → Text → Option Principal → Result ApError Session
mark_paid s invoice_id actor payer = do
  invoice ← get_invoice s invoice_id
  _ ← raise_if (filed_by invoice payer) (sod is_payer)
  _ ← raise_if (not (is_payable invoice.status)) (illegal_transition invoice.status)
  let new = record invoice { status = paid }
  ok (audit new ap_paid actor (put_invoice new s))

unfoldable pub reopened : ApInvoice → ApInvoice
reopened invoice = record invoice { status = coded; approved_by_user_id = none; approved_at = none }

-- `unapprove(session, invoice_id, editor, actor)`
unfoldable pub unapprove : Session → Uuid → Principal → Text → Result ApError Session
unapprove s invoice_id editor actor = do
  invoice ← get_invoice s invoice_id
  _ ← require_writer editor invoice
  _ ← raise_if (not (status_beq invoice.status approved)) (illegal_transition invoice.status)
  let new = reopened invoice
  ok (audit new (ap_unapproved invoice.approved_by_user_id) actor (put_invoice new s))

pub hold_text : Option Text → Option HoldReason
hold_text none = none
hold_text (some reason) = some (given reason)

unfoldable pub turned_down : Option Text → ApInvoice → ApInvoice
turned_down reason invoice = record invoice { status = rejected; hold_reason = hold_text reason }

abbrev pub is_settled : Status → Bool
is_settled status = status_beq status posted || status_beq status paid

-- `reject(session, invoice_id, actor, reason)`
unfoldable pub reject : Session → Uuid → Text → Option Text → Result ApError Session
reject s invoice_id actor reason = do
  invoice ← get_invoice s invoice_id
  _ ← raise_if (is_settled invoice.status) (illegal_transition invoice.status)
  let new = turned_down reason invoice
  ok (audit new (ap_rejected reason) actor (put_invoice new s))

abbrev pub is_postable : Status → Bool
is_postable status = status_beq status approved || status_beq status paid

abbrev newest_first : List ApInvoice → List ApInvoice
newest_first [] = []
newest_first (i ∷ is) = newest_first is ++ i ∷ []

-- `exportable_invoices(session, client_ids)`
exportable_invoices : Session → List Uuid → List ApInvoice
exportable_invoices s client_ids = newest_first (
    keep
      (λ i.
        contains client_ids i.client_id && is_postable i.status && not (is_some i.erp_doc_entry))
      s.invoices)

-- The fields of `PostResult` that `mark_posted` reads.
pub record PostResult : Type 0 where
  pub is_ok : Bool
  pub erp_doc_entry : Option Text

-- The two refusals of `mark_posted`.
pub data ErpError : Type 0 where
  not_postable : Status → ErpError
  already_posted : ErpError

abbrev pub after_posting : Status → Status
after_posting status = if status_beq status approved then posted else status

unfoldable pub stamped : PostResult → ApInvoice → ApInvoice
stamped result invoice = record invoice {
  erp_doc_entry = result.erp_doc_entry;
  status = after_posting invoice.status;
}

-- `mark_posted(session, invoice, result)`
unfoldable pub mark_posted : Session → ApInvoice → PostResult → Result ErpError Session
mark_posted s invoice result = if not result.is_ok then ok s else (do
  _ ← raise_if (not (is_postable invoice.status)) (not_postable invoice.status)
  _ ← raise_if (is_some invoice.erp_doc_entry) already_posted
  ok (put_invoice (stamped result invoice) s))
