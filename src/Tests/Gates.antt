-- ===== src/Tests/Gates.antt =====
-- The gate on a claim, and the posting of a signed bill.
use one_capture.Prelude.{◌≡◌, refl, ◌↔◌, true, false, some, none, [], ◌∷◌, list_eq, nat_eq}
use one_capture.Prelude.Text.{codes}
use one_capture.Prelude.Result.{Result, ok, err, is_ok}
use one_capture.Decimal.{of_ℕ}
use one_capture.EClaim.Sod.{Claim, governed, can_approve}
use one_capture.EClaim.Sod.Gate.{MayApprove, can_approve_iff}
use one_capture.EClaim.Ap.{ApInvoice, Session}
use one_capture.EClaim.Ap.Create.{
  create_invoice, create_with, find_duplicate, key_taken, add_invoice, new_invoice,
}
use one_capture.EClaim.Ap.Approval.{approved_by}
use one_capture.EClaim.Ap.Settle.{PostResult, ErpError, mark_posted}
use one_capture.EClaim.Ap.Effects.{bill_at}
use one_capture.EClaim.Ap.Posting.{mark_posted_once}
use one_capture.Tests.Payables.{empty, band, manager, filed}

abbrev claim : Claim
claim = record {
  client_id = codes "c";
  created_by_user_id = some (codes "ann");
  total_claimed = some (of_ℕ 300);
  total_amount = none;
  department = none;
  category_ids = [];
}

can_approve_iff_example :
    (can_approve claim manager (governed band) ≡ true) ↔ MayApprove claim manager (governed band)
can_approve_iff_example = can_approve_iff claim manager (governed band)

abbrev signed : ApInvoice
signed = approved_by manager 9 filed.1

abbrev ledger : Session
ledger = record empty { invoices = signed ∷ [] }

abbrev receipt : PostResult
receipt = record { is_ok = true; erp_doc_entry = some (codes "CSV-1") }

signed_found : bill_at ledger.invoices signed.id ≡ some signed
unfolding approved_by create_invoice create_with find_duplicate key_taken add_invoice new_invoice
signed_found = refl

abbrev session_or_empty : Result ErpError Session → Session
session_or_empty (ok s) = s
session_or_empty (err e) = empty

abbrev posted_ledger : Session
posted_ledger = session_or_empty (mark_posted ledger signed receipt)

posted_ok : mark_posted ledger signed receipt ≡ ok posted_ledger
unfolding mark_posted approved_by create_invoice create_with find_duplicate key_taken add_invoice
    new_invoice
posted_ok = refl

mark_posted_once_example :
    (i' : ApInvoice) × (bill_at posted_ledger.invoices signed.id ≡ some i')
    × (i'.erp_doc_entry ≡ some (codes "CSV-1"))
    × (is_ok (mark_posted posted_ledger i' receipt) ≡ false)
mark_posted_once_example =
    mark_posted_once ledger signed receipt receipt (codes "CSV-1") signed_found refl refl posted_ok
      refl
