-- ===== src/Tests/Payables.antt =====
-- A bill from its filing to its approval, and the matrix that governs it.
use one_capture.Prelude.{◌≡◌, refl, true, Option, none, some, [], ◌∷◌, ◌++◌, list_eq, nat_eq}
use one_capture.Prelude.Text.{Text, codes}
use one_capture.Prelude.Result.{Result, ok, err}
use one_capture.Decimal.{of_ℕ, dec_leb, dec_gtb, dec_beq}
use one_capture.Prelude.Sorting.{sorted, insert_sorted}
use one_capture.EClaim.Sod.{
  Principal, can_access_client, ApprovalMatrixRule, governing, fits, matrix_gap, select_matrix_rule,
  check_authority, in_band, department_fits, category_fits, specificity, bit, is_band, floor_of,
  lowest, rule_satisfied, has_rank,
}
use one_capture.EClaim.Sod.Matrix.{Selection, select_matrix_rule-Selection}
use one_capture.EClaim.Ap.{
  ApInvoice, LineInput, Session, ApError, get_invoice, require_writer, require_editable, put_row,
}
use one_capture.EClaim.Ap.Create.{
  FreshIds, InvoiceInput, find_duplicate, new_invoice, key_taken, create_with, create_invoice,
  add_invoice, numbered_lines, or_text, default_idem,
}
use one_capture.EClaim.Ap.Duplicates.{Filing, create_invoice-Filing}
use one_capture.EClaim.Ap.Approval.{
  approve, submit_for_approval, submitted, decide, approvable, conclude, approved_by,
  check_can_approve_invoice, matrix_rule_for_invoice, rules_of, categories_of, require_categories,
  all_categorised,
}
use one_capture.EClaim.Ap.Edit.{code_line, code_invoice, put_line, code_row, coded_input, snapshot}
use one_capture.EClaim.Ap.Checked.{Decided, approve-Decided}
use one_capture.EClaim.Ap.Lifecycle.{Reach, start, next, codes_line, submits, decides}
use one_capture.EClaim.Ap.Effects.{bill_at}
use one_capture.EClaim.Ap.Moves.{is_final, Reach-final}
use one_capture.EClaim.Ap.Settle.{reject, turned_down}

-- One band, from 100 up to 1000, for a manager.
abbrev pub band : ApprovalMatrixRule
band = record {
  scope_department = none;
  scope_category_id = none;
  scope_module = some (codes "ap");
  min_amount = some (of_ℕ 100);
  max_amount = some (of_ℕ 1000);
  step_order = 1;
  approver_role = some (codes "manager");
  approver_user_id = none;
  active = true;
}

abbrev pub empty : Session
empty = record {
  invoices = [];
  lines = [];
  vendors = [];
  categories = (codes "power", true) ∷ [];
  rules = (codes "c", band) ∷ [];
  events = [];
}

abbrev fresh_ids : FreshIds
fresh_ids = record {
  invoice = codes "i1";
  vendor = codes "v1";
  line = λ n. n ∷ [];
  hex = codes "f0";
}

abbrev bill_line : LineInput
bill_line = record {
  description = some (codes "Electricity");
  quantity = none;
  uom = none;
  unit_price = none;
  line_total = some (of_ℕ 120);
  gl_code = none;
  tax_code = none;
  category_id = none;
  department = none;
  project_code = none;
}

abbrev bill : InvoiceInput
bill = record {
  firm_id = codes "f";
  client_id = codes "c";
  created_by_user_id = some (codes "ann");
  vendor_id = codes "v1";
  doc_no = some (codes "INV-7");
  doc_date = none;
  due_date = none;
  payment_terms = none;
  currency = [];
  subtotal = none;
  tax_amount = none;
  total_amount = some (of_ℕ 120);
  po_ref = none;
  do_ref = none;
  image_sha256 = none;
  image_path = none;
  intake_id = none;
  lines = bill_line ∷ [];
  idempotency_key = none;
}

abbrev clerk : Principal
clerk = record {
  user_id = codes "cy";
  firm_id = codes "f";
  base_role = codes "approver";
  allowed_client_ids = codes "c" ∷ [];
  authority_limit = none;
  email = none;
}

abbrev pub manager : Principal
manager = record {
  user_id = codes "bob";
  firm_id = codes "f";
  base_role = codes "manager";
  allowed_client_ids = codes "c" ∷ [];
  authority_limit = some (of_ℕ 500);
  email = none;
}

abbrev outcome : Session × ApInvoice → Result ApError (Session × ApInvoice) → Session × ApInvoice
outcome fallback (ok r) = r
outcome fallback (err e) = fallback

-- The session after the bill is filed, and the bill.
abbrev pub filed : Session × ApInvoice
filed =
    outcome (empty, new_invoice fresh_ids bill none)
      (create_invoice empty fresh_ids (codes "ann") bill)

filed_ok : create_invoice empty fresh_ids (codes "ann") bill ≡ ok filed
unfolding create_invoice create_with find_duplicate key_taken
filed_ok = refl

create_invoice-Filing_example : Filing empty bill filed.1 × (filed.0.invoices ≡ [] ++ filed.1 ∷ [])
create_invoice-Filing_example = create_invoice-Filing empty fresh_ids (codes "ann") bill filed_ok

abbrev coding : LineInput
coding = record bill_line { category_id = some (codes "power") }

abbrev after : Session → Result ApError Session → Session
after fallback (ok s) = s
after fallback (err e) = fallback

-- The clerk codes the one line, and submits the bill.
abbrev coded_bill : Session
coded_bill = after empty (code_line filed.0 (1 ∷ []) clerk (codes "cy") coding)

coded_ok : code_line filed.0 (1 ∷ []) clerk (codes "cy") coding ≡ ok coded_bill
unfolding code_line get_invoice require_writer require_editable create_invoice create_with
    find_duplicate key_taken can_access_client add_invoice numbered_lines new_invoice
coded_ok = refl

abbrev submitted_bill : Session
submitted_bill = after empty (submit_for_approval coded_bill (codes "i1") (codes "cy") (some clerk))

submitted_ok :
    submit_for_approval coded_bill (codes "i1") (codes "cy") (some clerk) ≡ ok submitted_bill
unfolding submit_for_approval get_invoice code_line create_invoice create_with key_taken add_invoice
    numbered_lines new_invoice require_writer can_access_client require_editable find_duplicate
    put_row code_invoice put_line code_row coded_input snapshot submitted require_categories
    all_categorised
submitted_ok = refl

abbrev approved_bill : Session × Result ApError (Unit {0})
approved_bill = approve submitted_bill (codes "i1") manager (codes "bob") 9

approved_ok : approved_bill.1 ≡ ok tt
unfolding approve submit_for_approval get_invoice code_line create_invoice create_with key_taken
    add_invoice numbered_lines new_invoice require_writer can_access_client require_editable
    find_duplicate put_row code_invoice put_line code_row coded_input snapshot submitted
    require_categories all_categorised decide approvable conclude approved_by
    check_can_approve_invoice check_authority matrix_rule_for_invoice rules_of categories_of
    governing select_matrix_rule fits in_band department_fits category_fits specificity bit sorted
    insert_sorted matrix_gap is_band floor_of lowest rule_satisfied has_rank dec_leb dec_gtb dec_beq
    or_text default_idem
approved_ok = refl

approve-Decided_example : Decided submitted_bill (codes "i1") manager 9 approved_bill
approve-Decided_example = approve-Decided submitted_bill (codes "i1") manager (codes "bob") 9

whole_text : Text → Text
whole_text t = t

no_date : Text → Text → Option Text
no_date t f = none

-- The filed bill is coded, submitted and approved.
approval_run : Reach whole_text no_date filed.0 approved_bill.0
approval_run =
    next
      (next (next start (codes_line (1 ∷ []) clerk (codes "cy") coding coded_ok))
        (submits (codes "i1") (codes "cy") (some clerk) submitted_ok))
      (decides (codes "i1") manager (codes "bob") 9)

filed_found : bill_at filed.0.invoices (codes "i1") ≡ some filed.1
unfolding create_invoice create_with find_duplicate key_taken add_invoice new_invoice
filed_found = refl

abbrev turned_away : ApInvoice
turned_away = turned_down none filed.1

abbrev rejected_bill : Session
rejected_bill = after empty (reject filed.0 (codes "i1") (codes "bob") none)

rejected_found : bill_at rejected_bill.invoices (codes "i1") ≡ some turned_away
unfolding reject create_invoice create_with find_duplicate key_taken add_invoice new_invoice
    get_invoice put_row turned_down
rejected_found = refl

rejected_final : is_final turned_away.status ≡ true
unfolding turned_down
rejected_final = refl

Reach-final_example :
    (now : ApInvoice) × (bill_at
        (approve rejected_bill (codes "i1") manager (codes "bob") 9).0.invoices
        (codes "i1")
      ≡ some now)
    × (now.status ≡ turned_away.status)
Reach-final_example =
    Reach-final whole_text no_date (next start (decides (codes "i1") manager (codes "bob") 9))
      (codes "i1") turned_away rejected_found rejected_final

select_matrix_rule-Selection_example :
    Selection
      (band ∷ [])
      (fits (of_ℕ 120) none [] (codes "ap"))
      (select_matrix_rule (band ∷ []) (of_ℕ 120) none [] (codes "ap"))
select_matrix_rule-Selection_example =
    select_matrix_rule-Selection (band ∷ []) (of_ℕ 120) none [] (codes "ap")
