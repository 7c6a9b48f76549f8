-- ===== src/EClaim/Ap/Preservation.antt =====
-- Each operation on a bill keeps the duties on it apart.
use mathlib.Core.Path.{subst}
use one_capture.Prelude.{
  ℕ, ◌≡◌, refl, sym, Bool, not, Option, none, some, List, [], ◌∷◌, ◌++◌, arith, All, All-append,
  is_some, Bool-cases, inl, inr, find_first, leb, length, contains, ◌==◌, list_eq, nat_eq,
  eq_of_some, not-false,
}
use one_capture.Prelude.Text.{Text}
use one_capture.Prelude.Result.{Result, ok, err, >>=-eq-ok, ok-injective, or_raise, guard-eq-ok}
use one_capture.EClaim.Sod.{Uuid, Principal}
use one_capture.EClaim.Ap.{
  coded, approved, held, is_editable, status_beq, ApInvoice, LineInput, Session, ApError,
  get_invoice, get_line, put_row, lines_of, require_writer, require_editable,
}
use one_capture.EClaim.Ap.Create.{
  FreshIds, InvoiceInput, new_invoice, key_taken, create_with, create_invoice, get_or_create_vendor,
  add_vendor, add_invoice,
}
use one_capture.EClaim.Ap.Intake.{DocumentIntake, not_payable_types, create_from_intake}
use one_capture.EClaim.Ap.Edit.{
  code_line, HeaderInput, edit_header, rename_vendor, audit_changes, header_changes, add_line,
  remove_line,
}
use one_capture.EClaim.Ap.Approval.{submit_for_approval, require_categories, approve, release_hold}
use one_capture.EClaim.Ap.Settle.{
  mark_paid, filed_by, is_payable, unapprove, reject, is_settled, PostResult, mark_posted,
  is_postable,
}
use one_capture.EClaim.Ap.Checked.{Decided, approve-Decided}
use one_capture.EClaim.Ap.Separation.{
  IsSeparated, new_invoice-IsSeparated, code_invoice-IsSeparated, header-IsSeparated,
  submitted-IsSeparated, approved_by-IsSeparated, released-IsSeparated, paid-IsSeparated,
  reopened-IsSeparated, turned_down-IsSeparated, stamped-IsSeparated,
}

-- Every bill of the session has its duties apart.
abbrev pub AllApart : Session → Type 0
AllApart s = All IsSeparated s.invoices

find_first-All :
    (P : ApInvoice → Type 0) (p : ApInvoice → Bool) (is : List ApInvoice) {i : ApInvoice}
    → All P is
    → find_first p is ≡ some i
    → P i
find_first-All P p [] all h = cc
find_first-All P p (x ∷ xs) all h = elim (Bool-cases (p x)) [
  | inl hit ↦ subst P (eq_of_some (rw hit at h)) all.0
  | inr miss ↦ find_first-All P p xs all.1 (rw miss at h)
]

or_raise-eq-ok : {A E : Type 0} (o : Option A) (x : E) {a : A} → or_raise o x ≡ ok a → o ≡ some a
or_raise-eq-ok none x h = cc
or_raise-eq-ok (some b) x h = cc

get_invoice-IsSeparated :
    (s : Session) (id : Uuid) {i : ApInvoice} → AllApart s → get_invoice s id ≡ ok i → IsSeparated i
unfolding get_invoice
get_invoice-IsSeparated s id all h =
    find_first-All IsSeparated _ s.invoices all (or_raise-eq-ok _ _ h)

put_row-All :
    (P : ApInvoice → Type 0) (new : ApInvoice) (is : List ApInvoice)
    → All P is
    → P new
    → All P (put_row new is)
unfolding put_row
put_row-All P new [] all h = tt
put_row-All P new (i ∷ is) all h = elim (Bool-cases (i.id == new.id)) [
  | inl same ↦ rw same (h, put_row-All P new is all.1 h)
  | inr other ↦ rw other (all.0, put_row-All P new is all.1 h)
]

-- A changed bill with its duties apart takes its place.
put-AllApart :
    (s : Session) (new : ApInvoice)
    → AllApart s
    → IsSeparated new
    → All IsSeparated (put_row new s.invoices)
put-AllApart s new all h = put_row-All IsSeparated new s.invoices all h

create_with-AllApart :
    (s : Session) (fresh : FreshIds) (actor : Text) (a : InvoiceInput) (dup : Option ApInvoice)
    {r : Session × ApInvoice}
    → create_with s fresh actor a dup ≡ ok r
    → AllApart s
    → AllApart r.0
unfolding create_with add_invoice
create_with-AllApart s fresh actor a dup h all =
    let (e, h1) = guard-eq-ok (key_taken (new_invoice fresh a dup) s.invoices) _ _ h in
    subst (λ (r : Session × ApInvoice). AllApart r.0) (ok-injective h1)
      (All-append IsSeparated s.invoices _ all (new_invoice-IsSeparated fresh a dup, tt))

pub create_invoice-AllApart :
    (s : Session) (fresh : FreshIds) (actor : Text) (a : InvoiceInput) {r : Session × ApInvoice}
    → create_invoice s fresh actor a ≡ ok r
    → AllApart s
    → AllApart r.0
unfolding create_invoice
create_invoice-AllApart s fresh actor a h all = create_with-AllApart s fresh actor a _ h all

pub code_line-AllApart :
    (s : Session) (line_id : Uuid) (coder : Principal) (actor : Text) (a : LineInput) {s' : Session}
    → code_line s line_id coder actor a ≡ ok s'
    → AllApart s
    → AllApart s'
unfolding code_line require_editable
code_line-AllApart s line_id coder actor a h all =
    let (line, e, h1) = >>=-eq-ok (get_line s line_id) _ h in
    let (i, found, h2) = >>=-eq-ok (get_invoice s line.ap_invoice_id) _ h1 in
    let (_, e', h3) = >>=-eq-ok (require_writer coder i) _ h2 in
    let (fit, h4) = guard-eq-ok (not (is_editable i.status)) _ _ h3 in
    subst AllApart (ok-injective h4) (
      put-AllApart s _ all (
        code_invoice-IsSeparated coder i (get_invoice-IsSeparated s _ all found) (not-false _ fit)))

pub audit_changes_invoices :
    (new : ApInvoice) (actor : Text) (cs : List _) (s : Session)
    → (audit_changes new actor cs s).invoices ≡ s.invoices
unfolding audit_changes
audit_changes_invoices new actor [] s = refl
audit_changes_invoices new actor (c ∷ cs) s = refl

pub edit_header-AllApart :
    (s : Session) (id : Uuid) (editor : Principal) (actor : Text) (a : HeaderInput) {s' : Session}
    → edit_header s id editor actor a ≡ ok s'
    → AllApart s
    → AllApart s'
unfolding edit_header require_editable
edit_header-AllApart s id editor actor a h all =
    let (i, found, h1) = >>=-eq-ok (get_invoice s id) _ h in
    let (_, e, h2) = >>=-eq-ok (require_writer editor i) _ h1 in
    let (fit, h3) = guard-eq-ok (not (is_editable i.status)) _ _ h2 in
    let (vs, e', h4) = >>=-eq-ok (rename_vendor s a.vendor_name i) _ h3 in
    subst AllApart (ok-injective h4) (
      subst (All IsSeparated) (sym (audit_changes_invoices _ actor (header_changes a i ++ vs.1) _))
        (put-AllApart s _ all
          (header-IsSeparated s a i (get_invoice-IsSeparated s id all found) (not-false _ fit))))

pub add_line-AllApart :
    (s : Session) (fresh id : Uuid) (editor : Principal) (actor : Text) (a : LineInput)
    {s' : Session}
    → add_line s fresh id editor actor a ≡ ok s'
    → AllApart s
    → AllApart s'
unfolding add_line require_editable
add_line-AllApart s fresh id editor actor a h all =
    let (i, found, h1) = >>=-eq-ok (get_invoice s id) _ h in
    let (_, e, h2) = >>=-eq-ok (require_writer editor i) _ h1 in
    let (fit, h3) = guard-eq-ok (not (is_editable i.status)) _ _ h2 in
    subst AllApart (ok-injective h3) all

pub remove_line-AllApart :
    (s : Session) (line_id : Uuid) (editor : Principal) (actor : Text) {s' : Session}
    → remove_line s line_id editor actor ≡ ok s'
    → AllApart s
    → AllApart s'
unfolding remove_line require_editable
remove_line-AllApart s line_id editor actor h all =
    let (line, e, h1) = >>=-eq-ok (get_line s line_id) _ h in
    let (i, found, h2) = >>=-eq-ok (get_invoice s line.ap_invoice_id) _ h1 in
    let (_, e', h3) = >>=-eq-ok (require_writer editor i) _ h2 in
    let (fit, h4) = guard-eq-ok (not (is_editable i.status)) _ _ h3 in
    let (more, h5) = guard-eq-ok (leb (length (lines_of s i.id)) 1) _ _ h4 in
    subst AllApart (ok-injective h5) all

pub submit_for_approval-AllApart :
    (s : Session) (id : Uuid) (actor : Text) (p : Option Principal) {s' : Session}
    → submit_for_approval s id actor p ≡ ok s'
    → AllApart s
    → AllApart s'
unfolding submit_for_approval
submit_for_approval-AllApart s id actor p h all =
    let (i, found, h1) = >>=-eq-ok (get_invoice s id) _ h in
    let (fit, h2) = guard-eq-ok (not (status_beq i.status coded)) _ _ h1 in
    let (_, e, h3) = >>=-eq-ok (require_categories s i) _ h2 in
    subst AllApart (ok-injective h3) (
      put-AllApart s _ all
        (submitted-IsSeparated p i (get_invoice-IsSeparated s id all found) (not-false _ fit)))

pub approve-AllApart :
    (s : Session) (id : Uuid) (p : Principal) (actor : Text) (now : ℕ)
    → AllApart s
    → AllApart (approve s id p actor now).0
approve-AllApart s id p actor now all =
    by_outcome (approve s id p actor now) (approve-Decided s id p actor now)
  where
    by_outcome : (r : Session × Result ApError (Unit {0})) → Decided s id p now r → AllApart r.0
    by_outcome (s', ok u) d = subst (All IsSeparated) (sym d.stored) (
        put-AllApart s _ all
          (approved_by-IsSeparated p now d.invoice d.admitted.is_coded d.admitted.apart))
    by_outcome (s', err x) d = subst (All IsSeparated) (sym d.same_invoices) all

pub release_hold-AllApart :
    (s : Session) (id : Uuid) (actor : Text) {s' : Session}
    → release_hold s id actor ≡ ok s'
    → AllApart s
    → AllApart s'
unfolding release_hold
release_hold-AllApart s id actor h all =
    let (i, found, h1) = >>=-eq-ok (get_invoice s id) _ h in
    let (fit, h2) = guard-eq-ok (not (status_beq i.status held)) _ _ h1 in
    subst AllApart (ok-injective h2) (
      put-AllApart s _ all
        (released-IsSeparated i (get_invoice-IsSeparated s id all found) (not-false _ fit)))

pub mark_paid-AllApart :
    (s : Session) (id : Uuid) (actor : Text) (payer : Option Principal) {s' : Session}
    → mark_paid s id actor payer ≡ ok s'
    → AllApart s
    → AllApart s'
unfolding mark_paid
mark_paid-AllApart s id actor payer h all =
    let (i, found, h1) = >>=-eq-ok (get_invoice s id) _ h in
    let (_, h2) = guard-eq-ok (filed_by i payer) _ _ h1 in
    let (fit, h3) = guard-eq-ok (not (is_payable i.status)) _ _ h2 in
    subst AllApart (ok-injective h3) (
      put-AllApart s _ all
        (paid-IsSeparated i (get_invoice-IsSeparated s id all found) (not-false _ fit)))

pub unapprove-AllApart :
    (s : Session) (id : Uuid) (editor : Principal) (actor : Text) {s' : Session}
    → unapprove s id editor actor ≡ ok s'
    → AllApart s
    → AllApart s'
unfolding unapprove
unapprove-AllApart s id editor actor h all =
    let (i, found, h1) = >>=-eq-ok (get_invoice s id) _ h in
    let (_, e, h2) = >>=-eq-ok (require_writer editor i) _ h1 in
    let (fit, h3) = guard-eq-ok (not (status_beq i.status approved)) _ _ h2 in
    subst AllApart (ok-injective h3) (
      put-AllApart s _ all
        (reopened-IsSeparated i (get_invoice-IsSeparated s id all found) (not-false _ fit)))

pub reject-AllApart :
    (s : Session) (id : Uuid) (actor : Text) (reason : Option Text) {s' : Session}
    → reject s id actor reason ≡ ok s'
    → AllApart s
    → AllApart s'
unfolding reject
reject-AllApart s id actor reason h all =
    let (i, found, h1) = >>=-eq-ok (get_invoice s id) _ h in
    let (_, h2) = guard-eq-ok (is_settled i.status) _ _ h1 in
    subst AllApart (ok-injective h2) (
      put-AllApart s _ all
        (turned_down-IsSeparated reason i (get_invoice-IsSeparated s id all found)))

pub mark_posted-AllApart :
    (s : Session) (id : Uuid) (i : ApInvoice) (r : PostResult) {s' : Session}
    → get_invoice s id ≡ ok i
    → mark_posted s i r ≡ ok s'
    → AllApart s
    → AllApart s'
unfolding mark_posted
mark_posted-AllApart s id i r found h all = elim (Bool-cases (not r.is_ok)) [
  | inl failed ↦ subst AllApart (ok-injective (rw failed at h)) all
  | inr posted ↦
      (let (fit, h1) = guard-eq-ok (not (is_postable i.status)) _ _ (rw posted at h) in
        let (_, h2) = guard-eq-ok (is_some i.erp_doc_entry) _ _ h1 in
        subst AllApart (ok-injective h2) (
          put-AllApart s _ all
            (stamped-IsSeparated r i (get_invoice-IsSeparated s id all found) (not-false _ fit))))
]

pub get_or_create_vendor_invoices :
    (s : Session) (fresh firm_id client_id : Uuid) (name : Text)
    → (get_or_create_vendor s fresh firm_id client_id name).0.invoices ≡ s.invoices
unfolding get_or_create_vendor add_vendor
get_or_create_vendor_invoices s fresh firm_id client_id name = ground arith

pub create_from_intake-AllApart :
    (before_clock : Text → Text) (strptime : Text → Text → Option Text) (s : Session)
    (fresh : FreshIds) (actor : Text) (intake : DocumentIntake)
    {r : Session × DocumentIntake × ApInvoice}
    → create_from_intake before_clock strptime s fresh actor intake ≡ ok r
    → AllApart s
    → AllApart r.0
unfolding create_from_intake
create_from_intake-AllApart before_clock strptime s fresh actor intake h all =
    let (_, h1) = guard-eq-ok (not intake.is_open) _ _ h in
    let (_, h2) = guard-eq-ok (contains not_payable_types intake.document_type) _ _ h1 in
    let (made, e, h3) = >>=-eq-ok (create_invoice _ fresh actor _) _ h2 in
    subst (λ (r : Session × DocumentIntake × ApInvoice). AllApart r.0) (ok-injective h3)
      (create_invoice-AllApart _ fresh actor _ e (
        subst (All IsSeparated)
          (sym (get_or_create_vendor_invoices s fresh.vendor intake.firm_id intake.client_id _))
          all))
