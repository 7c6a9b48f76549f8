-- ===== src/EClaim/Ap/Effects/Preparing.antt =====
-- The effects of the operations before the approval.
use mathlib.Core.Path.{subst}
use one_capture.Prelude.{
  ◌≡◌, refl, ap, ◌∙◌, Bool, true, false, not, Option, none, some, ◌++◌, if◌then◌else◌, arith, leb,
  length, list_eq, nat_eq, not-false, contains,
}
use one_capture.Prelude.Text.{Text}
use one_capture.Prelude.Result.{ok, >>=-eq-ok, ok-injective, guard-eq-ok}
use one_capture.EClaim.Sod.{Uuid, Principal}
use one_capture.EClaim.Ap.{
  Status, held, is_editable, ApInvoice, LineInput, Session, get_invoice, get_line, lines_of,
  require_writer, require_editable,
}
use one_capture.EClaim.Ap.Create.{
  FreshIds, InvoiceInput, new_invoice, key_taken, create_with, create_invoice, add_invoice,
}
use one_capture.EClaim.Ap.Edit.{
  code_line, code_invoice, after_coding, HeaderInput, edit_header, rename_vendor, header_changes,
  edited, recheck, held_for, add_line, remove_line,
}
use one_capture.EClaim.Ap.Intake.{DocumentIntake, create_from_intake, not_payable_types}
use one_capture.EClaim.Ap.Preservation.{audit_changes_invoices, get_or_create_vendor_invoices}
use one_capture.EClaim.Ap.Effects.{may_move, Effect, none_changed, one_added, EffectOf, moved}

pub create_invoice-Effect :
    (s : Session) (fresh : FreshIds) (actor : Text) (a : InvoiceInput) {r : Session × ApInvoice}
    → create_invoice s fresh actor a ≡ ok r
    → EffectOf s r.0
unfolding create_invoice create_with add_invoice
create_invoice-Effect s fresh actor a h =
    let (e, h1) = guard-eq-ok (key_taken (new_invoice fresh a _) s.invoices) _ _ h in
    subst (λ (r : Session × ApInvoice). EffectOf s r.0) (ok-injective h1) (one_added _ refl)

editable_moves : (q : Status) → is_editable q ≡ true → may_move q (after_coding q) ≡ true
editable_moves q h = ground arith

editable_stays :
    (q : Status) → is_editable q ≡ true → (may_move q q ≡ true) × (may_move q held ≡ true)
editable_stays q h = ground arith

pub code_line-Effect :
    (s : Session) (line_id : Uuid) (coder : Principal) (actor : Text) (a : LineInput) {s' : Session}
    → code_line s line_id coder actor a ≡ ok s'
    → EffectOf s s'
unfolding code_line require_editable
code_line-Effect s line_id coder actor a h =
    let (line, e, h1) = >>=-eq-ok (get_line s line_id) _ h in
    let (i, found, h2) = >>=-eq-ok (get_invoice s line.ap_invoice_id) _ h1 in
    let (_, e', h3) = >>=-eq-ok (require_writer coder i) _ h2 in
    let (fit, h4) = guard-eq-ok (not (is_editable i.status)) _ _ h3 in
    subst (EffectOf s) (ok-injective h4) (
      moved s _ i (code_invoice coder i) found (unfold code_invoice in refl)
        (unfold code_invoice in editable_moves i.status (not-false _ fit)) refl)

-- The header after an edit has the bill's id, and its status is the old one or `held`.
record IsEdit (i new : ApInvoice) : Type 0 where
  same_id : new.id ≡ i.id
  may : may_move i.status new.status ≡ true

recheck-IsEdit :
    (s : Session) (a : HeaderInput) (i : ApInvoice)
    → is_editable i.status ≡ true
    → IsEdit i (recheck s a i (edited a i))
unfolding recheck edited held_for
recheck-IsEdit s a i h =
    either _ (held_for-IsEdit _ (edited a i) refl refl)
      (record { same_id = refl; may = (editable_stays i.status h).0 })
  where
    either : (b : Bool) {x y : ApInvoice} → IsEdit i x → IsEdit i y → IsEdit i (if b then x else y)
    either true x y = x
    either false x y = y

    held_for-IsEdit :
        (d : Option ApInvoice) (new : ApInvoice)
        → new.id ≡ i.id
        → new.status ≡ i.status
        → IsEdit i (held_for d new)
    held_for-IsEdit none new same q = record {
      same_id = same;
      may = ap (may_move i.status) q ∙ (editable_stays i.status h).0;
    }
    held_for-IsEdit (some d) new same q = record {
      same_id = same;
      may = (editable_stays i.status h).1;
    }

pub edit_header-Effect :
    (s : Session) (id : Uuid) (editor : Principal) (actor : Text) (a : HeaderInput) {s' : Session}
    → edit_header s id editor actor a ≡ ok s'
    → EffectOf s s'
unfolding edit_header require_editable
edit_header-Effect s id editor actor a h =
    let (i, found, h1) = >>=-eq-ok (get_invoice s id) _ h in
    let (_, e, h2) = >>=-eq-ok (require_writer editor i) _ h1 in
    let (fit, h3) = guard-eq-ok (not (is_editable i.status)) _ _ h2 in
    let (vs, e', h4) = >>=-eq-ok (rename_vendor s a.vendor_name i) _ h3 in
    let edit = recheck-IsEdit s a i (not-false _ fit) in
    subst (EffectOf s) (ok-injective h4) (
      moved s id i (recheck s a i (edited a i)) found edit.same_id edit.may
        (audit_changes_invoices _ actor (header_changes a i ++ vs.1) _))

pub add_line-Effect :
    (s : Session) (fresh id : Uuid) (editor : Principal) (actor : Text) (a : LineInput)
    {s' : Session}
    → add_line s fresh id editor actor a ≡ ok s'
    → EffectOf s s'
unfolding add_line require_editable
add_line-Effect s fresh id editor actor a h =
    let (i, found, h1) = >>=-eq-ok (get_invoice s id) _ h in
    let (_, e, h2) = >>=-eq-ok (require_writer editor i) _ h1 in
    let (fit, h3) = guard-eq-ok (not (is_editable i.status)) _ _ h2 in
    subst (EffectOf s) (ok-injective h3) (none_changed refl)

pub remove_line-Effect :
    (s : Session) (line_id : Uuid) (editor : Principal) (actor : Text) {s' : Session}
    → remove_line s line_id editor actor ≡ ok s'
    → EffectOf s s'
unfolding remove_line require_editable
remove_line-Effect s line_id editor actor h =
    let (line, e, h1) = >>=-eq-ok (get_line s line_id) _ h in
    let (i, found, h2) = >>=-eq-ok (get_invoice s line.ap_invoice_id) _ h1 in
    let (_, e', h3) = >>=-eq-ok (require_writer editor i) _ h2 in
    let (fit, h4) = guard-eq-ok (not (is_editable i.status)) _ _ h3 in
    let (more, h5) = guard-eq-ok (leb (length (lines_of s i.id)) 1) _ _ h4 in
    subst (EffectOf s) (ok-injective h5) (none_changed refl)

pub create_from_intake-Effect :
    (before_clock : Text → Text) (strptime : Text → Text → Option Text) (s : Session)
    (fresh : FreshIds) (actor : Text) (intake : DocumentIntake)
    {r : Session × DocumentIntake × ApInvoice}
    → create_from_intake before_clock strptime s fresh actor intake ≡ ok r
    → EffectOf s r.0
unfolding create_from_intake
create_from_intake-Effect before_clock strptime s fresh actor intake h =
    let (_, h1) = guard-eq-ok (not intake.is_open) _ _ h in
    let (_, h2) = guard-eq-ok (contains not_payable_types intake.document_type) _ _ h1 in
    let (made, e, h3) = >>=-eq-ok (create_invoice _ fresh actor _) _ h2 in
    subst (λ (r : Session × DocumentIntake × ApInvoice). EffectOf s r.0) (ok-injective h3)
      (subst (λ is. Effect is made.0.invoices)
        (get_or_create_vendor_invoices s fresh.vendor intake.firm_id intake.client_id _)
        (create_invoice-Effect _ fresh actor _ e))
