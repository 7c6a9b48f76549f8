-- ===== src/EClaim/Ap/Effects.antt =====
-- What each operation does to the bills: nothing, a new bill, or one bill along the lifecycle.
pub mod Preparing
pub mod Deciding
use mathlib.Core.Path.{subst}
use one_capture.Prelude.{
  ℕ, ◌≡◌, refl, sym, ap, ◌∙◌, Bool, true, false, not, Option, none, some, List, [], ◌∷◌, ◌++◌,
  if◌then◌else◌, arith, is_some, Bool-cases, inl, inr, find_first, find_first-Among, Among, leb,
  length, ◌==◌, list_eq, nat_eq, beq_sound, beq_self, eq_of_some, not-false, contains,
}
use one_capture.Prelude.Text.{Text, codes}
use one_capture.Prelude.Result.{
  Result, ok, err, ◌>>=◌, >>=-eq-ok, ok-injective, raise_if, or_raise, guard-eq-ok,
}
use one_capture.EClaim.Sod.{Uuid, Principal}
use one_capture.EClaim.Ap.{
  Status, captured, coded, pending_approval, approved, posted, paid, held, rejected, is_editable,
  status_beq, ApInvoice, LineInput, Session, ApError, get_invoice, get_line, put_row, lines_of,
  require_writer, require_editable,
}
use one_capture.EClaim.Ap.Create.{
  FreshIds, InvoiceInput, new_invoice, key_taken, create_with, create_invoice, get_or_create_vendor,
  add_invoice,
}
use one_capture.EClaim.Ap.Edit.{
  code_line, code_invoice, after_coding, HeaderInput, edit_header, rename_vendor, header_changes,
  edited, recheck, held_for, add_line, remove_line,
}
use one_capture.EClaim.Ap.Approval.{
  submit_for_approval, submitted, require_categories, approve, approved_by, is_approvable,
  release_hold, released,
}
use one_capture.EClaim.Ap.Settle.{
  mark_paid, filed_by, is_payable, unapprove, reject, is_settled, turned_down, reopened, PostResult,
  mark_posted, is_postable, stamped, after_posting,
}
use one_capture.EClaim.Ap.Intake.{DocumentIntake, create_from_intake, not_payable_types}
use one_capture.EClaim.Ap.Preservation.{audit_changes_invoices, get_or_create_vendor_invoices}
use one_capture.EClaim.Ap.Checked.{Decided, IsApproval, IsRefusal, approve-Decided}

-- The lifecycle: from which status a bill may come to which by one operation.
abbrev pub may_move : Status → Status → Bool
may_move captured captured = true
may_move captured coded = true
may_move captured held = true
may_move captured rejected = true
may_move coded coded = true
may_move coded pending_approval = true
may_move coded approved = true
may_move coded held = true
may_move coded rejected = true
may_move held held = true
may_move held coded = true
may_move held captured = true
may_move held rejected = true
may_move pending_approval approved = true
may_move pending_approval rejected = true
may_move approved coded = true
may_move approved posted = true
may_move approved paid = true
may_move approved rejected = true
may_move posted paid = true
may_move paid paid = true
may_move rejected rejected = true
may_move _ _ = false

-- The bill that a session has under an id.
abbrev pub bill_at : List ApInvoice → Uuid → Option ApInvoice
bill_at is id = find_first (λ i. i.id == id) is

-- What one request does to the bills.
pub data Effect (before : List ApInvoice) (after : List ApInvoice) : Type 0 where
  none_changed : after ≡ before → Effect before after
  one_added : (new : ApInvoice) → after ≡ before ++ new ∷ [] → Effect before after
  one_moved :
      (old new : ApInvoice)
      → bill_at before new.id ≡ some old
      → may_move old.status new.status ≡ true
      → after ≡ put_row new before
      → Effect before after

or_raise-some : {A E : Type 0} (o : Option A) (x : E) {a : A} → or_raise o x ≡ ok a → o ≡ some a
or_raise-some none x h = cc
or_raise-some (some b) x h = cc

-- A bill that was found is at its own id.
get_invoice-bill_at :
    (s : Session) (id : Uuid) {i : ApInvoice}
    → get_invoice s id ≡ ok i
    → bill_at s.invoices i.id ≡ some i
unfolding get_invoice
get_invoice-bill_at s id {i} h =
    let found = or_raise-some (bill_at s.invoices id) _ h in
    let same = beq_sound i.id id (find_first-Among (λ j. j.id == id) s.invoices found).1 in
    subst (λ x. bill_at s.invoices x ≡ some i) (sym same) found

pub moved :
    (s : Session) (id : Uuid) (i new : ApInvoice) {after : List ApInvoice}
    → get_invoice s id ≡ ok i
    → new.id ≡ i.id
    → may_move i.status new.status ≡ true
    → after ≡ put_row new s.invoices
    → Effect s.invoices after
moved s id i new found same may e =
    one_moved i new
      (subst (λ x. bill_at s.invoices x ≡ some i) (sym same) (get_invoice-bill_at s id found)) may e

abbrev pub EffectOf : Session → Session → Type 0
EffectOf s s' = Effect s.invoices s'.invoices
