-- ===== src/EClaim/Ap/Separation.antt =====
-- Separation of duties on one bill, and the changes that keep it. `ck_ap_invoice_sod` of
-- src/eclaim/db/models.py asks for its last part.
use one_capture.Prelude.{
  ℕ, ◌≡◌, refl, sym, ap, ◌∙◌, Bool, true, false, ◌||◌, Option, none, some, if◌then◌else◌, arith,
  is_some, eq_of_some, list_eq, nat_eq,
}
use one_capture.Prelude.Text.{Text}
use one_capture.EClaim.Sod.{Uuid, is_id, Principal}
use one_capture.EClaim.Ap.{
  Status, captured, coded, pending_approval, approved, posted, paid, held, rejected, status_beq,
  is_editable, ApInvoice, Session,
}
use one_capture.EClaim.Ap.Create.{FreshIds, InvoiceInput, new_invoice}
use one_capture.EClaim.Ap.Edit.{code_invoice, after_coding, HeaderInput, edited, held_for, recheck}
use one_capture.EClaim.Ap.Approval.{submitted, approved_by, released}
use one_capture.EClaim.Ap.Settle.{
  is_payable, is_postable, reopened, turned_down, PostResult, stamped, after_posting,
}

abbrev needs_coder : Status → Bool
needs_coder captured = false
needs_coder held = false
needs_coder rejected = false
needs_coder _ = true

abbrev is_signed : Status → Bool
is_signed approved = true
is_signed posted = true
is_signed paid = true
is_signed _ = false

abbrev pub is_open : Status → Bool
is_open captured = true
is_open coded = true
is_open pending_approval = true
is_open held = true
is_open _ = false

-- This user has filed, coded or submitted the bill.
abbrev pub prepared_by : ApInvoice → Uuid → Bool
prepared_by i a =
    is_id i.coded_by_user_id a || is_id i.created_by_user_id a || is_id i.submitted_by_user_id a

-- A bill past its coding has a coder, a signed one has an approver, an open one has none, and no
-- approver prepared it.
pub record IsSeparated (i : ApInvoice) : Type 0 where
  pub has_coder : needs_coder i.status ≡ true → is_some i.coded_by_user_id ≡ true
  pub has_approver : is_signed i.status ≡ true → is_some i.approved_by_user_id ≡ true
  pub unsigned : is_open i.status ≡ true → i.approved_by_user_id ≡ none
  pub apart : (a : Uuid) → i.approved_by_user_id ≡ some a → prepared_by i a ≡ false

IsSeparated-unsigned :
    (i : ApInvoice)
    → i.approved_by_user_id ≡ none
    → is_signed i.status ≡ false
    → (needs_coder i.status ≡ true → is_some i.coded_by_user_id ≡ true)
    → IsSeparated i
IsSeparated-unsigned i free waiting coder = record {
  has_coder = coder;
  has_approver = λ h. cc;
  unsigned = λ h. free;
  apart = λ a h. cc;
}

editable_open : (q : Status) → is_editable q ≡ true → is_open q ≡ true
editable_open captured h = refl
editable_open coded h = refl
editable_open held h = refl
editable_open pending_approval h = cc
editable_open approved h = cc
editable_open posted h = cc
editable_open paid h = cc
editable_open rejected h = cc

open_unsigned : (q : Status) → is_open q ≡ true → is_signed q ≡ false
open_unsigned captured h = refl
open_unsigned coded h = refl
open_unsigned pending_approval h = refl
open_unsigned held h = refl
open_unsigned approved h = cc
open_unsigned posted h = cc
open_unsigned paid h = cc
open_unsigned rejected h = cc

after_coding_unsigned : (q : Status) → is_editable q ≡ true → is_signed (after_coding q) ≡ false
after_coding_unsigned captured h = refl
after_coding_unsigned coded h = refl
after_coding_unsigned held h = refl
after_coding_unsigned pending_approval h = cc
after_coding_unsigned approved h = cc
after_coding_unsigned posted h = cc
after_coding_unsigned paid h = cc
after_coding_unsigned rejected h = cc

status_beq_sound : (p q : Status) → status_beq p q ≡ true → p ≡ q
status_beq_sound p q h = ground arith

pub new_invoice-IsSeparated :
    (fresh : FreshIds) (a : InvoiceInput) (dup : Option ApInvoice)
    → IsSeparated (new_invoice fresh a dup)
unfolding new_invoice
new_invoice-IsSeparated fresh a none = IsSeparated-unsigned _ refl refl (λ h. cc)
new_invoice-IsSeparated fresh a (some d) = IsSeparated-unsigned _ refl refl (λ h. cc)

pub code_invoice-IsSeparated :
    (coder : Principal) (i : ApInvoice)
    → IsSeparated i
    → is_editable i.status ≡ true
    → IsSeparated (code_invoice coder i)
unfolding code_invoice
code_invoice-IsSeparated coder i sep h =
    IsSeparated-unsigned _ (sep.unsigned (editable_open i.status h))
      (after_coding_unsigned i.status h) (λ n. refl)

edited-IsSeparated : (a : HeaderInput) (i : ApInvoice) → IsSeparated i → IsSeparated (edited a i)
unfolding edited
edited-IsSeparated a i sep = record {
  has_coder = sep.has_coder;
  has_approver = sep.has_approver;
  unsigned = sep.unsigned;
  apart = sep.apart;
}

held_for-IsSeparated :
    (d : Option ApInvoice) (i : ApInvoice)
    → is_open i.status ≡ true
    → IsSeparated i
    → IsSeparated (held_for d i)
unfolding held_for
held_for-IsSeparated none i waiting sep = sep
held_for-IsSeparated (some d) i waiting sep =
    IsSeparated-unsigned _ (sep.unsigned waiting) refl (λ h. cc)

either : (P : ApInvoice → Type 0) (b : Bool) {x y : ApInvoice} → P x → P y → P (if b then x else y)
either P true x y = x
either P false x y = y

recheck-IsSeparated :
    (s : Session) (a : HeaderInput) (old new : ApInvoice)
    → is_open new.status ≡ true
    → IsSeparated new
    → IsSeparated (recheck s a old new)
unfolding recheck
recheck-IsSeparated s a old new waiting sep =
    either IsSeparated _ (held_for-IsSeparated _ new waiting sep) sep

pub header-IsSeparated :
    (s : Session) (a : HeaderInput) (i : ApInvoice)
    → IsSeparated i
    → is_editable i.status ≡ true
    → IsSeparated (recheck s a i (edited a i))
header-IsSeparated s a i sep h =
    recheck-IsSeparated s a i (edited a i) (unfold edited in editable_open i.status h)
      (edited-IsSeparated a i sep)

pub submitted-IsSeparated :
    (p : Option Principal) (i : ApInvoice)
    → IsSeparated i
    → status_beq i.status coded ≡ true
    → IsSeparated (submitted p i)
unfolding submitted
submitted-IsSeparated p i sep h =
    let is_coded = status_beq_sound i.status coded h in
    IsSeparated-unsigned _ (sep.unsigned (ap is_open is_coded)) refl
      (λ n. sep.has_coder (ap needs_coder is_coded))

pub approved_by-IsSeparated :
    (p : Principal) (now : ℕ) (i : ApInvoice)
    → is_some i.coded_by_user_id ≡ true
    → prepared_by i p.user_id ≡ false
    → IsSeparated (approved_by p now i)
unfolding approved_by
approved_by-IsSeparated p now i coder apart = record {
  has_coder = λ n. coder;
  has_approver = λ n. refl;
  unsigned = λ h. cc;
  apart = λ a h. ap (prepared_by i) (sym (eq_of_some h)) ∙ apart;
}

released_unsigned : (b : Bool) → is_signed (if b then coded else captured) ≡ false
released_unsigned true = refl
released_unsigned false = refl

released_coder : (b : Bool) → needs_coder (if b then coded else captured) ≡ true → b ≡ true
released_coder true h = refl
released_coder false h = cc

pub released-IsSeparated :
    (i : ApInvoice) → IsSeparated i → status_beq i.status held ≡ true → IsSeparated (released i)
unfolding released
released-IsSeparated i sep h =
    IsSeparated-unsigned _ (sep.unsigned (ap is_open (status_beq_sound i.status held h)))
      (released_unsigned (is_some i.coded_by_user_id)) (released_coder (is_some i.coded_by_user_id))

payable_signed : (q : Status) → is_payable q ≡ true → is_signed q ≡ true
payable_signed q h = ground arith

signed_coded : (q : Status) → is_signed q ≡ true → needs_coder q ≡ true
signed_coded q h = ground arith

pub paid-IsSeparated :
    (i : ApInvoice)
    → IsSeparated i
    → is_payable i.status ≡ true
    → IsSeparated (record i { status = paid })
paid-IsSeparated i sep h =
    let signed = payable_signed i.status h in
    record {
      has_coder = λ n. sep.has_coder (signed_coded i.status signed);
      has_approver = λ n. sep.has_approver signed;
      unsigned = λ n. cc;
      apart = sep.apart;
    }

pub reopened-IsSeparated :
    (i : ApInvoice) → IsSeparated i → status_beq i.status approved ≡ true → IsSeparated (reopened i)
unfolding reopened
reopened-IsSeparated i sep h =
    IsSeparated-unsigned _ refl refl
      (λ n. sep.has_coder (ap needs_coder (status_beq_sound i.status approved h)))

pub turned_down-IsSeparated :
    (reason : Option Text) (i : ApInvoice) → IsSeparated i → IsSeparated (turned_down reason i)
unfolding turned_down
turned_down-IsSeparated reason i sep = record {
  has_coder = λ n. cc;
  has_approver = λ n. cc;
  unsigned = λ n. cc;
  apart = sep.apart;
}

after_posting_signed : (q : Status) → is_postable q ≡ true → is_signed (after_posting q) ≡ true
after_posting_signed q h = ground arith

postable_signed : (q : Status) → is_postable q ≡ true → is_signed q ≡ true
postable_signed q h = ground arith

signed_closed : (q : Status) → is_signed q ≡ true → is_open q ≡ false
signed_closed q h = ground arith

pub stamped-IsSeparated :
    (r : PostResult) (i : ApInvoice)
    → IsSeparated i
    → is_postable i.status ≡ true
    → IsSeparated (stamped r i)
unfolding stamped
stamped-IsSeparated r i sep h =
    let signed = postable_signed i.status h in
    record {
      has_coder = λ n. sep.has_coder (signed_coded i.status signed);
      has_approver = λ n. sep.has_approver signed;
      unsigned = λ n.
          (let closed = signed_closed (after_posting i.status) (after_posting_signed i.status h) in
            cc);
      apart = sep.apart;
    }
