-- ===== src/EClaim/Ap.antt =====
-- Accounts payable: the records and the shared helpers of src/eclaim/services/ap.py, with the
-- columns of src/eclaim/db/models.py that the service reads or writes. A session is the tables'
-- rows in creation order; what an operation returns as an error leaves the request's transaction
-- rolled back. An audit event is its type with its details as data; `Core.Audit` has the chain it
-- is hashed into.
pub mod Create
pub mod Intake
pub mod Edit
pub mod Approval
pub mod Settle
pub mod Duplicates
pub mod Checked
pub mod Separation
pub mod Effects
pub mod Preservation
pub mod Lifecycle
pub mod Moves
pub mod Posting
use one_capture.Prelude.{
  ℕ, Bool, true, false, not, ◌&&◌, Option, none, some, List, [], ◌∷◌, ◌++◌, map, if◌then◌else◌,
  keep, contains, find_first, ◌==◌, list_eq, nat_eq,
}
use one_capture.Prelude.Text.{Text, codes}
use one_capture.Prelude.Result.{Result, ok, err, or_raise, raise_if}
use one_capture.Decimal.{Decimal, dec_beq}
use one_capture.EClaim.Sod.{
  Uuid, Principal, can_access_client, ApprovalMatrixRule, SodViolation, not_writer,
}

pub data Status : Type 0 where
  captured coded pending_approval approved posted paid held rejected : Status

abbrev pub status_beq : Status → Status → Bool
status_beq captured captured = true
status_beq coded coded = true
status_beq pending_approval pending_approval = true
status_beq approved approved = true
status_beq posted posted = true
status_beq paid paid = true
status_beq held held = true
status_beq rejected rejected = true
status_beq _ _ = false

-- `status in ("captured", "coded", "held")`
abbrev pub is_editable : Status → Bool
is_editable captured = true
is_editable coded = true
is_editable held = true
is_editable _ = false

-- `status in _LIVE_STATUSES`
abbrev pub is_live : Status → Bool
is_live rejected = false
is_live _ = true

-- The texts that `hold_reason` gets.
pub data HoldReason : Type 0 where
  possible_duplicate after_correction : Uuid → HoldReason
  converted_to_expense : HoldReason
  given : Text → HoldReason

pub record ApInvoice : Type 0 where
  pub id : Uuid
  pub firm_id : Uuid
  pub client_id : Uuid
  pub vendor_id : Uuid
  pub doc_no : Option Text
  pub doc_date : Option Text
  pub due_date : Option Text
  pub payment_terms : Option Text
  pub currency : Text
  pub subtotal : Option Decimal
  pub tax_amount : Option Decimal
  pub total_amount : Option Decimal
  pub po_ref : Option Text
  pub do_ref : Option Text
  pub image_sha256 : Option Text
  pub image_path : Option Text
  pub intake_id : Option Uuid
  pub status : Status
  pub erp_doc_entry : Option Text
  pub idempotency_key : Text
  pub coded_by_user_id : Option Uuid
  pub submitted_by_user_id : Option Uuid
  pub approved_by_user_id : Option Uuid
  pub approved_at : Option ℕ
  pub hold_reason : Option HoldReason
  pub created_by_user_id : Option Uuid

pub record LineInput : Type 0 where
  pub description : Option Text
  pub quantity : Option Decimal
  pub uom : Option Text
  pub unit_price : Option Decimal
  pub line_total : Option Decimal
  pub gl_code : Option Text
  pub tax_code : Option Text
  pub category_id : Option Uuid
  pub department : Option Text
  pub project_code : Option Text

-- A line's own columns are those of its input.
pub record ApInvoiceLine : Type 0 where
  pub id : Uuid
  pub ap_invoice_id : Uuid
  pub line_no : ℕ
  pub input : LineInput
  pub carbon_relevant : Option Bool

pub record Vendor : Type 0 where
  pub id : Uuid
  pub firm_id : Uuid
  pub client_id : Uuid
  pub name : Text
  pub tax_id : Option Text
  pub bank_account : Option Text

-- A field of `changed`, with the old and the new value.
pub data Change : Type 0 where
  changed_text : Text → Option Text → Text → Change
  changed_amount : Option Decimal → Decimal → Change

pub data EventType : Type 0 where
  ap_captured : Status → Uuid → Option Text → Option Decimal → Option Uuid → EventType
  ap_coded : Uuid → EventType
  ap_header_edited : List Change → EventType
  ap_line_added ap_line_removed : ℕ → EventType
  ap_submitted ap_approved ap_paid : EventType
  ap_approval_denied : SodViolation → EventType
  ap_hold_released : Status → Option HoldReason → EventType
  ap_unapproved : Option Uuid → EventType
  ap_rejected : Option Text → EventType

pub record AuditEvent : Type 0 where
  pub entity_id : Uuid
  pub event : EventType
  pub actor : Text

pub record Session : Type 0 where
  pub invoices : List ApInvoice
  pub lines : List ApInvoiceLine
  pub vendors : List Vendor
  -- A category's id with its `carbon_relevant`.
  pub categories : List (Uuid × Bool)
  -- A client's id with a rule of its matrix.
  pub rules : List (Uuid × ApprovalMatrixRule)
  pub events : List AuditEvent

pub data ApError : Type 0 where
  not_found : Uuid → ApError
  illegal_transition : Status → ApError
  sod : SodViolation → ApError
  line_without_category already_filed not_payable last_line shared_vendor duplicate_key : ApError

-- `_audit(session, invoice, event_type, actor, detail)`
abbrev pub audit : ApInvoice → EventType → Text → Session → Session
audit invoice event actor s = record s {
  events = s.events ++ record { entity_id = invoice.id; event = event; actor = actor } ∷ [];
}

-- `get_invoice(session, invoice_id)`
unfoldable pub get_invoice : Session → Uuid → Result ApError ApInvoice
get_invoice s id = or_raise (find_first (λ i. i.id == id) s.invoices) (not_found id)

-- The row of this id takes the values of the mutated object.
unfoldable pub put_row : ApInvoice → List ApInvoice → List ApInvoice
put_row new [] = []
put_row new (i ∷ is) = (if i.id == new.id then new else i) ∷ put_row new is

abbrev pub put_invoice : ApInvoice → Session → Session
put_invoice new s = record s { invoices = put_row new s.invoices }

-- `session.get(ApInvoiceLine, line_id)`
abbrev pub get_line : Session → Uuid → Result ApError ApInvoiceLine
get_line s id = or_raise (find_first (λ l. l.id == id) s.lines) (not_found id)

-- `_lines(session, invoice_id)`. Lines are added with rising numbers, so the rows are in order.
abbrev pub lines_of : Session → Uuid → List ApInvoiceLine
lines_of s id = keep (λ l. l.ap_invoice_id == id) s.lines

-- `_require_writer(principal, invoice)`
unfoldable pub require_writer : Principal → ApInvoice → Result ApError (Unit {0})
require_writer p invoice =
    raise_if (not (not (p.base_role == codes "viewer") && can_access_client p invoice.client_id))
      (sod not_writer)

-- The guard on the status with which the operations on a bill before its approval begin.
unfoldable pub require_editable : ApInvoice → Result ApError (Unit {0})
require_editable invoice =
    raise_if (not (is_editable invoice.status)) (illegal_transition invoice.status)

-- SQL equality of a nullable amount with a value: false on NULL.
abbrev pub is_amount : Option Decimal → Decimal → Bool
is_amount none d = false
is_amount (some x) d = dec_beq x d
