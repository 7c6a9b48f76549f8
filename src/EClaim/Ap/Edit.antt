-- ===== src/EClaim/Ap/Edit.antt =====
-- Coding and correcting a bill before its approval: `code_line`, `edit_header`, `add_line` and
-- `remove_line` of src/eclaim/services/ap.py.
use one_capture.Prelude.{
  ℕ, suc, Bool, true, false, not, ◌&&◌, ◌||◌, Option, none, some, List, [], ◌∷◌, ◌++◌,
  if◌then◌else◌, find_first, any, keep, length, leb, lookup, ◌==◌, list_eq, nat_eq, option_eq,
}
use one_capture.Prelude.Text.{Text, codes, strip, truthy}
use one_capture.Prelude.Result.{Result, ok, err, ◌>>=◌, raise_if}
use one_capture.Decimal.{Decimal, dec_beq}
use one_capture.EClaim.Sod.{Uuid, Principal}
use one_capture.EClaim.Ap.{
  Status, captured, coded, held, status_beq, after_correction, ApInvoice, ApInvoiceLine, LineInput,
  Vendor, Change, changed_text, changed_amount, ap_coded, ap_header_edited, ap_line_added,
  ap_line_removed, Session, ApError, last_line, shared_vendor, audit, get_invoice, get_line,
  put_invoice, lines_of, require_writer, require_editable,
}
use one_capture.EClaim.Ap.Create.{find_duplicate}

unfoldable pub put_line : ApInvoiceLine → List ApInvoiceLine → List ApInvoiceLine
put_line new [] = []
put_line new (l ∷ ls) = (if l.id == new.id then new else l) ∷ put_line new ls

-- `if value is not None: setattr(line, field, value)`
abbrev over : {A : Type 0} → Option A → Option A → Option A
over none old = old
over (some new) old = some new

-- The keyword arguments of `code_line` are those of a line, its unit price aside.
unfoldable pub coded_input : LineInput → LineInput → LineInput
coded_input a old = record {
  description = over a.description old.description;
  quantity = over a.quantity old.quantity;
  uom = over a.uom old.uom;
  unit_price = old.unit_price;
  line_total = over a.line_total old.line_total;
  gl_code = over a.gl_code old.gl_code;
  tax_code = over a.tax_code old.tax_code;
  category_id = over a.category_id old.category_id;
  department = over a.department old.department;
  project_code = over a.project_code old.project_code;
}

unfoldable pub snapshot : Session → Option Uuid → Option Bool → Option Bool
snapshot s none old = old
snapshot s (some category) old = lookup category s.categories

unfoldable pub code_row : Session → LineInput → ApInvoiceLine → ApInvoiceLine
code_row s a line = record line {
  input = coded_input a line.input;
  carbon_relevant = snapshot s a.category_id line.carbon_relevant;
}

abbrev pub after_coding : Status → Status
after_coding captured = coded
after_coding status = status

unfoldable pub code_invoice : Principal → ApInvoice → ApInvoice
code_invoice coder invoice = record invoice {
  coded_by_user_id = some coder.user_id;
  status = after_coding invoice.status;
}

-- `code_line(session, line_id, coder, actor, ...)`
unfoldable pub code_line : Session → Uuid → Principal → Text → LineInput → Result ApError Session
code_line s line_id coder actor a = do
  line ← get_line s line_id
  invoice ← get_invoice s line.ap_invoice_id
  _ ← require_writer coder invoice
  _ ← require_editable invoice
  let s' = record s { lines = put_line (code_row s a line) s.lines }
  let new = code_invoice coder invoice
  ok (audit new (ap_coded line_id) actor (put_invoice new s'))

-- The keyword arguments of `edit_header`.
pub record HeaderInput : Type 0 where
  pub doc_no : Option Text
  pub doc_date : Option Text
  pub total_amount : Option Decimal
  pub currency : Option Text
  pub po_ref : Option Text
  pub do_ref : Option Text
  pub vendor_name : Option Text

pub differs : Option Text → Option Text → Bool
differs none old = false
differs (some new) old = not (old == some new)

pub differs_amount : Option Decimal → Option Decimal → Bool
differs_amount none old = false
differs_amount (some new) none = true
differs_amount (some new) (some old) = not (dec_beq old new)

text_change : Text → Option Text → Option Text → List Change
text_change field none old = []
text_change field (some new) old =
    if differs (some new) old then changed_text field old new ∷ [] else []

amount_change : Option Decimal → Option Decimal → List Change
amount_change none old = []
amount_change (some new) old =
    if differs_amount (some new) old then changed_amount old new ∷ [] else []

-- `changed` after the loop over the fields.
pub header_changes : HeaderInput → ApInvoice → List Change
header_changes a i =
    text_change (codes "doc_no") a.doc_no i.doc_no
    ++ text_change (codes "doc_date") a.doc_date i.doc_date
    ++ amount_change a.total_amount i.total_amount
    ++ text_change (codes "currency") a.currency (some i.currency)
    ++ text_change (codes "po_ref") a.po_ref i.po_ref
    ++ text_change (codes "do_ref") a.do_ref i.do_ref

abbrev set_amount : Option Decimal → Option Decimal → Option Decimal
set_amount new old = if differs_amount new old then new else old

abbrev set_currency : Option Text → Text → Text
set_currency none old = old
set_currency (some new) old = new

unfoldable pub edited : HeaderInput → ApInvoice → ApInvoice
edited a i = record i {
  doc_no = over a.doc_no i.doc_no;
  doc_date = over a.doc_date i.doc_date;
  total_amount = set_amount a.total_amount i.total_amount;
  currency = set_currency a.currency i.currency;
  po_ref = over a.po_ref i.po_ref;
  do_ref = over a.do_ref i.do_ref;
}

put_vendor : Vendor → List Vendor → List Vendor
put_vendor new [] = []
put_vendor new (v ∷ vs) = (if v.id == new.id then new else v) ∷ put_vendor new vs

-- Some other bill is the vendor's.
has_other_bill : Session → Vendor → Uuid → Bool
has_other_bill s vendor invoice_id =
    any (λ i. i.vendor_id == vendor.id && not (i.id == invoice_id)) s.invoices

rename_to : Session → Text → Uuid → Option Vendor → Result ApError (List Vendor × List Change)
rename_to s name invoice_id none = ok (s.vendors, [])
rename_to s name invoice_id (some vendor) =
    if vendor.name == name
    then ok (s.vendors, [])
    else if has_other_bill s vendor invoice_id
    then err shared_vendor
    else ok (
      put_vendor (record vendor { name = name }) s.vendors,
      changed_text (codes "vendor_name") (some vendor.name) name ∷ [],
    )

-- The vendor master after the rename, and the change it is.
pub rename_vendor : Session → Option Text → ApInvoice → Result ApError (List Vendor × List Change)
rename_vendor s none invoice = ok (s.vendors, [])
rename_vendor s (some name) invoice =
    if truthy (strip name)
    then rename_to s (strip name) invoice.id (find_first (λ v. v.id == invoice.vendor_id) s.vendors)
    else ok (s.vendors, [])

unfoldable pub held_for : Option ApInvoice → ApInvoice → ApInvoice
held_for none i = i
held_for (some d) i = record i { status = held; hold_reason = some (after_correction d.id) }

-- The duplicate check after a correction of the number or the amount.
unfoldable pub recheck : Session → HeaderInput → ApInvoice → ApInvoice → ApInvoice
recheck s a old new =
    if (differs a.doc_no old.doc_no || differs_amount a.total_amount old.total_amount)
      && not (status_beq new.status held)
    then held_for
        (find_duplicate s new.client_id new.vendor_id new.doc_no new.total_amount (some new.id)) new
    else new

unfoldable pub audit_changes : ApInvoice → Text → List Change → Session → Session
audit_changes new actor [] s = s
audit_changes new actor (c ∷ cs) s = audit new (ap_header_edited (c ∷ cs)) actor s

-- `edit_header(session, invoice_id, editor, actor, ...)`
unfoldable pub edit_header :
    Session → Uuid → Principal → Text → HeaderInput → Result ApError Session
edit_header s invoice_id editor actor a = do
  invoice ← get_invoice s invoice_id
  _ ← require_writer editor invoice
  _ ← require_editable invoice
  (vendors, renamed) ← rename_vendor s a.vendor_name invoice
  let new = recheck s a invoice (edited a invoice)
  ok (
      audit_changes new actor (header_changes a invoice ++ renamed)
        (put_invoice new (record s { vendors = vendors })))

-- `1 + max(line_no)`
pub next_no : ℕ → List ApInvoiceLine → ℕ
next_no top [] = suc top
next_no top (l ∷ ls) = next_no (if leb top l.line_no then l.line_no else top) ls

-- `add_line(session, invoice_id, editor, actor, line)`
unfoldable pub add_line :
    Session → Uuid → Uuid → Principal → Text → LineInput → Result ApError Session
add_line s fresh invoice_id editor actor a = do
  invoice ← get_invoice s invoice_id
  _ ← require_writer editor invoice
  _ ← require_editable invoice
  let n = next_no 0 (lines_of s invoice.id)
  let row : ApInvoiceLine = record {
    id = fresh;
    ap_invoice_id = invoice.id;
    line_no = n;
    input = a;
    carbon_relevant = none;
  }
  ok (audit invoice (ap_line_added n) actor (record s { lines = s.lines ++ row ∷ [] }))

-- `remove_line(session, line_id, editor, actor)`
unfoldable pub remove_line : Session → Uuid → Principal → Text → Result ApError Session
remove_line s line_id editor actor = do
  line ← get_line s line_id
  invoice ← get_invoice s line.ap_invoice_id
  _ ← require_writer editor invoice
  _ ← require_editable invoice
  _ ← raise_if (leb (length (lines_of s invoice.id)) 1) last_line
  let s' = record s { lines = keep (λ l. not (l.id == line_id)) s.lines }
  ok (audit invoice (ap_line_removed line.line_no) actor s')
