-- ===== src/EClaim/Ap/Create.antt =====
-- Vendors, the duplicate check and `create_invoice`: src/eclaim/services/ap.py. The
-- identifiers that the database and `uuid4` hand out are arguments.
use one_capture.Prelude.{
  ℕ, suc, Bool, true, not, ◌&&◌, Option, none, some, List, [], ◌∷◌, ◌++◌, if◌then◌else◌, find_first,
  any, is_some, ◌==◌, list_eq, nat_eq,
}
use one_capture.Prelude.Text.{Text, codes, strip, lower, or_default}
use one_capture.Prelude.Result.{Result, ok, ◌>>=◌, raise_if}
use one_capture.Decimal.{Decimal}
use one_capture.EClaim.Sod.{Uuid, is_id}
use one_capture.EClaim.Ap.{
  captured, held, is_live, HoldReason, possible_duplicate, ApInvoice, ApInvoiceLine, LineInput,
  Vendor, ap_captured, Session, ApError, duplicate_key, audit, is_amount,
}

unfoldable pub or_text : Option Text → Text → Text
or_text none fallback = fallback
or_text (some s) fallback = or_default s fallback

-- `(name or "").strip() or "Unknown vendor"`
abbrev clean_name : Text → Text
clean_name name = or_default (strip name) (codes "Unknown vendor")

unfoldable pub add_vendor : Session → Vendor → Session
add_vendor s vendor = record s { vendors = s.vendors ++ vendor ∷ [] }

-- `get_or_create_vendor(session, firm_id, client_id, name)`
unfoldable pub get_or_create_vendor : Session → Uuid → Uuid → Uuid → Text → Session × Vendor
get_or_create_vendor s fresh firm_id client_id name =
    elim (find_first (λ v. v.client_id == client_id && lower v.name == lower (clean_name name))
      s.vendors) [
        | some existing ↦ (s, existing)
        | none ↦
            (let vendor : Vendor = record {
              id = fresh;
              firm_id = firm_id;
              client_id = client_id;
              name = clean_name name;
              tax_id = none;
              bank_account = none;
            } in
              (add_vendor s vendor, vendor))
      ]

amount_fits : Option Decimal → Option Decimal → Bool
amount_fits none found = true
amount_fits (some total) found = is_amount found total

-- The WHERE clause of `find_duplicate`, for a `doc_no` that is set.
pub is_duplicate : Uuid → Uuid → Text → Option Decimal → Option Uuid → ApInvoice → Bool
is_duplicate client_id vendor_id doc_no total_amount exclude_id i =
    i.client_id == client_id
    && i.vendor_id == vendor_id
    && is_id i.doc_no doc_no
    && is_live i.status
    && amount_fits total_amount i.total_amount
    && not (is_id exclude_id i.id)

-- `find_duplicate(session, client_id, vendor_id, doc_no, total_amount, exclude_id)`
unfoldable pub find_duplicate :
    Session → Uuid → Uuid → Option Text → Option Decimal → Option Uuid → Option ApInvoice
find_duplicate s client_id vendor_id none total_amount exclude_id = none
find_duplicate s client_id vendor_id (some []) total_amount exclude_id = none
find_duplicate s client_id vendor_id (some (c ∷ doc_no)) total_amount exclude_id =
    find_first (is_duplicate client_id vendor_id (c ∷ doc_no) total_amount exclude_id) s.invoices

-- `_default_idem(intake_id, image_sha256)`, with the random part of its last key
unfoldable pub default_idem : Option Uuid → Option Text → Text → Text
default_idem (some intake) image hex = codes "intake:" ++ intake
default_idem none (some (c ∷ image)) hex = codes "sha:" ++ (c ∷ image)
default_idem none _ hex = codes "gen:" ++ hex

-- The keyword arguments of `create_invoice`.
pub record InvoiceInput : Type 0 where
  pub firm_id : Uuid
  pub client_id : Uuid
  pub created_by_user_id : Option Uuid
  pub vendor_id : Uuid
  pub doc_no : Option Text
  pub doc_date : Option Text
  pub due_date : Option Text
  pub payment_terms : Option Text
  pub currency : Text
  pub subtotal : Option Decimal
  pub tax_amount : Option Decimal
  pub total_amount : Option Decimal
  pub po_ref : Option Text
  pub do_ref : Option Text
  pub image_sha256 : Option Text
  pub image_path : Option Text
  pub intake_id : Option Uuid
  pub lines : List LineInput
  pub idempotency_key : Option Text

-- The identifiers that one request is given.
pub record FreshIds : Type 0 where
  pub invoice : Uuid
  pub vendor : Uuid
  pub line : ℕ → Uuid
  pub hex : Text

unfoldable pub numbered_lines : FreshIds → ℕ → List LineInput → List ApInvoiceLine
numbered_lines fresh n [] = []
numbered_lines fresh n (l ∷ ls) =
    record {
      id = fresh.line n;
      ap_invoice_id = fresh.invoice;
      line_no = n;
      input = l;
      carbon_relevant = none;
    }
    ∷ numbered_lines fresh (suc n) ls

pub duplicate_id : Option ApInvoice → Option Uuid
duplicate_id none = none
duplicate_id (some d) = some d.id

unfoldable pub hold_for : Option ApInvoice → Option HoldReason
hold_for none = none
hold_for (some d) = some (possible_duplicate d.id)

unfoldable pub new_invoice : FreshIds → InvoiceInput → Option ApInvoice → ApInvoice
new_invoice fresh a dup = record {
  id = fresh.invoice;
  firm_id = a.firm_id;
  client_id = a.client_id;
  vendor_id = a.vendor_id;
  doc_no = a.doc_no;
  doc_date = a.doc_date;
  due_date = a.due_date;
  payment_terms = a.payment_terms;
  currency = or_default a.currency (codes "MYR");
  subtotal = a.subtotal;
  tax_amount = a.tax_amount;
  total_amount = a.total_amount;
  po_ref = a.po_ref;
  do_ref = a.do_ref;
  image_sha256 = a.image_sha256;
  image_path = a.image_path;
  intake_id = a.intake_id;
  status = if is_some dup then held else captured;
  erp_doc_entry = none;
  idempotency_key = or_text a.idempotency_key (default_idem a.intake_id a.image_sha256 fresh.hex);
  coded_by_user_id = none;
  submitted_by_user_id = none;
  approved_by_user_id = none;
  approved_at = none;
  hold_reason = hold_for dup;
  created_by_user_id = a.created_by_user_id;
}

-- The unique constraint on (client_id, idempotency_key).
unfoldable pub key_taken : ApInvoice → List ApInvoice → Bool
key_taken new = any (λ i. i.client_id == new.client_id && i.idempotency_key == new.idempotency_key)

-- The rows of a new bill.
unfoldable pub add_invoice : Session → ApInvoice → List ApInvoiceLine → Session
add_invoice s new ls = record s { invoices = s.invoices ++ new ∷ []; lines = s.lines ++ ls }

unfoldable pub create_with :
    Session
    → FreshIds
    → Text
    → InvoiceInput
    → Option ApInvoice
    → Result ApError (Session × ApInvoice)
create_with s fresh actor a dup = do
  let new = new_invoice fresh a dup
  _ ← raise_if (key_taken new s.invoices) duplicate_key
  let s' = add_invoice s new (numbered_lines fresh 1 a.lines)
  let event = ap_captured new.status a.vendor_id a.doc_no a.total_amount (duplicate_id dup)
  ok (audit new event actor s', new)

-- `create_invoice(session, ...)`
unfoldable pub create_invoice :
    Session → FreshIds → Text → InvoiceInput → Result ApError (Session × ApInvoice)
create_invoice s fresh actor a =
    create_with s fresh actor a
      (find_duplicate s a.client_id a.vendor_id a.doc_no a.total_amount none)
