-- ===== src/EClaim/Ap/Intake.antt =====
-- Filing a captured bill: `create_from_intake` of src/eclaim/services/ap.py and the date it reads.
use one_capture.Prelude.{
  Bool, false, not, Option, none, some, List, [], ◌∷◌, contains, list_eq, nat_eq,
}
use one_capture.Prelude.Text.{Text, codes, strip}
use one_capture.Prelude.Result.{Result, ok, ◌>>=◌, raise_if}
use one_capture.Decimal.{Decimal}
use one_capture.EClaim.Sod.{Uuid}
use one_capture.EClaim.Ap.{ApInvoice, Vendor, Session, ApError, already_filed, not_payable}
use one_capture.EClaim.Ap.Create.{
  FreshIds, InvoiceInput, or_text, get_or_create_vendor, create_invoice,
}

pub record DocumentIntake : Type 0 where
  pub id : Uuid
  pub firm_id : Uuid
  pub client_id : Uuid
  pub created_by_user_id : Option Uuid
  pub image_sha256 : Option Text
  pub image_path : Option Text
  pub document_type : Text
  pub is_open : Bool
  pub vendor : Option Text
  pub doc_no : Option Text
  pub doc_date : Option Text
  pub currency : Option Text
  pub total_amount : Option Decimal
  pub tax_amount : Option Decimal
  pub quantity : Option Decimal
  pub unit : Option Text
  pub tax_code : Option Text

abbrev pub not_payable_types : List Text
not_payable_types = codes "quotation" ∷ codes "purchase_order" ∷ codes "delivery_order" ∷ []

abbrev receipt_date_formats : List Text
receipt_date_formats =
    codes "%d/%m/%Y"
    ∷ codes "%d/%m/%y"
    ∷ codes "%d-%m-%Y"
    ∷ codes "%d-%m-%y"
    ∷ codes "%d.%m.%Y"
    ∷ codes "%d.%m.%y"
    ∷ codes "%Y-%m-%d"
    ∷ codes "%Y/%m/%d"
    ∷ codes "%d%b%Y"
    ∷ codes "%d %b %Y"
    ∷ codes "%d %B %Y"
    ∷ codes "%d-%b-%Y"
    ∷ codes "%d-%b-%y"
    ∷ codes "%d %b %y"
    ∷ codes "%b %d %Y"
    ∷ codes "%B %d %Y"
    ∷ codes "%b %d, %Y"
    ∷ []

-- Python's `re.split(r"\s+\d{1,2}:\d{2}", text, maxsplit=1)[0]` and `strptime(text, format)`, whose
-- date is an ISO text and whose ValueError is none.
module _ (before_clock : Text → Text) (strptime : Text → Text → Option Text) where
  try_formats : Text → List Text → Option Text
  try_formats s [] = none
  try_formats s (f ∷ fs) = elim (strptime s f) [ some date ↦ some date | none ↦ try_formats s fs ]

  -- `parse_receipt_date(value)` of src/eclaim/services/claims.py
  parse_receipt_date : Option Text → Option Text
  parse_receipt_date none = none
  parse_receipt_date (some []) = none
  parse_receipt_date (some (c ∷ value)) =
      try_formats (strip (before_clock (strip (c ∷ value)))) receipt_date_formats

  pub invoice_input : DocumentIntake → Vendor → InvoiceInput
  invoice_input intake vendor = record {
    firm_id = intake.firm_id;
    client_id = intake.client_id;
    created_by_user_id = intake.created_by_user_id;
    vendor_id = vendor.id;
    doc_no = intake.doc_no;
    doc_date = parse_receipt_date intake.doc_date;
    due_date = none;
    payment_terms = none;
    currency = or_text intake.currency (codes "MYR");
    subtotal = none;
    tax_amount = intake.tax_amount;
    total_amount = intake.total_amount;
    po_ref = none;
    do_ref = none;
    image_sha256 = intake.image_sha256;
    image_path = intake.image_path;
    intake_id = some intake.id;
    lines =
        record {
          description = some (or_text intake.doc_no (codes "Vendor bill"));
          quantity = intake.quantity;
          uom = intake.unit;
          unit_price = none;
          line_total = intake.total_amount;
          gl_code = none;
          tax_code = intake.tax_code;
          category_id = none;
          department = none;
          project_code = none;
        }
        ∷ [];
    idempotency_key = none;
  }

  -- `create_from_intake(session, intake, actor)`: the session, the consumed intake and the bill.
  unfoldable pub create_from_intake :
      Session
      → FreshIds
      → Text
      → DocumentIntake
      → Result ApError (Session × DocumentIntake × ApInvoice)
  create_from_intake s fresh actor intake = do
    _ ← raise_if (not intake.is_open) already_filed
    _ ← raise_if (contains not_payable_types intake.document_type) not_payable
    let (s', vendor) =
        get_or_create_vendor s fresh.vendor intake.firm_id intake.client_id
          (or_text intake.vendor (codes "Unknown vendor"))
    (s'', new) ← create_invoice s' fresh actor (invoice_input intake vendor)
    ok (s'', record intake { is_open = false }, new)
