-- ===== src/EClaim/Ap/Posting.antt =====
-- A bill is posted to the ERP at most once.
use one_capture.Prelude.{
  ◌≡◌, refl, sym, ap, ◌∙◌, true, false, not, some, is_some, Bool-cases, inl, inr, list_eq, nat_eq,
}
use one_capture.Prelude.Text.{Text}
use one_capture.Prelude.Result.{ok, is_ok, ok-injective, guard-eq-ok}
use one_capture.EClaim.Ap.{ApInvoice, Session, put_row}
use one_capture.EClaim.Ap.Settle.{PostResult, mark_posted, stamped, is_postable}
use one_capture.EClaim.Ap.Effects.{bill_at}
use one_capture.EClaim.Ap.Moves.{bill_at-put_row}

-- A bill with the ERP's key is refused.
posted_refused :
    (s : Session) (i : ApInvoice) (r : PostResult)
    → is_some i.erp_doc_entry ≡ true
    → r.is_ok ≡ true
    → is_ok (mark_posted s i r) ≡ false
unfolding mark_posted
posted_refused s i r key succeeded = elim (Bool-cases (is_postable i.status)) [
  | inl fit ↦ rw (succeeded, fit, key) refl
  | inr unfit ↦ rw (succeeded, unfit) refl
]

stored :
    (s : Session) (i : ApInvoice) (r : PostResult) {s' : Session}
    → r.is_ok ≡ true
    → mark_posted s i r ≡ ok s'
    → s'.invoices ≡ put_row (stamped r i) s.invoices
unfolding mark_posted stamped
stored s i r succeeded h =
    let (_, h1) = guard-eq-ok (not (is_postable i.status)) _ _ (rw succeeded at h) in
    let (_, h2) = guard-eq-ok (is_some i.erp_doc_entry) _ _ h1 in
    sym (ap (λ (t : Session). t.invoices) (ok-injective h2))

-- When a bill of the session is posted with a key of the ERP, the session has the bill with this
-- key, and a second successful push of it is refused.
pub mark_posted_once :
    (s : Session) (i : ApInvoice) (r r' : PostResult) (key : Text) {s' : Session}
    → bill_at s.invoices i.id ≡ some i
    → r.is_ok ≡ true
    → r.erp_doc_entry ≡ some key
    → mark_posted s i r ≡ ok s'
    → r'.is_ok ≡ true
    → (i' : ApInvoice) × (bill_at s'.invoices i.id ≡ some i')
      × (i'.erp_doc_entry ≡ some key)
      × (is_ok (mark_posted s' i' r') ≡ false)
unfolding stamped
mark_posted_once s i r r' key {s'} found succeeded keyed h again = (
  stamped r i,
  ap (λ is. bill_at is i.id) (stored s i r succeeded h)
      ∙ bill_at-put_row (stamped r i) s.invoices found,
  keyed,
  posted_refused s' (stamped r i) r' (ap is_some keyed) again,
)
