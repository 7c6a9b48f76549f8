-- ===== src/EClaim/Ap/Duplicates.antt =====
-- A bill that repeats a live one is parked.
use one_capture.Prelude.{
  ◌≡◌, refl, Bool, true, false, Option, none, some, List, [], ◌∷◌, ◌++◌, any, find_first, Among,
  find_first-Among, find_first-any,
}
use mathlib.Core.Path.{subst}
use one_capture.Prelude.Text.{Text}
use one_capture.Prelude.Result.{ok, ok-injective, guard-eq-ok}
use one_capture.EClaim.Ap.{captured, held, possible_duplicate, ApInvoice, Session}
use one_capture.EClaim.Ap.Create.{
  FreshIds, InvoiceInput, is_duplicate, find_duplicate, new_invoice, hold_for, key_taken,
  create_with, create_invoice, add_invoice,
}

abbrev has_number : InvoiceInput → Option Text → ApInvoice → Bool
has_number a none i = false
has_number a (some []) i = false
has_number a (some (c ∷ doc_no)) i =
    is_duplicate a.client_id a.vendor_id (c ∷ doc_no) a.total_amount none i

-- The bill has the number, vendor, client and amount that a new one is to get, and is not rejected.
abbrev repeats : InvoiceInput → ApInvoice → Bool
repeats a = has_number a a.doc_no

-- How a new bill was filed in this session.
pub data Filing (s : Session) (a : InvoiceInput) (new : ApInvoice) : Type 0 where
  clear :
      any (repeats a) s.invoices ≡ false
      → new.status ≡ captured
      → new.hold_reason ≡ none
      → Filing s a new
  parked :
      (d : ApInvoice)
      → Among d s.invoices
      → repeats a d ≡ true
      → new.status ≡ held
      → new.hold_reason ≡ some (possible_duplicate d.id)
      → Filing s a new

none_false : (is : List ApInvoice) → any (λ i. false) is ≡ false
none_false [] = refl
none_false (i ∷ is) = none_false is

-- What the duplicate check returns, by the bills with this number.
data Found (s : Session) (a : InvoiceInput) (number : Option Text) : Option ApInvoice → Type 0 where
  nothing : any (has_number a number) s.invoices ≡ false → Found s a number none
  hit :
      (d : ApInvoice)
      → Among d s.invoices
      → has_number a number d ≡ true
      → Found s a number (some d)

Found-first :
    (s : Session) (a : InvoiceInput) (number : Option Text) (o : Option ApInvoice)
    → find_first (has_number a number) s.invoices ≡ o
    → Found s a number o
Found-first s a number none e = nothing (find_first-any _ s.invoices e)
Found-first s a number (some d) e =
    (let (among, same) = find_first-Among _ s.invoices e in hit d among same)

find_duplicate-Found :
    (s : Session) (a : InvoiceInput) (number : Option Text)
    → Found s a number (find_duplicate s a.client_id a.vendor_id number a.total_amount none)
unfolding find_duplicate
find_duplicate-Found s a none = nothing (none_false s.invoices)
find_duplicate-Found s a (some []) = nothing (none_false s.invoices)
find_duplicate-Found s a (some (c ∷ number)) = Found-first s a (some (c ∷ number)) _ refl

create_with-Filing :
    (s : Session) (fresh : FreshIds) (actor : Text) (a : InvoiceInput) (dup : Option ApInvoice)
    {r : Session × ApInvoice}
    → Found s a a.doc_no dup
    → create_with s fresh actor a dup ≡ ok r
    → Filing s a r.1 × (r.0.invoices ≡ s.invoices ++ r.1 ∷ [])
unfolding create_with add_invoice new_invoice hold_for
create_with-Filing s fresh actor a none (nothing e) h =
    let (taken, h1) = guard-eq-ok (key_taken (new_invoice fresh a none) s.invoices) _ _ h in
    subst (λ (r : Session × ApInvoice). Filing s a r.1 × (r.0.invoices ≡ s.invoices ++ r.1 ∷ []))
      (ok-injective h1) (clear e refl refl, refl)
create_with-Filing s fresh actor a (some d) (hit _ among same) h =
    let (taken, h1) = guard-eq-ok (key_taken (new_invoice fresh a (some d)) s.invoices) _ _ h in
    subst (λ (r : Session × ApInvoice). Filing s a r.1 × (r.0.invoices ≡ s.invoices ++ r.1 ∷ []))
      (ok-injective h1) (parked d among same refl refl, refl)

-- Whenever a bill is created, it is added as the session's last. If some bill in the session has
-- its client, vendor and number, its amount where it has one, and is not rejected, then the new
-- bill is held, and the reason names such a bill; with none it is captured, and no reason is set.
pub create_invoice-Filing :
    (s : Session) (fresh : FreshIds) (actor : Text) (a : InvoiceInput) {r : Session × ApInvoice}
    → create_invoice s fresh actor a ≡ ok r
    → Filing s a r.1 × (r.0.invoices ≡ s.invoices ++ r.1 ∷ [])
unfolding create_invoice
create_invoice-Filing s fresh actor a h =
    create_with-Filing s fresh actor a _ (find_duplicate-Found s a a.doc_no) h
