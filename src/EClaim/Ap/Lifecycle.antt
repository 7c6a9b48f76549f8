-- ===== src/EClaim/Ap/Lifecycle.antt =====
-- The lifecycle of the bills of a client: sequences of requests, each one operation of the service.
use one_capture.Prelude.{ℕ, ◌≡◌, Option}
use one_capture.Prelude.Text.{Text}
use one_capture.Prelude.Result.{ok}
use one_capture.EClaim.Sod.{Uuid, Principal}
use one_capture.EClaim.Ap.{ApInvoice, LineInput, Session, get_invoice}
use one_capture.EClaim.Ap.Create.{FreshIds, InvoiceInput, create_invoice}
use one_capture.EClaim.Ap.Intake.{DocumentIntake, create_from_intake}
use one_capture.EClaim.Ap.Edit.{code_line, HeaderInput, edit_header, add_line, remove_line}
use one_capture.EClaim.Ap.Approval.{submit_for_approval, approve, release_hold}
use one_capture.EClaim.Ap.Settle.{mark_paid, unapprove, reject, PostResult, mark_posted}

-- One request: an operation that returned, or an attempt to approve, whatever its outcome.
pub data Step (before_clock : Text → Text) (strptime : Text → Text → Option Text)
    : Session → Session → Type 0 where
  creates :
      {s s' : Session} (fresh : FreshIds) (actor : Text) (a : InvoiceInput) (new : ApInvoice)
      → create_invoice s fresh actor a ≡ ok (s', new)
      → Step before_clock strptime s s'
  files :
      {s s' : Session} (fresh : FreshIds) (actor : Text) (intake filed : DocumentIntake)
      (new : ApInvoice)
      → create_from_intake before_clock strptime s fresh actor intake ≡ ok (s', filed, new)
      → Step before_clock strptime s s'
  codes_line :
      {s s' : Session} (line_id : Uuid) (coder : Principal) (actor : Text) (a : LineInput)
      → code_line s line_id coder actor a ≡ ok s'
      → Step before_clock strptime s s'
  edits :
      {s s' : Session} (id : Uuid) (editor : Principal) (actor : Text) (a : HeaderInput)
      → edit_header s id editor actor a ≡ ok s'
      → Step before_clock strptime s s'
  adds :
      {s s' : Session} (fresh id : Uuid) (editor : Principal) (actor : Text) (a : LineInput)
      → add_line s fresh id editor actor a ≡ ok s'
      → Step before_clock strptime s s'
  removes :
      {s s' : Session} (line_id : Uuid) (editor : Principal) (actor : Text)
      → remove_line s line_id editor actor ≡ ok s'
      → Step before_clock strptime s s'
  submits :
      {s s' : Session} (id : Uuid) (actor : Text) (p : Option Principal)
      → submit_for_approval s id actor p ≡ ok s'
      → Step before_clock strptime s s'
  decides :
      {s : Session} (id : Uuid) (p : Principal) (actor : Text) (now : ℕ)
      → Step before_clock strptime s (approve s id p actor now).0
  releases :
      {s s' : Session} (id : Uuid) (actor : Text)
      → release_hold s id actor ≡ ok s'
      → Step before_clock strptime s s'
  pays :
      {s s' : Session} (id : Uuid) (actor : Text) (payer : Option Principal)
      → mark_paid s id actor payer ≡ ok s'
      → Step before_clock strptime s s'
  reopens :
      {s s' : Session} (id : Uuid) (editor : Principal) (actor : Text)
      → unapprove s id editor actor ≡ ok s'
      → Step before_clock strptime s s'
  rejects :
      {s s' : Session} (id : Uuid) (actor : Text) (reason : Option Text)
      → reject s id actor reason ≡ ok s'
      → Step before_clock strptime s s'
  posts :
      {s s' : Session} (id : Uuid) (i : ApInvoice) (r : PostResult)
      → get_invoice s id ≡ ok i
      → mark_posted s i r ≡ ok s'
      → Step before_clock strptime s s'

-- The sessions that requests lead to.
pub data Reach (before_clock : Text → Text) (strptime : Text → Text → Option Text) (s : Session)
    : Session → Type 0 where
  start : Reach before_clock strptime s s
  next :
      {t u : Session}
      → Reach before_clock strptime s t
      → Step before_clock strptime t u
      → Reach before_clock strptime s u
