-- ===== src/EClaim/Claims/Lifecycle.antt =====
-- The life of the claims: sequences of requests, each one operation of src/eclaim/services/claims.py.
-- The lines come with the first session.
pub mod Reached
use one_capture.Prelude.{ℕ, Bool, ◌≡◌, Option, some, none, List}
use one_capture.Prelude.Text.{Text, codes}
use one_capture.Prelude.Result.{ok}
use one_capture.EClaim.Sod.{Uuid, Principal}
use one_capture.EClaim.Claims.{Status, in_review, Claim, Decision, Session, get, attempt}
use one_capture.EClaim.Claims.Decide.{approve, decide, send_back, reject, unapprove}
use one_capture.EClaim.Claims.Settle.{
  ClaimInput, start_claim, submit, confirm_content, mark_paid, resubmit, attest,
}

-- One request: an operation that returned, or an attempt at a decision, whatever its outcome.
pub data Step : Session → Session → Type 0 where
  starts : {s s' : Session} (a : ClaimInput) → start_claim s a ≡ ok s' → Step s s'
  -- The callers submit the claim that they have just started.
  submits :
      {s s' : Session} (id : Uuid) (actor : Text) (now line_count : ℕ)
      (attested self_verified : Bool) (c : Claim)
      → get s id ≡ ok c
      → c.status ≡ in_review
      → submit s id actor now line_count attested self_verified ≡ ok s'
      → Step s s'
  confirms :
      {s s' : Session} (id : Uuid) (actor : Text) (p : Option Principal)
      → confirm_content s id actor p ≡ ok s'
      → Step s s'
  approves :
      {s : Session} (id : Uuid) (actor : Text) (p : Principal)
      → Step s (attempt s p (codes "approve") (approve s id actor (some p)))
  -- A caller without a principal: a service, whose approval no user signs.
  approves_unsigned :
      {s s' : Session} (id : Uuid) (actor : Text) → approve s id actor none ≡ ok s' → Step s s'
  decides :
      {s : Session} (id : Uuid) (p : Principal) (decisions : List (Uuid × Decision)) (actor : Text)
      (new_note : Option Text)
      → Step s (attempt s p (codes "decide") (decide s id p decisions actor new_note))
  sends_back :
      {s : Session} (id : Uuid) (p : Principal) (reason : Option Text)
      → Step s (attempt s p (codes "send_back") (send_back s id p reason))
  rejects :
      {s : Session} (id : Uuid) (p : Principal) (reason : Option Text)
      → Step s (attempt s p (codes "reject") (reject s id p reason))
  reopens :
      {s s' : Session} (id : Uuid) (p : Principal) (actor : Text)
      → unapprove s id p actor ≡ ok s'
      → Step s s'
  pays :
      {s s' : Session} (id : Uuid) (actor : Text) (p : Option Principal)
      → mark_paid s id actor p ≡ ok s'
      → Step s s'
  resubmits :
      {s s' : Session} (id : Uuid) (actor : Text) (p : Option Principal)
      → resubmit s id actor p ≡ ok s'
      → Step s s'
  attests :
      {s s' : Session} (id : Uuid) (actor : Text) (now : ℕ) (p : Option Principal)
      → attest s id actor now p ≡ ok s'
      → Step s s'

-- The sessions that requests lead to.
pub data Reach (first : Session) : Session → Type 0 where
  begin : Reach first first
  next : {t u : Session} → Reach first t → Step t u → Reach first u
