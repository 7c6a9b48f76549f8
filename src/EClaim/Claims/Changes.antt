-- ===== src/EClaim/Claims/Changes.antt =====
-- What each operation of src/eclaim/services/claims.py does to the claims: one row along the
-- lifecycle, with its duties kept apart.
pub mod Deciding
pub mod Settling
use mathlib.Core.Path.{subst}
use one_capture.Prelude.{
  ℕ, ◌≡◌, refl, sym, ap, ◌∙◌, Bool, true, false, not, ◌&&◌, ◌||◌, inl, inr, Option, none, some,
  List, [], ◌∷◌, ◌++◌, if◌then◌else◌, arith, All, All-append, Bool-cases, eq_of_some, not-false,
  ◌==◌, list_eq, nat_eq, map, any, is_some, contains,
}
use one_capture.Prelude.Text.{Text, codes}
use one_capture.Prelude.Result.{
  Result, ok, err, ◌>>=◌, >>=-eq-ok, ok-injective, raise_if, or_raise, guard-eq-ok, or_raise-some,
  raise_if-eq-ok,
}
use one_capture.Prelude.Rows.{row_at, put_row, put_row-All, row_at-All}
use one_capture.Prelude.Lifecycle.{Effect, unchanged, added, moves}
use one_capture.EClaim.Sod.{
  Uuid, is_id, Principal, SodViolation, check_can_approve, can_access_client, Governing,
}
use one_capture.EClaim.Sod
use one_capture.EClaim.Claims.{
  Status, submitted, in_review, approved, partially_approved, sent_back, rejected, released,
  exported, paid, status_beq, pending, line_approved, line_rejected, Claim, ClaimLine, Decision,
  EventType, claim_approved, claim_unapproved, claim_decided, claim_sent_back, claim_rejected,
  Session, ClaimError, claim_id_of, claim_status, audit, get, lines_of, store, require_writer,
  gate_view, as_denial, authorize, actor_of,
}
use one_capture.EClaim.Claims.Money.{is_out_of_pocket, recompute_totals, require_fx_resolved}
use one_capture.EClaim.Claims.Decide.{
  require_in_review, authorize_any, with_status, signed_by, approved_claim, approve, decide_lines,
  rolled_up, is_approval, decided_claim, decide, send_back, reject, reopened_line, reopened_claim,
  unapprove,
}
use one_capture.EClaim.Claims.Settle.{
  started, ClaimInput, start_claim, submitted_claim, submit, confirm_content, mark_paid, keyed_by,
  has_left, is_payable, is_returned, resubmit, attest,
}

-- The lifecycle of a claim; an operation may also leave the status as it is.
abbrev pub may_move : Status → Status → Bool
may_move in_review approved = true
may_move in_review partially_approved = true
may_move in_review sent_back = true
may_move in_review rejected = true
may_move in_review submitted = true
may_move submitted in_review = true
may_move sent_back in_review = true
may_move approved in_review = true
may_move partially_approved in_review = true
may_move released paid = true
may_move exported paid = true
may_move p q = status_beq p q

-- `ck_claim_sod`: nobody has approved a claim that he created.
abbrev pub IsApart : Claim → Type 0
IsApart c = (a : Uuid) → c.approved_by_user_id ≡ some a → is_id c.created_by_user_id a ≡ false

-- What an operation makes of a claim.
pub record Becomes (old new : Claim) : Type 0 where
  pub same_id : new.id ≡ old.id
  pub may : may_move old.status new.status ≡ true
  pub apart : IsApart old → IsApart new

-- One claim of the session has changed.
pub record Changed (s s' : Session) : Type 0 where
  pub id : Uuid
  pub old : Claim
  pub new : Claim
  pub found : row_at claim_id_of s.claims id ≡ some old
  pub claims_eq : s'.claims ≡ put_row claim_id_of new s.claims
  pub becomes : Becomes old new

pub Changed-Effect :
    {s s' : Session} → Changed s s' → Effect claim_id_of claim_status may_move s.claims s'.claims
Changed-Effect {s} {s'} c =
    subst (Effect claim_id_of claim_status may_move s.claims) (sym c.claims_eq) (
      moves claim_id_of claim_status may_move s.claims c.id c.old c.new c.found c.becomes.same_id
        c.becomes.may)

pub Changed-All : {s s' : Session} → Changed s s' → All IsApart s.claims → All IsApart s'.claims
Changed-All {s} {s'} c every = subst (All IsApart) (sym c.claims_eq) (
    put_row-All claim_id_of IsApart c.new s.claims every
      (c.becomes.apart (row_at-All claim_id_of IsApart s.claims c.id every c.found)))

-- The session after the claim and its lines are stored and an event is recorded.
pub finished :
    (s : Session) (id : Uuid) (old new : Claim) (lines : List ClaimLine) (event : EventType)
    (actor : Text) {s' : Session}
    → get s id ≡ ok old
    → Becomes old new
    → audit new event actor (store new lines s) ≡ s'
    → Changed s s'
unfolding audit store get
finished s id old new lines event actor got becomes done = record {
  id = id;
  old = old;
  new = new;
  found = or_raise-some _ _ got;
  claims_eq = sym (ap (λ (t : Session). t.claims) done);
  becomes = becomes;
}

-- The same, where only the claim is stored.
pub stored :
    (s : Session) (id : Uuid) (old new : Claim) (event : EventType) (actor : Text) {s' : Session}
    → get s id ≡ ok old
    → Becomes old new
    → audit new event actor (record s { claims = put_row claim_id_of new s.claims }) ≡ s'
    → Changed s s'
unfolding audit get
stored s id old new event actor got becomes done = record {
  id = id;
  old = old;
  new = new;
  found = or_raise-some _ _ got;
  claims_eq = sym (ap (λ (t : Session). t.claims) done);
  becomes = becomes;
}

pub is_status : (p q : Status) → status_beq p q ≡ true → p ≡ q
is_status p q h = ground arith

pub from_review : (c : Claim) → require_in_review c ≡ ok tt → c.status ≡ in_review
unfolding require_in_review
from_review c h = is_status c.status in_review (not-false _ (raise_if-eq-ok _ _ h))

as_denial-ok :
    (c : Claim) (r : Result SodViolation (Unit {0})) {u : Unit {0}}
    → as_denial c r ≡ ok u
    → r ≡ ok tt
unfolding as_denial
as_denial-ok c (ok u) h = refl
as_denial-ok c (err v) h = cc

-- Who passes the gate did not create the claim.
pub authorize-apart :
    (s : Session) (c : Claim) (lines : List ClaimLine) (p : Principal) {u : Unit {0}}
    → authorize s c lines p ≡ ok u
    → is_id c.created_by_user_id p.user_id ≡ false
unfolding authorize gate_view check_can_approve
authorize-apart s c lines p h =
    let passed = as_denial-ok c _ h in
    let (writes, h1) = guard-eq-ok (p.base_role == codes "viewer") _ _ passed in
    let (granted, h2) = guard-eq-ok (not (can_access_client p c.client_id)) _ _ h1 in
    (guard-eq-ok (is_id c.created_by_user_id p.user_id) _ _ h2).0

signed :
    (c new : Claim) (p : Principal)
    → new.created_by_user_id ≡ c.created_by_user_id
    → new.approved_by_user_id ≡ some p.user_id
    → is_id c.created_by_user_id p.user_id ≡ false
    → IsApart new
signed c new p same by apart a h =
    ap (λ o. is_id o a) same ∙ (ap (is_id c.created_by_user_id) (eq_of_some (sym h ∙ by)) ∙ apart)

-- A change of the status alone.
pub relabelled :
    (c new : Claim)
    → new.id ≡ c.id
    → may_move c.status new.status ≡ true
    → new.created_by_user_id ≡ c.created_by_user_id
    → new.approved_by_user_id ≡ c.approved_by_user_id
    → Becomes c new
relabelled c new same may creator approver = record {
  same_id = same;
  may = may;
  apart = λ apart a h. ap (λ o. is_id o a) creator ∙ apart a (sym approver ∙ h);
}

pub review_moves :
    (p q : Status) → p ≡ in_review → may_move in_review q ≡ true → may_move p q ≡ true
review_moves p q same h = ap (λ x. may_move x q) same ∙ h

pub approved-Becomes :
    (s : Session) (c : Claim) (approver : Option Principal) (lines : List ClaimLine)
    (read : List ClaimLine) {u : Unit {0}}
    → c.status ≡ in_review
    → authorize_any s c read approver ≡ ok u
    → Becomes c (approved_claim approver lines c)
unfolding approved_claim signed_by recompute_totals authorize_any
approved-Becomes s c none lines read here h =
    relabelled c (approved_claim none lines c) refl (review_moves c.status approved here refl) refl
      refl
approved-Becomes s c (some p) lines read here h = record {
  same_id = refl;
  may = review_moves c.status approved here refl;
  apart = λ apart.
      signed c (approved_claim (some p) lines c) p refl refl (authorize-apart s c read p h);
}

rolled_up_moves : (ls : List ClaimLine) → may_move in_review (rolled_up ls) ≡ true
unfolding rolled_up
rolled_up_moves ls = ground arith

-- The header before its totals and its status are set.
signed_if :
    (c : Claim) (p : Principal) (b : Bool)
    → is_id c.created_by_user_id p.user_id ≡ false
    → (let x = if b then signed_by (some p) c else c in (x.id ≡ c.id) × (IsApart c → IsApart x))
unfolding signed_by
signed_if c p true apart = (refl, λ before. signed c (signed_by (some p) c) p refl refl apart)
signed_if c p false apart = (refl, λ before. before)

pub decided-Becomes :
    (s : Session) (c : Claim) (p : Principal) (new_note : Option Text) (lines : List ClaimLine)
    (read : List ClaimLine) {u : Unit {0}}
    → c.status ≡ in_review
    → authorize s c read p ≡ ok u
    → Becomes c (decided_claim p new_note lines c)
unfolding decided_claim recompute_totals
decided-Becomes s c p new_note lines read here h =
    let (same, apart) =
      signed_if c p (is_approval (rolled_up lines)) (authorize-apart s c read p h) in
    record {
      same_id = same;
      may = review_moves c.status (rolled_up lines) here (rolled_up_moves lines);
      apart = apart;
    }

approval_reopens : (p : Status) → is_approval p ≡ true → may_move p in_review ≡ true
approval_reopens p h = ground arith

pub reopened-Becomes :
    (c : Claim) (lines : List ClaimLine)
    → is_approval c.status ≡ true
    → Becomes c (reopened_claim lines c)
unfolding reopened_claim recompute_totals
reopened-Becomes c lines h = record {
  same_id = refl;
  may = approval_reopens c.status h;
  apart = λ apart a by. cc;
}

pub status_stays : (p : Status) → may_move p p ≡ true
status_stays p = ground arith
