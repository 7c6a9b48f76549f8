-- ===== src/EClaim/Claims/Lifecycle/Reached.antt =====
-- What holds of the claims over every sequence of requests.
use mathlib.Core.Path.{subst}
use one_capture.Prelude.{
  ◌≡◌, refl, sym, Bool, true, false, none, some, [], ◌∷◌, arith, All, All-append, list_eq, nat_eq,
  if_either,
}
use one_capture.Prelude.Text.{Text, codes}
use one_capture.Prelude.Result.{Result, ok, err, ok-injective, >>=-eq-ok}
use one_capture.Prelude.Rows.{row_at}
use one_capture.Prelude.Lifecycle.{
  Travels, stays, goes, Effect, unchanged, added, Continues, Continues-trans, Effect-Continues,
}
use one_capture.EClaim.Sod.{Uuid, Principal, SodViolation, can_access_client}
use one_capture.EClaim.Claims.{
  Status, rejected, paid, Claim, Session, ClaimError, denied, claim_id_of, claim_status, audit,
  record_denied, attempt,
}
use one_capture.EClaim.Claims.Settle.{ClaimInput, started, check_start, start_claim}
use one_capture.EClaim.Claims.Changes.{may_move, IsApart, Changed, Changed-Effect, Changed-All}
use one_capture.EClaim.Claims.Changes.Deciding.{
  approve-Changed, decide-Changed, send_back-Changed, reject-Changed, unapprove-Changed,
}
use one_capture.EClaim.Claims.Changes.Settling.{
  submit-Changed, confirm_content-Changed, mark_paid-Changed, resubmit-Changed, attest-Changed,
}
use one_capture.EClaim.Claims.Lifecycle.{
  Step, starts, submits, confirms, approves, approves_unsigned, decides, sends_back, rejects,
  reopens, pays, resubmits, attests, Reach, begin, next,
}

abbrev EffectOn : Session → Session → Type 0
EffectOn s s' = Effect claim_id_of claim_status may_move s.claims s'.claims

-- What a request does to the claims, and that it keeps the duties apart.
record Went (s s' : Session) : Type 0 where
  effect : EffectOn s s'
  apart : All IsApart s.claims → All IsApart s'.claims

changed : {s s' : Session} → Changed s s' → Went s s'
changed c = record { effect = Changed-Effect c; apart = Changed-All c }

same_claims : {s s' : Session} → s'.claims ≡ s.claims → Went s s'
same_claims {s} {s'} same = record {
  effect = subst (Effect claim_id_of claim_status may_move s.claims) (sym same) unchanged;
  apart = λ every. subst (All IsApart) (sym same) every;
}

record_denied_claims :
    (c : Claim) (p : Principal) (action : Text) (reason : SodViolation) (s : Session)
    → (record_denied c p action reason s).claims ≡ s.claims
unfolding record_denied audit
record_denied_claims c p action reason s =
    if_either (λ (t : Session). t.claims ≡ s.claims) (can_access_client p c.client_id) refl refl

attempted :
    (s : Session) (p : Principal) (action : Text) (r : Result ClaimError Session)
    → ((s' : Session) → r ≡ ok s' → Changed s s')
    → Went s (attempt s p action r)
unfolding attempt
attempted s p action (ok s') step = changed (step s' refl)
attempted s p action (err (denied c reason)) step =
    same_claims (record_denied_claims c p action reason s)
attempted s p action (err x) step = same_claims refl

start_claim-Went :
    (s : Session) (a : ClaimInput) {s' : Session} → start_claim s a ≡ ok s' → Went s s'
unfolding start_claim
start_claim-Went s a {s'} h =
    let (u, checked, h1) = >>=-eq-ok (check_start a) _ h in
    subst (Went s) (ok-injective h1) (record {
      effect = added (started a ∷ []);
      apart = λ every.
          All-append IsApart s.claims (started a ∷ []) every (unfold started in λ x by. cc, tt);
    })

Step-Went : {s s' : Session} → Step s s' → Went s s'
Step-Went (starts a h) = start_claim-Went _ a h
Step-Went (submits id actor now line_count attested self_verified c got here h) =
    changed (submit-Changed _ id actor now line_count attested self_verified c got here h)
Step-Went (confirms id actor p h) = changed (confirm_content-Changed _ id actor p h)
Step-Went (approves id actor p) =
    attempted _ p (codes "approve") _ (λ s' h. approve-Changed _ id actor (some p) h)
Step-Went (approves_unsigned id actor h) = changed (approve-Changed _ id actor none h)
Step-Went (decides id p decisions actor new_note) =
    attempted _ p (codes "decide") _ (λ s' h. decide-Changed _ id p decisions actor new_note h)
Step-Went (sends_back id p reason) =
    attempted _ p (codes "send_back") _ (λ s' h. send_back-Changed _ id p reason h)
Step-Went (rejects id p reason) =
    attempted _ p (codes "reject") _ (λ s' h. reject-Changed _ id p reason h)
Step-Went (reopens id p actor h) = changed (unapprove-Changed _ id p actor h)
Step-Went (pays id actor p h) = changed (mark_paid-Changed _ id actor p h)
Step-Went (resubmits id actor p h) = changed (resubmit-Changed _ id actor p h)
Step-Went (attests id actor now p h) = changed (attest-Changed _ id actor now p h)

-- Every sequence of requests to the claim service keeps maker and checker apart on all claims:
-- when no claim of the first session is approved by its creator, none of the last is. This is the
-- CHECK `ck_claim_sod`, which no request then violates.
pub Reach-IsApart : {s s' : Session} → Reach s s' → All IsApart s.claims → All IsApart s'.claims
Reach-IsApart begin every = every
Reach-IsApart (next reach step) every = (Step-Went step).apart (Reach-IsApart reach every)

abbrev pub ContinuesIn : Claim → Uuid → Session → Type 0
ContinuesIn c id s = Continues claim_id_of claim_status may_move c id s.claims

Reach-ContinuesIn :
    {s s' : Session}
    → Reach s s'
    → (id : Uuid) (c : Claim) → row_at claim_id_of s.claims id ≡ some c
    → ContinuesIn c id s'
Reach-ContinuesIn begin id c h = record { now = c; found = h; along = stays }
Reach-ContinuesIn (next reach step) id c h =
    let before = Reach-ContinuesIn reach id c h in
    Continues-trans claim_id_of claim_status may_move before (
      Effect-Continues claim_id_of claim_status may_move (Step-Went step).effect id before.now
        before.found)

abbrev pub is_final : Status → Bool
is_final rejected = true
is_final paid = true
is_final _ = false

final_stays : (p q : Status) → is_final p ≡ true → may_move p q ≡ true → q ≡ p
final_stays p q h m = ground arith

Travels-final : {p q : Status} → is_final p ≡ true → Travels may_move p q → q ≡ p
Travels-final h stays = refl
Travels-final {p} h (goes {via} {to} more last) =
    final_stays p to h (subst (λ v. may_move v to ≡ true) (Travels-final h more) last)

-- A rejected claim stays rejected and a paid one stays paid, over every sequence of the requests of
-- `Step`: those that start, submit, confirm, decide, reopen, pay, resubmit and attest a claim. The
-- last session still has the claim under its id.
pub Reach-final_of_claim :
    {s s' : Session}
    → Reach s s'
    → (id : Uuid) (c : Claim) → row_at claim_id_of s.claims id ≡ some c
    → is_final c.status ≡ true
    → (now : Claim) × (row_at claim_id_of s'.claims id ≡ some now) × (now.status ≡ c.status)
Reach-final_of_claim reach id c h final =
    let later = Reach-ContinuesIn reach id c h in
    (later.now, later.found, Travels-final final later.along)
