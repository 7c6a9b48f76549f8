-- ===== src/EClaim/Sod/Gate.antt =====
-- Who may approve a claim, and that the button and the gate agree.
use one_capture.Prelude.{◌≡◌, refl, ◌↔◌, true, false, not, ◌==◌, list_eq, nat_eq, not-false}
use one_capture.Prelude.Text.{codes}
use one_capture.Prelude.Result.{Result, ok, err, is_ok, guard-eq-ok, raise_if-eq-ok}
use one_capture.EClaim.Sod.{
  Principal, Claim, can_access_client, Governing, is_id, exceeds, is_no_band, unmet,
  check_authority, amount_of, check_can_approve, can_approve,
}

-- Every condition on the approval of a claim.
pub record MayApprove (claim : Claim) (p : Principal) (rule : Governing) : Type 0 where
  pub not_viewer : (p.base_role == codes "viewer") ≡ false
  pub has_grant : can_access_client p claim.client_id ≡ true
  pub not_creator : is_id claim.created_by_user_id p.user_id ≡ false
  pub within_limit : exceeds (amount_of claim) p.authority_limit ≡ false
  pub has_band : is_no_band rule ≡ false
  pub satisfies : unmet rule p ≡ false

check_can_approve-MayApprove :
    (claim : Claim) (p : Principal) (rule : Governing) {u : Unit {0}}
    → check_can_approve claim p rule ≡ ok u
    → MayApprove claim p rule
unfolding check_can_approve check_authority
check_can_approve-MayApprove claim p rule h =
    let (e1, h1) = guard-eq-ok (p.base_role == codes "viewer") _ _ h in
    let (e2, h2) = guard-eq-ok (not (can_access_client p claim.client_id)) _ _ h1 in
    let (e3, h3) = guard-eq-ok (is_id claim.created_by_user_id p.user_id) _ _ h2 in
    let (e4, h4) = guard-eq-ok (exceeds (amount_of claim) p.authority_limit) _ _ h3 in
    let (e5, h5) = guard-eq-ok (is_no_band rule) _ _ h4 in
    record {
      not_viewer = e1;
      has_grant = not-false _ e2;
      not_creator = e3;
      within_limit = e4;
      has_band = e5;
      satisfies = raise_if-eq-ok (unmet rule p) _ h5;
    }

MayApprove-check_can_approve :
    (claim : Claim) (p : Principal) (rule : Governing)
    → MayApprove claim p rule
    → check_can_approve claim p rule ≡ ok tt
unfolding check_can_approve check_authority
MayApprove-check_can_approve claim p rule m =
    rw (m.not_viewer, m.has_grant, m.not_creator, m.within_limit, m.has_band, m.satisfies) refl

is_ok-true : {E A : Type 0} (r : Result E A) → is_ok r ≡ true → (a : A) × (r ≡ ok a)
is_ok-true (ok a) h = (a, refl)
is_ok-true (err e) h = cc

-- The button that draws the review actions is shown to exactly the users whom the gate lets
-- approve: no viewers, with the client's grant, not the claim's creator, within the personal
-- limit, and satisfying the matrix, which has a band for the amount.
pub can_approve_iff :
    (claim : Claim) (p : Principal) (rule : Governing)
    → (can_approve claim p rule ≡ true) ↔ MayApprove claim p rule
unfolding can_approve
can_approve_iff claim p rule = (
  (λ h.
      check_can_approve-MayApprove claim p rule (is_ok-true (check_can_approve claim p rule) h).1),
  (λ m. rw (MayApprove-check_can_approve claim p rule m) refl),
)
