-- ===== src/EClaim/Claims/Settle.antt =====
-- Around the decision on a claim: `start_claim`, `submit`, `confirm_content`, `mark_paid`, `resubmit`
-- and `attest` of src/eclaim/services/claims.py.
use one_capture.Prelude.{
  ℕ, Bool, true, false, not, ◌&&◌, Option, none, some, List, [], ◌∷◌, ◌++◌, if◌then◌else◌, any,
  contains, is_some, list_eq, nat_eq, length,
}
use one_capture.Prelude.Text.{Text, codes, truthy, or_default}
use one_capture.Prelude.Rows.{put_row}
use one_capture.Prelude.Result.{Result, ok, ◌>>=◌, raise_if}
use one_capture.Core.Json.{text_leb}
use one_capture.EClaim.Sod.{Uuid, is_id, Principal, is_payer}
use one_capture.EClaim.Claims.{
  Status, submitted, in_review, sent_back, rejected, released, exported, paid, status_beq, Claim,
  claim_submitted, claim_resubmitted, claim_paid, claim_attested, content_verified, Session,
  ClaimError, illegal_transition, forbidden, nothing_to_attest, already_attested,
  unknown_claim_type, dates_needed, dates_reversed, claim_id_of, audit, get, lines_of,
  require_writer,
}
use one_capture.EClaim.Claims.Money.{is_out_of_pocket}

-- The arguments of `start_claim`, with the reference that the sequence gives. A date is its ISO text.
pub record ClaimInput : Type 0 where
  pub id : Uuid
  pub claim_no : Text
  pub firm_id : Uuid
  pub client_id : Uuid
  pub title : Option Text
  pub purpose : Option Text
  pub remarks : Option Text
  pub posting_date : Option Text
  pub claim_type : Text
  pub start_date : Option Text
  pub end_date : Option Text
  pub event_id : Option Uuid
  pub claimant_ref : Option Text
  pub submitted_by_claimant_id : Option Uuid
  pub created_by_user_id : Option Uuid

abbrev dated_claim_types : List Text
dated_claim_types = codes "travel" ∷ codes "training" ∷ codes "client_meeting" ∷ codes "other" ∷ []

abbrev claim_types : List Text
claim_types = codes "general" ∷ dated_claim_types

-- `end_date < start_date`, where both are given
abbrev is_reversed : Option Text → Option Text → Bool
is_reversed (some start) (some end) = not (text_leb start end)
is_reversed _ _ = false

unfoldable pub started : ClaimInput → Claim
started a = record {
  id = a.id;
  firm_id = a.firm_id;
  client_id = a.client_id;
  status = in_review;
  created_by_user_id = a.created_by_user_id;
  approved_by_user_id = none;
  department = none;
  total_claimed = none;
  total_approved = none;
  total_reimbursable = none;
  total_amount = none;
  attested_by = none;
  attested_at = none;
  approver_note = none;
  claim_no = a.claim_no;
  source_channel = codes "upload";
  title = a.title;
  purpose = a.purpose;
  remarks = a.remarks;
  posting_date = a.posting_date;
  claim_type = or_default a.claim_type (codes "general");
  start_date = a.start_date;
  end_date = a.end_date;
  event_id = a.event_id;
  claimant_ref = a.claimant_ref;
  submitted_by_claimant_id = a.submitted_by_claimant_id;
}

-- The checks with which `start_claim` begins.
unfoldable pub check_start : ClaimInput → Result ClaimError (Unit {0})
check_start a = do
  let claim_type = or_default a.claim_type (codes "general")
  _ ← raise_if (not (contains claim_types claim_type)) (unknown_claim_type claim_type)
  _ ←
      raise_if
        (not (is_some a.event_id)
          && contains dated_claim_types claim_type
          && not (is_some a.start_date && is_some a.end_date))
        dates_needed
  raise_if (is_reversed a.start_date a.end_date) dates_reversed

-- `start_claim(...)`
unfoldable pub start_claim : Session → ClaimInput → Result ClaimError Session
start_claim s a = do _ ← check_start a; ok (record s { claims = s.claims ++ started a ∷ [] })

-- The claim after `submit`, with its attestation.
unfoldable pub submitted_claim : Session → Text → ℕ → Bool → Bool → Claim → Claim
submitted_claim s actor now attested self_verified claim =
    let parked = record claim {
      status =
          if not self_verified && contains s.verifying_clients claim.client_id
          then submitted
          else claim.status;
    } in
    if attested && any is_out_of_pocket (lines_of s claim.id)
    then record parked { attested_by = some actor; attested_at = some now }
    else parked

abbrev is_attested : Option Text → Bool
is_attested none = false
is_attested (some by) = truthy by

-- `submit(claim, actor, line_count, attested, self_verified)`, on a claim of the session
unfoldable pub submit : Session → Uuid → Text → ℕ → ℕ → Bool → Bool → Result ClaimError Session
submit s claim_id actor now line_count attested self_verified = do
  claim ← get s claim_id
  let new = submitted_claim s actor now attested self_verified claim
  ok (
      audit new (claim_submitted line_count (is_attested new.attested_by)) actor
        (record s { claims = put_row claim_id_of new s.claims }))

-- `confirm_content(claim_id, actor, principal)`
unfoldable pub confirm_content :
    Session → Uuid → Text → Option Principal → Result ClaimError Session
confirm_content s claim_id actor principal = do
  claim ← get s claim_id
  _ ← require_writer claim principal
  _ ← raise_if (not (status_beq claim.status submitted)) (illegal_transition claim.status)
  let new = record claim { status = in_review }
  ok (
      audit new (content_verified (length (lines_of s claim_id))) actor
        (record s { claims = put_row claim_id_of new s.claims }))

abbrev pub keyed_by : Claim → Option Principal → Bool
keyed_by claim none = false
keyed_by claim (some p) = is_id claim.created_by_user_id p.user_id

abbrev pub is_payable : Status → Bool
is_payable released = true
is_payable exported = true
is_payable _ = false

-- `mark_paid(claim_id, actor, principal)`
unfoldable pub mark_paid : Session → Uuid → Text → Option Principal → Result ClaimError Session
mark_paid s claim_id actor principal = do
  claim ← get s claim_id
  _ ← require_writer claim principal
  _ ← raise_if (keyed_by claim principal) (forbidden is_payer)
  _ ← raise_if (not (is_payable claim.status)) (illegal_transition claim.status)
  let new = record claim { status = paid }
  ok (
      audit new (claim_paid claim.status) actor
        (record s { claims = put_row claim_id_of new s.claims }))

abbrev pub is_returned : Status → Bool
is_returned submitted = true
is_returned sent_back = true
is_returned _ = false

-- `resubmit(claim_id, actor, principal)`
unfoldable pub resubmit : Session → Uuid → Text → Option Principal → Result ClaimError Session
resubmit s claim_id actor principal = do
  claim ← get s claim_id
  _ ← require_writer claim principal
  _ ← raise_if (not (is_returned claim.status)) (illegal_transition claim.status)
  let new = record claim { status = in_review }
  ok (audit new claim_resubmitted actor (record s { claims = put_row claim_id_of new s.claims }))

abbrev pub has_left : Status → Bool
has_left released = true
has_left exported = true
has_left paid = true
has_left rejected = true
has_left _ = false

-- `attest(claim_id, actor, principal)`
unfoldable pub attest : Session → Uuid → Text → ℕ → Option Principal → Result ClaimError Session
attest s claim_id actor now principal = do
  claim ← get s claim_id
  _ ← require_writer claim principal
  _ ← raise_if (has_left claim.status) (illegal_transition claim.status)
  _ ← raise_if (not (any is_out_of_pocket (lines_of s claim_id))) nothing_to_attest
  _ ← raise_if (is_some claim.attested_by) already_attested
  let new = record claim { attested_by = some actor; attested_at = some now }
  ok (
      audit new (claim_attested claim.status) actor
        (record s { claims = put_row claim_id_of new s.claims }))
