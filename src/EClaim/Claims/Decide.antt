-- ===== src/EClaim/Claims/Decide.antt =====
-- The decisions on a claim: `approve`, `decide`, `send_back`, `reject` and `unapprove` of
-- src/eclaim/services/claims.py.
use one_capture.Prelude.{
  Bool, true, false, not, ◌&&◌, ◌||◌, Option, none, some, List, [], ◌∷◌, map, if◌then◌else◌, any,
  all, ◌==◌, list_eq, nat_eq,
}
use one_capture.Prelude.Text.{Text, codes, truthy, or_none, strip}
use one_capture.Prelude.Rows.{put_row, row_at}
use one_capture.Prelude.Result.{Result, ok, err, ◌>>=◌, or_raise, raise_if}
use one_capture.EClaim.Sod.{Uuid, Principal}
use one_capture.EClaim.Claims.{
  Status, submitted, in_review, approved, partially_approved, sent_back, rejected, status_beq,
  LineStatus, pending, line_approved, queried, line_rejected, line_status_beq, Claim, ClaimLine,
  Decision, claim_approved, claim_unapproved, claim_decided, claim_sent_back, claim_rejected,
  Session, ClaimError, illegal_transition, invalid_decision, line_not_found, reason_needed,
  line_id_of, audit, get, lines_of, store, require_writer, authorize, actor_of,
}
use one_capture.EClaim.Claims.Money.{recompute_totals, require_fx_resolved}

-- The guard with which every decision begins.
unfoldable pub require_in_review : Claim → Result ClaimError (Unit {0})
require_in_review claim =
    raise_if (not (status_beq claim.status in_review)) (illegal_transition claim.status)

unfoldable pub authorize_any :
    Session → Claim → List ClaimLine → Option Principal → Result ClaimError (Unit {0})
authorize_any s claim lines none = ok tt
authorize_any s claim lines (some approver) = authorize s claim lines approver

unfoldable pub with_status : LineStatus → ClaimLine → ClaimLine
with_status status l = record l { line_status = status }

unfoldable pub signed_by : Option Principal → Claim → Claim
signed_by none claim = claim
signed_by (some approver) claim = record claim { approved_by_user_id = some approver.user_id }

unfoldable pub approved_claim : Option Principal → List ClaimLine → Claim → Claim
approved_claim approver lines claim = record (recompute_totals lines (signed_by approver claim)) {
  status = approved;
}

-- `approve(claim_id, actor, approver)`
unfoldable pub approve : Session → Uuid → Text → Option Principal → Result ClaimError Session
approve s claim_id actor approver = do
  claim ← get s claim_id
  _ ← require_in_review claim
  _ ← require_fx_resolved (lines_of s claim_id)
  _ ← authorize_any s claim (lines_of s claim_id) approver
  let lines = map (with_status line_approved) (lines_of s claim_id)
  let new = approved_claim approver lines claim
  ok (audit new claim_approved actor (store new lines s))

-- The three texts that a decision on a line may be.
unfoldable pub line_decision : Text → Result ClaimError LineStatus
line_decision status =
    if status == codes "approved"
    then ok line_approved
    else if status == codes "queried"
    then ok queried
    else if status == codes "rejected"
    then ok line_rejected
    else err (invalid_decision status)

abbrev has_reason : Option Text → Bool
has_reason none = false
has_reason (some reason) = truthy reason && truthy (strip reason)

abbrev or_no_reason : Option Text → Option Text
or_no_reason none = none
or_no_reason (some reason) = or_none reason

-- One round of the loop over the decisions.
unfoldable pub decide_line : Uuid → Decision → List ClaimLine → Result ClaimError (List ClaimLine)
decide_line line_id (text, reason) lines = do
  l ← or_raise (row_at line_id_of lines line_id) line_not_found
  status ← line_decision text
  _ ← raise_if (not (line_status_beq status line_approved) && not (has_reason reason)) reason_needed
  ok (
      put_row line_id_of (record l { line_status = status; line_reason = or_no_reason reason })
        lines)

unfoldable pub decide_lines :
    List (Uuid × Decision) → List ClaimLine → Result ClaimError (List ClaimLine)
decide_lines [] lines = ok lines
decide_lines ((line_id, decision) ∷ decisions) lines = do
  decided ← decide_line line_id decision lines
  decide_lines decisions decided

abbrev pub has_status : LineStatus → List ClaimLine → Bool
has_status status lines = any (λ l. line_status_beq l.line_status status) lines

abbrev pub some_lines : List ClaimLine → Bool
some_lines [] = false
some_lines (l ∷ ls) = true

-- The status of the header, by the three tests on those of its lines.
abbrev pub by_tests : Bool → Bool → Bool → Status
by_tests is_open all_rejected some_rejected =
    if is_open
    then sent_back
    else if all_rejected
    then rejected
    else if some_rejected
    then partially_approved
    else approved

unfoldable pub rolled_up : List ClaimLine → Status
rolled_up lines =
    by_tests (has_status queried lines || has_status pending lines)
      (some_lines lines && all (λ l. line_status_beq l.line_status line_rejected) lines)
      (has_status line_rejected lines)

abbrev pub is_approval : Status → Bool
is_approval approved = true
is_approval partially_approved = true
is_approval _ = false

unfoldable pub decided_claim : Principal → Option Text → List ClaimLine → Claim → Claim
decided_claim reviewer new_note lines claim =
    record (recompute_totals lines
      (if is_approval (rolled_up lines) then signed_by (some reviewer) claim else claim)) {
        approver_note = new_note;
        status = rolled_up lines;
      }

-- `decide(claim_id, reviewer, decisions, actor, note)`
unfoldable pub decide :
    Session
    → Uuid
    → Principal
    → List (Uuid × Decision)
    → Text
    → Option Text
    → Result ClaimError Session
decide s claim_id reviewer decisions actor new_note = do
  claim ← get s claim_id
  _ ← require_in_review claim
  _ ← require_fx_resolved (lines_of s claim_id)
  _ ← authorize s claim (lines_of s claim_id) reviewer
  lines ← decide_lines decisions (lines_of s claim_id)
  let new = decided_claim reviewer new_note lines claim
  ok (audit new (claim_decided new.status new_note decisions) actor (store new lines s))

-- `send_back(claim_id, reviewer, reason)`
unfoldable pub send_back : Session → Uuid → Principal → Option Text → Result ClaimError Session
send_back s claim_id reviewer reason = do
  claim ← get s claim_id
  _ ← require_in_review claim
  _ ← authorize s claim (lines_of s claim_id) reviewer
  let new = record claim { status = submitted }
  ok (
      audit new (claim_sent_back reason) (actor_of reviewer)
        (store new (map (with_status pending) (lines_of s claim_id)) s))

-- `reject(claim_id, reviewer, reason)`
unfoldable pub reject : Session → Uuid → Principal → Option Text → Result ClaimError Session
reject s claim_id reviewer reason = do
  claim ← get s claim_id
  _ ← require_in_review claim
  _ ← authorize s claim (lines_of s claim_id) reviewer
  let new = record claim { status = rejected }
  ok (
      audit new (claim_rejected reason) (actor_of reviewer)
        (store new (map (with_status line_rejected) (lines_of s claim_id)) s))

unfoldable pub reopened_line : ClaimLine → ClaimLine
reopened_line l = record l { line_status = pending; line_reason = none }

unfoldable pub reopened_claim : List ClaimLine → Claim → Claim
reopened_claim lines claim =
    record (recompute_totals lines
      (record claim { approved_by_user_id = none; approver_note = none })) { status = in_review }

-- `unapprove(claim_id, reviewer, actor)`
unfoldable pub unapprove : Session → Uuid → Principal → Text → Result ClaimError Session
unapprove s claim_id reviewer actor = do
  claim ← get s claim_id
  _ ← raise_if (not (is_approval claim.status)) (illegal_transition claim.status)
  _ ← require_writer claim (some reviewer)
  let lines = map reopened_line (lines_of s claim_id)
  let new = reopened_claim lines claim
  ok (audit new claim_unapproved actor (store new lines s))
