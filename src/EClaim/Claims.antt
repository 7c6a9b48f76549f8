-- ===== src/EClaim/Claims.antt =====
-- Claims: the records and the shared helpers of src/eclaim/services/claims.py, with the columns of
-- src/eclaim/db/models.py that the operations of the children read or write. A session is the rows
-- of the tables; an operation takes it to the next one, or returns the error that rolls the request
-- back. An audit event is its type with its details as data.
pub mod Money
pub mod Decide
pub mod Settle
pub mod Changes
pub mod Rollup
pub mod Fx
pub mod Lifecycle
use one_capture.Prelude.{
  ℕ, Bool, true, false, not, ◌&&◌, Option, none, some, List, [], ◌∷◌, ◌++◌, map, if◌then◌else◌,
  keep, any, leb, ◌==◌, list_eq, nat_eq,
}
use one_capture.Prelude.Rows.{row_at, put_row}
use one_capture.Prelude.Sorting.{sorted}
use one_capture.Prelude.Text.{Text, codes, or_default}
use one_capture.Prelude.Result.{Result, ok, err, ◌>>=◌, or_raise, raise_if}
use one_capture.Decimal.{Decimal}
use one_capture.EClaim.Sod.{
  Uuid, Principal, can_access_client, ApprovalMatrixRule, SodViolation, not_writer, Governing,
  matrix_rule_for, check_can_approve,
}
use one_capture.EClaim.Sod

pub data Status : Type 0 where
  submitted in_review approved partially_approved sent_back rejected released exported paid : Status

abbrev pub status_beq : Status → Status → Bool
status_beq submitted submitted = true
status_beq in_review in_review = true
status_beq approved approved = true
status_beq partially_approved partially_approved = true
status_beq sent_back sent_back = true
status_beq rejected rejected = true
status_beq released released = true
status_beq exported exported = true
status_beq paid paid = true
status_beq _ _ = false

-- `line_status`
pub data LineStatus : Type 0 where
  pending line_approved queried line_rejected : LineStatus

abbrev pub line_status_beq : LineStatus → LineStatus → Bool
line_status_beq pending pending = true
line_status_beq line_approved line_approved = true
line_status_beq queried queried = true
line_status_beq line_rejected line_rejected = true
line_status_beq _ _ = false

pub record Claim : Type 0 where
  pub id : Uuid
  pub firm_id : Uuid
  pub client_id : Uuid
  pub status : Status
  pub created_by_user_id : Option Uuid
  pub approved_by_user_id : Option Uuid
  pub department : Option Text
  pub total_claimed : Option Decimal
  pub total_approved : Option Decimal
  pub total_reimbursable : Option Decimal
  pub total_amount : Option Decimal
  pub attested_by : Option Text
  pub attested_at : Option ℕ
  pub approver_note : Option Text
  pub claim_no : Text
  pub source_channel : Text
  pub title : Option Text
  pub purpose : Option Text
  pub remarks : Option Text
  pub posting_date : Option Text
  pub claim_type : Text
  pub start_date : Option Text
  pub end_date : Option Text
  pub event_id : Option Uuid
  pub claimant_ref : Option Text
  pub submitted_by_claimant_id : Option Uuid

pub record ClaimLine : Type 0 where
  pub id : Uuid
  pub claim_id : Uuid
  pub line_no : ℕ
  pub category_id : Option Uuid
  pub currency : Option Text
  pub total_amount : Option Decimal
  pub tax_amount : Option Decimal
  pub tax_inclusive : Option Bool
  pub fx_rate : Option Decimal
  pub net_amount : Option Decimal
  pub base_amount : Option Decimal
  pub payment_method : Text
  pub line_status : LineStatus
  pub line_reason : Option Text

-- A reviewer's decision on a line: its text and the reason.
abbrev pub Decision : Type 0
Decision = Text × Option Text

pub data EventType : Type 0 where
  claim_submitted : ℕ → Bool → EventType
  claim_approved claim_unapproved claim_resubmitted : EventType
  claim_decided : Status → Option Text → List (Uuid × Decision) → EventType
  claim_sent_back claim_rejected : Option Text → EventType
  claim_paid claim_attested : Status → EventType
  content_verified : ℕ → EventType
  approval_denied : Text → SodViolation → EventType

pub record AuditEvent : Type 0 where
  pub entity_id : Uuid
  pub event : EventType
  pub actor : Text

pub record Session : Type 0 where
  pub claims : List Claim
  pub lines : List ClaimLine
  -- A client's id with a rule of its matrix.
  pub rules : List (Uuid × ApprovalMatrixRule)
  -- The clients whose setting `capture.submitter_verification` is on.
  pub verifying_clients : List Uuid
  pub events : List AuditEvent

pub data ClaimError : Type 0 where
  claim_not_found : Uuid → ClaimError
  illegal_transition : Status → ClaimError
  -- Refused by `authorize_approval`, which records the denial.
  denied : Claim → SodViolation → ClaimError
  forbidden : SodViolation → ClaimError
  fx_missing line_not_found reason_needed nothing_to_attest already_attested : ClaimError
  invalid_decision : Text → ClaimError
  unknown_claim_type : Text → ClaimError
  dates_needed dates_reversed : ClaimError

abbrev pub claim_id_of : Claim → Uuid
claim_id_of c = c.id

abbrev pub claim_status : Claim → Status
claim_status c = c.status

abbrev pub line_id_of : ClaimLine → Uuid
line_id_of l = l.id

-- `record_event(...)` on a claim
unfoldable pub audit : Claim → EventType → Text → Session → Session
audit claim event actor s = record s {
  events = s.events ++ record { entity_id = claim.id; event = event; actor = actor } ∷ [];
}

-- `get` and `_lock`
unfoldable pub get : Session → Uuid → Result ClaimError Claim
get s claim_id = or_raise (row_at claim_id_of s.claims claim_id) (claim_not_found claim_id)

-- `repos.claims.lines(claim_id)`: in the order of their numbers
unfoldable pub lines_of : Session → Uuid → List ClaimLine
lines_of s claim_id = sorted leb (λ l. l.line_no) (keep (λ l. l.claim_id == claim_id) s.lines)

-- The flushed lines of a claim.
unfoldable pub put_lines : List ClaimLine → List ClaimLine → List ClaimLine
put_lines [] rows = rows
put_lines (l ∷ ls) rows = put_lines ls (put_row line_id_of l rows)

-- The claim and its lines as they are stored at the end of an operation.
unfoldable pub store : Claim → List ClaimLine → Session → Session
store claim lines s = record s {
  claims = put_row claim_id_of claim s.claims;
  lines = put_lines lines s.lines;
}

-- `_require_writer(claim, principal)`
unfoldable pub require_writer : Claim → Option Principal → Result ClaimError (Unit {0})
require_writer claim none = ok tt
require_writer claim (some p) =
    raise_if (not (not (p.base_role == codes "viewer") && can_access_client p claim.client_id))
      (forbidden not_writer)

unfoldable pub categories_of : List ClaimLine → List Uuid
categories_of [] = []
categories_of (l ∷ ls) = elim l.category_id [
  | none ↦ categories_of ls
  | some c ↦ c ∷ categories_of ls
]

-- What the gate of `EClaim/Sod` reads of a claim.
unfoldable pub gate_view : Claim → List ClaimLine → one_capture.EClaim.Sod.Claim
gate_view claim lines = record {
  client_id = claim.client_id;
  created_by_user_id = claim.created_by_user_id;
  total_claimed = claim.total_claimed;
  total_amount = claim.total_amount;
  department = claim.department;
  category_ids = categories_of lines;
}

unfoldable pub rules_of : Uuid → List (Uuid × ApprovalMatrixRule) → List ApprovalMatrixRule
rules_of client_id [] = []
rules_of client_id ((c, r) ∷ rs) =
    let rest = rules_of client_id rs in if c == client_id then r ∷ rest else rest

unfoldable pub as_denial : Claim → Result SodViolation (Unit {0}) → Result ClaimError (Unit {0})
as_denial claim (ok _) = ok tt
as_denial claim (err v) = err (denied claim v)

-- The check of `authorize_approval(repos, claim, approver, action=...)`
unfoldable pub authorize :
    Session → Claim → List ClaimLine → Principal → Result ClaimError (Unit {0})
authorize s claim lines approver = as_denial claim (
    check_can_approve (gate_view claim lines) approver
      (matrix_rule_for (rules_of claim.client_id s.rules) (gate_view claim lines)))

-- `approver.email or str(approver.user_id)`
unfoldable pub actor_of : Principal → Text
actor_of p = elim p.email [ none ↦ p.user_id | some email ↦ or_default email p.user_id ]

-- `_record_denied` commits its event on its own, where the approver has access.
unfoldable pub record_denied : Claim → Principal → Text → SodViolation → Session → Session
record_denied claim approver action reason s =
    if can_access_client approver claim.client_id
    then audit claim (approval_denied action reason) (actor_of approver) s
    else s

-- What is durable after a request of this approver: its session, or a denial, or nothing.
unfoldable pub attempt : Session → Principal → Text → Result ClaimError Session → Session
attempt s approver action (ok after) = after
attempt s approver action (err (denied claim reason)) = record_denied claim approver action reason s
attempt s approver action (err failure) = s
