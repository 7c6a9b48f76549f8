-- ===== src/Tests/Claimed.antt =====
-- A claim of two lines, one of which its reviewer rejects.
use one_capture.Prelude.{
  ◌≡◌, refl, not, ◌&&◌, none, some, List, [], ◌∷◌, All, is_some, list_eq, nat_eq,
}
use one_capture.Prelude.Rows.{row_at, put_row}
use one_capture.Prelude.Sorting.{sorted, insert_sorted}
use one_capture.Prelude.Text.{Text, codes, strip, lstrip, is_space, upper}
use one_capture.Prelude.Result.{Result, ok, err}
use one_capture.Decimal.{of_ℕ, dec_gtb}
use one_capture.EClaim.Sod.{
  Principal, can_access_client, check_can_approve, check_authority, amount_of, matrix_rule_for,
  governing,
}
use one_capture.EClaim.Claims.{
  in_review, rejected, pending, Claim, ClaimLine, Decision, Session, ClaimError, claim_id_of,
  attempt, get, lines_of, authorize, as_denial, gate_view, rules_of,
}
use one_capture.EClaim.Claims.Money.{
  require_fx_resolved, recompute_line_money, with_gross, with_base, base_of, is_foreign, net_of,
  rate_of,
}
use one_capture.EClaim.Claims.Decide.{
  require_in_review, decide_line, decide_lines, line_decision, decide, approve,
}
use one_capture.EClaim.Claims.Changes.{IsApart}
use one_capture.EClaim.Claims.Rollup.{Decided, decide-Decided}
use one_capture.EClaim.Claims.Fx.{is_unresolved, recompute_line_money-unresolved}
use one_capture.EClaim.Claims.Lifecycle.{Reach, begin, next, decides, approves}
use one_capture.EClaim.Claims.Lifecycle.Reached.{Reach-IsApart, Reach-final_of_claim}

abbrev trip : Claim
trip = record {
  id = codes "c1";
  firm_id = codes "f";
  client_id = codes "c";
  status = in_review;
  created_by_user_id = some (codes "ann");
  approved_by_user_id = none;
  department = none;
  total_claimed = some (of_ℕ 150);
  total_approved = none;
  total_reimbursable = none;
  total_amount = none;
  attested_by = none;
  attested_at = none;
  approver_note = none;
  claim_no = codes "CLM-1";
  source_channel = codes "upload";
  title = none;
  purpose = none;
  remarks = none;
  posting_date = none;
  claim_type = codes "general";
  start_date = none;
  end_date = none;
  event_id = none;
  claimant_ref = none;
  submitted_by_claimant_id = none;
}

abbrev taxi : ClaimLine
taxi = record {
  id = codes "l1";
  claim_id = codes "c1";
  line_no = 1;
  category_id = none;
  currency = some (codes "MYR");
  total_amount = some (of_ℕ 100);
  tax_amount = none;
  tax_inclusive = none;
  fx_rate = none;
  net_amount = some (of_ℕ 100);
  base_amount = some (of_ℕ 100);
  payment_method = codes "out_of_pocket";
  line_status = pending;
  line_reason = none;
}

abbrev dinner : ClaimLine
dinner = record taxi {
  id = codes "l2";
  line_no = 2;
  total_amount = some (of_ℕ 50);
  base_amount = some (of_ℕ 50);
}

abbrev waiting : Session
waiting = record {
  claims = trip ∷ [];
  lines = taxi ∷ dinner ∷ [];
  rules = [];
  verifying_clients = [];
  events = [];
}

abbrev checker : Principal
checker = record {
  user_id = codes "bob";
  firm_id = codes "f";
  base_role = codes "manager";
  allowed_client_ids = codes "c" ∷ [];
  authority_limit = some (of_ℕ 500);
  email = none;
}

abbrev verdicts : List (Text × Decision)
verdicts =
    (codes "l1", (codes "approved", none))
    ∷ (codes "l2", (codes "rejected", some (codes "private")))
    ∷ []

abbrev after : Session → Result ClaimError Session → Session
after s (ok t) = t
after s (err e) = s

abbrev decided_trip : Session
decided_trip = after waiting (decide waiting (codes "c1") checker verdicts (codes "bob") none)

decide_ok : decide waiting (codes "c1") checker verdicts (codes "bob") none ≡ ok decided_trip
unfolding decide get require_in_review require_fx_resolved lines_of sorted insert_sorted authorize
    as_denial gate_view check_can_approve can_access_client check_authority amount_of
    matrix_rule_for rules_of governing dec_gtb decide_lines decide_line line_decision strip lstrip
    is_space put_row
decide_ok = refl

decide-Decided_example : Decided waiting decided_trip (codes "c1") checker verdicts
decide-Decided_example =
    decide-Decided waiting (codes "c1") checker verdicts (codes "bob") none decide_ok

review_run : Reach waiting (
    attempt waiting checker
      (codes "decide")
      (decide waiting (codes "c1") checker verdicts (codes "bob") none))
review_run = next begin (decides (codes "c1") checker verdicts (codes "bob") none)

abbrev reviewed : Session
reviewed =
    attempt waiting checker (codes "decide")
      (decide waiting (codes "c1") checker verdicts (codes "bob") none)

Reach-IsApart_example : All IsApart reviewed.claims
Reach-IsApart_example = Reach-IsApart review_run (λ a h. cc, tt)

abbrev refused_trip : Claim
refused_trip = record trip { status = rejected }

abbrev closed : Session
closed = record waiting { claims = refused_trip ∷ [] }

abbrev after_decision : Session
after_decision =
    attempt closed checker (codes "decide")
      (decide closed (codes "c1") checker verdicts (codes "bob") none)

abbrev after_approval : Session
after_approval =
    attempt after_decision checker (codes "approve")
      (approve after_decision (codes "c1") (codes "bob") (some checker))

-- Two attempts to decide on a rejected claim.
late_attempts : Reach closed after_approval
late_attempts =
    next (next begin (decides (codes "c1") checker verdicts (codes "bob") none))
      (approves (codes "c1") (codes "bob") checker)

Reach-final_of_claim_example :
    (now : Claim) × (row_at claim_id_of after_approval.claims (codes "c1") ≡ some now)
    × (now.status ≡ rejected)
Reach-final_of_claim_example =
    Reach-final_of_claim late_attempts (codes "c1") refused_trip refl refl

abbrev dollar_line : ClaimLine
dollar_line = record taxi { currency = some (codes "usd"); base_amount = none }

dollar_ok :
    recompute_line_money dollar_line
    ≡ some (record dollar_line { net_amount = net_of dollar_line; base_amount = none })
unfolding recompute_line_money with_gross with_base base_of is_foreign upper
dollar_ok = refl

recompute_line_money-unresolved_example :
    (let new = record dollar_line { net_amount = net_of dollar_line; base_amount = none } in
      (is_unresolved new ≡ (
        is_some dollar_line.total_amount
        && not (is_some (rate_of dollar_line.fx_rate))
        && is_foreign dollar_line.currency))
      × (new.total_amount ≡ dollar_line.total_amount)
      × (new.fx_rate ≡ dollar_line.fx_rate)
      × (new.currency ≡ dollar_line.currency))
recompute_line_money-unresolved_example = recompute_line_money-unresolved dollar_line dollar_ok
