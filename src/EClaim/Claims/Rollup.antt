-- ===== src/EClaim/Claims/Rollup.antt =====
-- The outcome of a decision on the lines of a claim: `decide` of src/eclaim/services/claims.py.
use mathlib.Core.Path.{subst}
use one_capture.Prelude.{
  ◌≡◌, refl, sym, ap, ◌∙◌, Bool, true, false, not, ◌&&◌, ◌||◌, Option, some, List, [], ◌∷◌,
  if◌then◌else◌, arith, All, any, all, keep, ◌==◌, list_eq, nat_eq, beq_sound, find_first-Among,
  is_some,
}
use one_capture.Prelude.Text.{Text}
use one_capture.Prelude.Rows.{row_at, put_row, row_at-put_self}
use one_capture.Prelude.Result.{ok, >>=-eq-ok, ok-injective, raise_if-eq-ok, or_raise-some}
use one_capture.EClaim.Sod.{Uuid, Principal}
use one_capture.EClaim.Claims.{
  Status, sent_back, rejected, partially_approved, approved, LineStatus, pending, line_approved,
  queried, line_rejected, line_status_beq, Claim, ClaimLine, Decision, EventType, Session,
  claim_id_of, audit, get, lines_of, store, authorize,
}
use one_capture.EClaim.Claims.Money.{
  sum_base, is_approved_line, is_out_of_pocket, recompute_totals, require_fx_resolved,
}
use one_capture.EClaim.Claims.Decide.{
  require_in_review, signed_by, decide_lines, has_status, some_lines, by_tests, rolled_up,
  is_approval, decided_claim, decide,
}

abbrev is_of : LineStatus → ClaimLine → Bool
is_of status l = line_status_beq l.line_status status

-- What the status of a header says of its lines.
pub data RollUp (lines : List ClaimLine) : Status → Type 0 where
  back : any (λ l. is_of queried l || is_of pending l) lines ≡ true → RollUp lines sent_back
  turned_down :
      some_lines lines ≡ true
      → All (λ l. l.line_status ≡ line_rejected) lines
      → RollUp lines rejected
  in_part :
      all (λ l. is_of line_approved l || is_of line_rejected l) lines ≡ true
      → any (is_of line_approved) lines ≡ true
      → any (is_of line_rejected) lines ≡ true
      → RollUp lines partially_approved
  in_full : All (λ l. l.line_status ≡ line_approved) lines → RollUp lines approved

any_either :
    (ls : List ClaimLine)
    → (has_status queried ls || has_status pending ls)
      ≡ any (λ l. is_of queried l || is_of pending l) ls
any_either [] = refl
any_either (l ∷ ls) = ground (arith, any_either ls)

sound_status : (p q : LineStatus) → line_status_beq p q ≡ true → p ≡ q
sound_status p q h = ground arith

rejected_lines :
    (ls : List ClaimLine)
    → all (λ l. is_of line_rejected l) ls ≡ true
    → All (λ l. l.line_status ≡ line_rejected) ls
rejected_lines [] h = tt
rejected_lines (l ∷ ls) h =
    let (here, rest) = both (is_of line_rejected l) (all (λ k. is_of line_rejected k) ls) h in
    (sound_status l.line_status line_rejected here, rejected_lines ls rest)
  where
    both : (a b : Bool) → (a && b) ≡ true → (a ≡ true) × (b ≡ true)
    both a b h = ground arith

only_approved :
    (q : LineStatus)
    → line_status_beq q queried ≡ false
    → line_status_beq q pending ≡ false
    → line_status_beq q line_rejected ≡ false
    → q ≡ line_approved
only_approved q h1 h2 h3 = ground arith

neither : (a b : Bool) → (a || b) ≡ false → (a ≡ false) × (b ≡ false)
neither a b h = ground arith

approved_lines :
    (ls : List ClaimLine)
    → any (λ l. is_of queried l || is_of pending l) ls ≡ false
    → has_status line_rejected ls ≡ false
    → All (λ l. l.line_status ≡ line_approved) ls
approved_lines [] h r = tt
approved_lines (l ∷ ls) h r =
    let (here, rest) = neither (is_of queried l || is_of pending l) _ h in
    let (unqueried, decided) = neither (is_of queried l) (is_of pending l) here in
    let (kept, others) = neither (is_of line_rejected l) _ r in
    (only_approved l.line_status unqueried decided kept, approved_lines ls rest others)

settled_line :
    (q : LineStatus)
    → (line_status_beq q queried || line_status_beq q pending) ≡ false
    → (line_status_beq q line_approved || line_status_beq q line_rejected) ≡ true
settled_line q h = ground arith

settled_lines :
    (ls : List ClaimLine)
    → any (λ l. is_of queried l || is_of pending l) ls ≡ false
    → all (λ l. is_of line_approved l || is_of line_rejected l) ls ≡ true
settled_lines [] h = refl
settled_lines (l ∷ ls) h =
    let (here, rest) = neither (is_of queried l || is_of pending l) _ h in
    rw (settled_line l.line_status here) (settled_lines ls rest)

some_approved :
    (ls : List ClaimLine)
    → all (λ l. is_of line_approved l || is_of line_rejected l) ls ≡ true
    → all (λ l. is_of line_rejected l) ls ≡ false
    → any (is_of line_approved) ls ≡ true
some_approved [] h r = cc
some_approved (l ∷ ls) h r = ground (arith, some_approved ls)

has_some : (ls : List ClaimLine) → has_status line_rejected ls ≡ true → some_lines ls ≡ true
has_some [] h = cc
has_some (l ∷ ls) h = refl

by_tests-cases :
    (P : Status → Type 0) (a b c : Bool)
    → (a ≡ true → P sent_back)
    → (a ≡ false → b ≡ true → P rejected)
    → (a ≡ false → b ≡ false → c ≡ true → P partially_approved)
    → (a ≡ false → c ≡ false → P approved)
    → P (by_tests a b c)
by_tests-cases P true b c h1 h2 h3 h4 = h1 refl
by_tests-cases P false true c h1 h2 h3 h4 = h2 refl refl
by_tests-cases P false false true h1 h2 h3 h4 = h3 refl refl refl
by_tests-cases P false false false h1 h2 h3 h4 = h4 refl refl

both : (a b : Bool) → (a && b) ≡ true → (a ≡ true) × (b ≡ true)
both a b h = ground arith

second_false : (a b : Bool) → a ≡ true → (a && b) ≡ false → b ≡ false
second_false a b h g = ground arith

-- The status that the header gets, as `RollUp` reads it off the lines.
pub rolled_up-RollUp : (ls : List ClaimLine) → RollUp ls (rolled_up ls)
unfolding rolled_up
rolled_up-RollUp ls =
    let settled =
      λ (h : (has_status queried ls || has_status pending ls) ≡ false). sym (any_either ls) ∙ h in
    by_tests-cases (RollUp ls) _ _ _ (λ waiting. back (sym (any_either ls) ∙ waiting))
      (λ decided h.
        (let (some_line, every) = both (some_lines ls) _ h in
          turned_down some_line (rejected_lines ls every)))
      (λ decided mixed some_out.
        in_part (settled_lines ls (settled decided))
          (some_approved ls (settled_lines ls (settled decided))
            (second_false (some_lines ls) _ (has_some ls some_out) mixed))
          some_out)
      (λ decided none_out. in_full (approved_lines ls (settled decided) none_out))

-- What a decision that went through has stored.
pub record Decided (s s' : Session) (id : Uuid) (reviewer : Principal)
    (decisions : List (Uuid × Decision)) : Type 0 where
  pub old : Claim
  pub new : Claim
  pub lines : List ClaimLine
  pub was : row_at claim_id_of s.claims id ≡ some old
  pub now : row_at claim_id_of s'.claims id ≡ some new
  pub allowed : authorize s old (lines_of s id) reviewer ≡ ok tt
  pub complete :
      any (λ l. is_some l.total_amount && not (is_some l.base_amount)) (lines_of s id) ≡ false
  pub applied : decide_lines decisions (lines_of s id) ≡ ok lines
  pub rolls_up : RollUp lines new.status
  pub approver :
      new.approved_by_user_id
      ≡ (if is_approval new.status then some reviewer.user_id else old.approved_by_user_id)
  pub claimed : new.total_claimed ≡ sum_base lines
  pub total_approved : new.total_approved ≡ sum_base (keep is_approved_line lines)
  pub reimbursable :
      new.total_reimbursable ≡ sum_base (keep is_out_of_pocket (keep is_approved_line lines))

approver_if :
    (c : Claim) (p : Principal) (b : Bool)
    → (if b then signed_by (some p) c else c).approved_by_user_id
      ≡ (if b then some p.user_id else c.approved_by_user_id)
unfolding signed_by
approver_if c p true = refl
approver_if c p false = refl

same_if : (c : Claim) (p : Principal) (b : Bool) → (if b then signed_by (some p) c else c).id ≡ c.id
unfolding signed_by
same_if c p true = refl
same_if c p false = refl

decided_id :
    (p : Principal) (new_note : Option Text) (lines : List ClaimLine) (c : Claim)
    → (decided_claim p new_note lines c).id ≡ c.id
unfolding decided_claim recompute_totals
decided_id p new_note lines c = same_if c p (is_approval (rolled_up lines))

decided_approver :
    (p : Principal) (new_note : Option Text) (lines : List ClaimLine) (c : Claim)
    → (decided_claim p new_note lines c).approved_by_user_id
      ≡ (if is_approval (rolled_up lines) then some p.user_id else c.approved_by_user_id)
unfolding decided_claim recompute_totals
decided_approver p new_note lines c = approver_if c p (is_approval (rolled_up lines))

stored_at :
    (s : Session) (id : Uuid) (old new : Claim) (lines : List ClaimLine) (event : EventType)
    (actor : Text) {s' : Session}
    → row_at claim_id_of s.claims id ≡ some old
    → new.id ≡ old.id
    → audit new event actor (store new lines s) ≡ s'
    → row_at claim_id_of s'.claims id ≡ some new
unfolding audit store
stored_at s id old new lines event actor found same done =
    let at_id = same ∙ beq_sound old.id id (find_first-Among (λ c. c.id == id) s.claims found).1 in
    ap (λ (t : Session). row_at claim_id_of t.claims id) (sym done)
    ∙ subst (λ u. row_at claim_id_of (put_row claim_id_of new s.claims) u ≡ some new) at_id
        (row_at-put_self claim_id_of new s.claims
          (subst (λ u. row_at claim_id_of s.claims u ≡ some old) (sym at_id) found))

-- A decision that goes through was taken by a reviewer whom the gate lets pass, on a claim none of
-- whose lines lacks its exchange rate. The stored header sums up the decided lines: it goes back
-- when a line is queried or still pending, is rejected when there are lines and all are rejected,
-- is approved in part when some are approved and the others rejected, and in full when every
-- line is approved. The reviewer is recorded as its approver exactly in the last two cases, and
-- the three totals are the sums over all lines, the approved ones, and those of them paid out of
-- pocket.
pub decide-Decided :
    (s : Session) (id : Uuid) (reviewer : Principal) (decisions : List (Uuid × Decision))
    (actor : Text) (new_note : Option Text) {s' : Session}
    → decide s id reviewer decisions actor new_note ≡ ok s'
    → Decided s s' id reviewer decisions
unfolding decide get require_fx_resolved
decide-Decided s id reviewer decisions actor new_note h =
    let (c, got, h1) = >>=-eq-ok (get s id) _ h in
    let (u, guard, h2) = >>=-eq-ok (require_in_review c) _ h1 in
    let (v, complete, h3) = >>=-eq-ok (require_fx_resolved (lines_of s id)) _ h2 in
    let (w, gate, h4) = >>=-eq-ok (authorize s c (lines_of s id) reviewer) _ h3 in
    let (lines, chosen, h5) = >>=-eq-ok (decide_lines decisions (lines_of s id)) _ h4 in
    let found = or_raise-some _ _ got in
    record {
      old = c;
      new = decided_claim reviewer new_note lines c;
      lines = lines;
      was = found;
      now =
          stored_at s id c _ lines _ actor found (decided_id reviewer new_note lines c)
            (ok-injective h5);
      allowed = gate;
      complete = raise_if-eq-ok _ _ complete;
      applied = chosen;
      rolls_up = unfold decided_claim in rolled_up-RollUp lines;
      approver = unfold decided_claim in decided_approver reviewer new_note lines c;
      claimed = unfold decided_claim recompute_totals in refl;
      total_approved = unfold decided_claim recompute_totals in refl;
      reimbursable = unfold decided_claim recompute_totals in refl;
    }
