-- ===== src/EClaim/Sod.antt =====
-- Separation of duties and the approval matrix: src/eclaim/services/sod.py, with `Principal` of
-- src/eclaim/auth/principal.py. An identifier is the text of its UUID.
pub mod Matrix
pub mod Gate
use one_capture.Prelude.{
  ℕ, ◌+◌, ◌*◌, Bool, true, false, not, ◌&&◌, ◌||◌, Option, none, some, List, [], ◌∷◌, map,
  if◌then◌else◌, keep, contains, leb, lookup, find_first, ◌==◌, list_eq, nat_eq, is_some,
}
use one_capture.Prelude.Sorting.{sorted}
use one_capture.Prelude.Text.{Text, codes, truthy?, or_none}
use one_capture.Prelude.Result.{Result, ok, err, ◌>>=◌, ◌>>◌, raise_if, is_ok}
use one_capture.Decimal.{Decimal, of_ℕ, dec_leb, dec_gtb}

abbrev pub Uuid : Type 0
Uuid = Text

-- Equality of a nullable column with a value: false on NULL.
abbrev pub is_id : Option Uuid → Uuid → Bool
is_id none x = false
is_id (some y) x = y == x

pub record Principal : Type 0 where
  pub user_id : Uuid
  pub firm_id : Uuid
  pub base_role : Text
  pub allowed_client_ids : List Uuid
  pub authority_limit : Option Decimal
  pub email : Option Text

unfoldable pub can_access_client : Principal → Uuid → Bool
can_access_client p client_id = contains p.allowed_client_ids client_id

pub record ApprovalMatrixRule : Type 0 where
  pub scope_department : Option Text
  pub scope_category_id : Option Uuid
  pub scope_module : Option Text
  pub min_amount : Option Decimal
  pub max_amount : Option Decimal
  pub step_order : ℕ
  pub approver_role : Option Text
  pub approver_user_id : Option Uuid
  pub active : Bool

abbrev role_rank : List (Text × ℕ)
role_rank =
    (codes "viewer", 0) ∷ (codes "approver", 1) ∷ (codes "manager", 2) ∷ (codes "partner", 3) ∷ []

-- `_ROLE_RANK.get(held, -1) >= _ROLE_RANK.get(required, 99)`: false for a role without a rank.
unfoldable pub has_rank : Text → Text → Bool
has_rank held required = reaches (lookup held role_rank) (lookup required role_rank)
  where
    reaches : Option ℕ → Option ℕ → Bool
    reaches (some h) (some r) = leb r h
    reaches _ _ = false

-- `_rule_satisfied(rule, approver)`
unfoldable pub rule_satisfied : ApprovalMatrixRule → Principal → Bool
rule_satisfied rule approver = by_user rule.approver_user_id rule.approver_role
  where
    by_role : Option Text → Bool
    by_role (some (c ∷ role)) = has_rank approver.base_role (c ∷ role)
    by_role _ = true

    by_user : Option Uuid → Option Text → Bool
    by_user (some user) role = approver.user_id == user
    by_user none role = by_role role

abbrev at_least : Decimal → Option Decimal → Bool
at_least amount none = true
at_least amount (some low) = dec_leb low amount

abbrev at_most : Decimal → Option Decimal → Bool
at_most amount none = true
at_most amount (some high) = dec_leb amount high

-- `_in_band(amount, rule)`
unfoldable pub in_band : Decimal → ApprovalMatrixRule → Bool
in_band amount rule = at_least amount rule.min_amount && at_most amount rule.max_amount

-- A NULL scope admits every value.
abbrev admits : Option Text → Text → Bool
admits none x = true
admits (some scope) x = scope == x

unfoldable pub is_band : Text → ApprovalMatrixRule → Bool
is_band scope r = r.active && (r.step_order == 1) && admits r.scope_module scope

unfoldable pub floor_of : ApprovalMatrixRule → Decimal
floor_of r = elim r.min_amount [ none ↦ of_ℕ 0 | some low ↦ low ]

-- `min` of the floors
unfoldable pub lowest : Decimal → List ApprovalMatrixRule → Decimal
lowest best [] = best
lowest best (r ∷ rs) = lowest (if dec_gtb best (floor_of r) then floor_of r else best) rs

-- `_matrix_gap(rules, module, amount)`
unfoldable pub matrix_gap : List ApprovalMatrixRule → Text → Decimal → Bool
matrix_gap rules scope amount = reaches (keep (is_band scope) rules)
  where
    reaches : List ApprovalMatrixRule → Bool
    reaches [] = false
    reaches (r ∷ rs) = dec_leb (lowest (floor_of r) rs) amount

unfoldable pub department_fits : Option Text → Option Text → Bool
department_fits none department = true
department_fits (some scope) none = false
department_fits (some scope) (some department) = scope == department

unfoldable pub category_fits : Option Uuid → List Uuid → Bool
category_fits none categories = true
category_fits (some scope) categories = contains categories scope

-- The filter of `select_matrix_rule`.
unfoldable pub fits : Decimal → Option Text → List Uuid → Text → ApprovalMatrixRule → Bool
fits amount department categories scope r =
    r.active
    && (r.step_order == 1)
    && in_band amount r
    && admits r.scope_module scope
    && department_fits r.scope_department department
    && category_fits r.scope_category_id categories

unfoldable pub bit : Bool → ℕ
bit b = if b then 1 else 0

-- The sort key, a triple of Booleans, as a number of three binary digits.
unfoldable pub specificity : ApprovalMatrixRule → ℕ
specificity r =
    4 * bit (is_some r.scope_module)
    + 2 * bit (is_some r.scope_category_id)
    + bit (is_some r.scope_department)

abbrev pub first : List ApprovalMatrixRule → Option ApprovalMatrixRule
first [] = none
first (r ∷ rs) = some r

-- `select_matrix_rule(rules, amount, department, category_ids, module)`
unfoldable pub select_matrix_rule :
    List ApprovalMatrixRule → Decimal → Option Text → List Uuid → Text → Option ApprovalMatrixRule
select_matrix_rule rules amount department categories scope =
    first
      (sorted (λ a b. leb b a) specificity (keep (fits amount department categories scope) rules))

-- What `matrix_rule_for` resolves to; `no_band` is the sentinel MATRIX_NO_BAND.
pub data Governing : Type 0 where
  ungoverned : Governing
  governed : ApprovalMatrixRule → Governing
  no_band : Governing

-- The shared end of `matrix_rule_for` and `matrix_rule_for_invoice`.
unfoldable pub governing :
    List ApprovalMatrixRule → Decimal → Option Text → List Uuid → Text → Governing
governing [] amount department categories scope = ungoverned
governing (r ∷ rs) amount department categories scope =
    elim (select_matrix_rule (r ∷ rs) amount department categories scope) [
      | some rule ↦ governed rule
      | none ↦ if matrix_gap (r ∷ rs) scope amount then no_band else ungoverned
    ]

-- The messages of `SoDViolation`, as data.
pub data SodViolation : Type 0 where
  is_viewer no_grant not_coded is_coder is_creator is_submitter not_writer is_payer : SodViolation
  over_limit : Option Decimal → Option Decimal → SodViolation
  no_band_for : Option Decimal → SodViolation
  needs_rule : Option Decimal → Governing → SodViolation

-- `amount > approver.authority_limit`, where neither is None
abbrev pub exceeds : Option Decimal → Option Decimal → Bool
exceeds (some amount) (some limit) = dec_gtb amount limit
exceeds _ _ = false

abbrev pub is_no_band : Governing → Bool
is_no_band no_band = true
is_no_band _ = false

abbrev pub unmet : Governing → Principal → Bool
unmet (governed rule) approver = not (rule_satisfied rule approver)
unmet _ approver = false

-- The checks on the amount and the matrix, in which the gates of both channels end.
unfoldable pub check_authority :
    Option Decimal → Principal → Governing → Result SodViolation (Unit {0})
check_authority amount approver rule = do
  _ ←
      raise_if (exceeds amount approver.authority_limit)
        (over_limit amount approver.authority_limit)
  _ ← raise_if (is_no_band rule) (no_band_for amount)
  raise_if (unmet rule approver) (needs_rule amount rule)

-- The columns of a claim that its gate reads, with the categories of its lines.
pub record Claim : Type 0 where
  pub client_id : Uuid
  pub created_by_user_id : Option Uuid
  pub total_claimed : Option Decimal
  pub total_amount : Option Decimal
  pub department : Option Text
  pub category_ids : List Uuid

unfoldable pub amount_of : Claim → Option Decimal
amount_of claim = elim claim.total_claimed [ none ↦ claim.total_amount | some total ↦ some total ]

abbrev pub or_zero : Option Decimal → Decimal
or_zero none = of_ℕ 0
or_zero (some amount) = amount

-- `matrix_rule_for(repos, claim)`, with the rules of the claim's client
unfoldable pub matrix_rule_for : List ApprovalMatrixRule → Claim → Governing
matrix_rule_for rules claim =
    governing rules (or_zero (amount_of claim)) claim.department claim.category_ids (codes "eclaim")

-- `check_can_approve(claim, approver, matrix_rule=...)`
unfoldable pub check_can_approve : Claim → Principal → Governing → Result SodViolation (Unit {0})
check_can_approve claim approver rule = do
  _ ← raise_if (approver.base_role == codes "viewer") is_viewer
  _ ← raise_if (not (can_access_client approver claim.client_id)) no_grant
  _ ← raise_if (is_id claim.created_by_user_id approver.user_id) is_creator
  check_authority (amount_of claim) approver rule

-- `can_approve(claim, approver, matrix_rule=...)`
pub can_approve : Claim → Principal → Governing → Bool
can_approve claim approver rule = is_ok (check_can_approve claim approver rule)
