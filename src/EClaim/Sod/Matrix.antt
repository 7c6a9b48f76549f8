-- ===== src/EClaim/Sod/Matrix.antt =====
-- Which rule of the approval matrix governs an amount.
use mathlib.Core.Path.{subst}
use one_capture.Prelude.{
  ℕ, ◌≡◌, refl, sym, ◌↔◌, ◌≤◌, Bool, true, false, Option, none, some, List, [], ◌∷◌, arith, any,
  keep, All, Among, Among-keep, Bool-cases, inl, inr, leb, leb→le,
}
use one_capture.Prelude.Text.{Text}
use one_capture.Prelude.Sorting.{sorted, insert_sorted}
use one_capture.Decimal.{Decimal}
use one_capture.EClaim.Sod.{Uuid, ApprovalMatrixRule, fits, specificity, first, select_matrix_rule}

abbrev AtMost : ℕ → List ApprovalMatrixRule → Type 0
AtMost n rs = All (λ r. specificity r ≤ n) rs

-- The first of the list is its most specific.
abbrev IsLed : List ApprovalMatrixRule → Type 0
IsLed [] = Unit {0}
IsLed (r ∷ rs) = AtMost (specificity r) rs

abbrev descending : List ApprovalMatrixRule → List ApprovalMatrixRule
descending = sorted (λ a b. leb b a) specificity

abbrev insert_rule : ApprovalMatrixRule → List ApprovalMatrixRule → List ApprovalMatrixRule
insert_rule = insert_sorted (λ a b. leb b a) specificity

AtMost-weaken : (m n : ℕ) (rs : List ApprovalMatrixRule) → m ≤ n → AtMost m rs → AtMost n rs
AtMost-weaken m n [] le h = tt
AtMost-weaken m n (r ∷ rs) le h = (omega (arith, le, h.0), AtMost-weaken m n rs le h.1)

insert_rule-All :
    (P : ApprovalMatrixRule → Type 0) (x : ApprovalMatrixRule) (ys : List ApprovalMatrixRule)
    → (P x × All P ys) ↔ All P (insert_rule x ys)
unfolding insert_sorted
insert_rule-All P x [] = (λ h. h, λ h. h)
insert_rule-All P x (y ∷ ys) = elim (Bool-cases (leb (specificity y) (specificity x))) [
  | inl before ↦ rw before ((λ h. h), (λ h. h))
  | inr after ↦
      (let deeper = insert_rule-All P x ys in
        rw after (
          (λ h. (h.1.0, deeper.0 (h.0, h.1.1))),
          (λ h. (let both = deeper.1 h.1 in (both.0, (h.0, both.1)))),
        ))
]

descending-All :
    (P : ApprovalMatrixRule → Type 0) (rs : List ApprovalMatrixRule)
    → All P rs ↔ All P (descending rs)
unfolding sorted
descending-All P [] = (λ h. h, λ h. h)
descending-All P (r ∷ rs) =
    let tail = descending-All P rs in
    let put = insert_rule-All P r (descending rs) in
    ((λ h. put.0 (h.0, tail.0 h.1)), (λ h. (let both = put.1 h in (both.0, tail.1 both.1))))

insert_rule-IsLed :
    (x : ApprovalMatrixRule) (ys : List ApprovalMatrixRule) → IsLed ys → IsLed (insert_rule x ys)
unfolding insert_sorted
insert_rule-IsLed x [] h = tt
insert_rule-IsLed x (y ∷ ys) h = elim (Bool-cases (leb (specificity y) (specificity x))) [
  | inl before ↦
      (let le = leb→le (specificity y) (specificity x) before in
        rw before (le, AtMost-weaken (specificity y) (specificity x) ys le h))
  | inr after ↦
      (let le : specificity x ≤ specificity y = ground (arith, after) in
        rw after ((insert_rule-All (λ r. specificity r ≤ specificity y) x ys).0 (le, h)))
]

descending-IsLed : (rs : List ApprovalMatrixRule) → IsLed (descending rs)
unfolding sorted
descending-IsLed [] = tt
descending-IsLed (r ∷ rs) = insert_rule-IsLed r (descending rs) (descending-IsLed rs)

All-Among :
    (P : ApprovalMatrixRule → Type 0) (rs : List ApprovalMatrixRule)
    → ((r : ApprovalMatrixRule) → Among r rs → P r)
    → All P rs
All-Among P [] f = tt
All-Among P (r ∷ rs) f = (f r (inl refl), All-Among P rs (λ q m. f q (inr m)))

All-of_keep :
    (P : ApprovalMatrixRule → Type 0) (p : ApprovalMatrixRule → Bool) (rs : List ApprovalMatrixRule)
    → All P (keep p rs)
    → All (λ r. p r ≡ true → P r) rs
All-of_keep P p [] h = tt
All-of_keep P p (r ∷ rs) h = elim (Bool-cases (p r)) [
  | inl hit ↦
      (let both : P r × All P (keep p rs) = rw hit at h in
        ((λ e. both.0), All-of_keep P p rs both.1))
  | inr miss ↦ ((λ e. cc), All-of_keep P p rs (rw miss at h))
]

any_none :
    (p : ApprovalMatrixRule → Bool) (rs : List ApprovalMatrixRule)
    → All (λ r. p r ≡ true → ⊥) rs
    → any p rs ≡ false
any_none p [] h = refl
any_none p (r ∷ rs) h = elim (Bool-cases (p r)) [
  | inl hit ↦ elim (h.0 hit) [ ]
  | inr miss ↦ rw miss (any_none p rs h.1)
]

-- What a choice of a rule for this amount and scope is.
pub data Selection (rules : List ApprovalMatrixRule) (p : ApprovalMatrixRule → Bool)
    : Option ApprovalMatrixRule → Type 0 where
  unmatched : any p rules ≡ false → Selection rules p none
  best :
      (r : ApprovalMatrixRule)
      → Among r rules
      → p r ≡ true
      → All (λ q. p q ≡ true → specificity q ≤ specificity r) rules
      → Selection rules p (some r)

first-Selection :
    (rules : List ApprovalMatrixRule) (p : ApprovalMatrixRule → Bool) (rs : List ApprovalMatrixRule)
    → descending (keep p rules) ≡ rs
    → Selection rules p (first rs)
first-Selection rules p [] e = unmatched (
    any_none p rules
      (All-of_keep (λ r. ⊥) p rules ((descending-All (λ r. ⊥) (keep p rules)).1 (rw e tt))))
first-Selection rules p (r ∷ rs) e =
    let member = subst (All (λ q. Among q rules × (p q ≡ true))) e (
      (descending-All _ (keep p rules)).0
        (All-Among _ (keep p rules) (λ q m. Among-keep p rules m))) in
    let led = subst IsLed e (descending-IsLed (keep p rules)) in
    best r member.0.0 member.0.1 (
      All-of_keep (λ q. specificity q ≤ specificity r) p rules
        ((descending-All (λ q. specificity q ≤ specificity r) (keep p rules)).1
          (subst (AtMost (specificity r)) (sym e) (omega arith, led))))

-- The rule that `select_matrix_rule` picks is one of the rules, fits the amount, the department,
-- the categories and the module, and no fitting rule is more specific; where none is picked, none
-- fits.
pub select_matrix_rule-Selection :
    (rules : List ApprovalMatrixRule) (amount : Decimal) (department : Option Text)
    (categories : List Uuid) (scope : Text)
    → Selection rules
        (fits amount department categories scope)
        (select_matrix_rule rules amount department categories scope)
unfolding select_matrix_rule
select_matrix_rule-Selection rules amount department categories scope =
    first-Selection rules _ _ refl
