-- ===== src/EClaim/Claims/Money.antt =====
-- The money of a claim: `_recompute_line_money`, `_recompute_totals` and `_require_fx_resolved` of
-- src/eclaim/services/claims.py.
use one_capture.Prelude.{
  ℕ, Bool, true, false, not, ◌&&◌, Option, none, some, List, [], ◌∷◌, if◌then◌else◌, keep, any,
  contains, is_some, ◌==◌, list_eq, nat_eq, nat_beq, ltb, suc, ◌*◌, ◌^◌,
}
use one_capture.Prelude.Text.{Text, codes, truthy, upper}
use one_capture.Prelude.Result.{Result, raise_if}
use one_capture.Prelude.Int.{ℤ, pos, negsuc, ◌+ℤ◌}
use one_capture.Decimal.{Decimal, of_ℕ, add, mul, half_even, limit}
use one_capture.EClaim.Claims.{
  line_approved, line_status_beq, Claim, ClaimLine, ClaimError, fx_missing,
}

-- `sum(vals, Decimal("0"))`
unfoldable pub sum_from : Decimal → List Decimal → Decimal
sum_from total [] = total
sum_from total (v ∷ vs) = sum_from (add total v) vs

-- `[x.base_amount for x in ls if x.base_amount is not None]`
unfoldable pub base_amounts : List ClaimLine → List Decimal
base_amounts [] = []
base_amounts (l ∷ ls) = elim l.base_amount [ none ↦ base_amounts ls | some v ↦ v ∷ base_amounts ls ]

-- `_sum(ls)`
unfoldable pub sum_base : List ClaimLine → Option Decimal
sum_base ls = by_values (base_amounts ls)
  where
    by_values : List Decimal → Option Decimal
    by_values [] = none
    by_values (v ∷ vs) = some (sum_from (of_ℕ 0) (v ∷ vs))

unfoldable pub is_approved_line : ClaimLine → Bool
is_approved_line l = line_status_beq l.line_status line_approved

unfoldable pub is_out_of_pocket : ClaimLine → Bool
is_out_of_pocket l = l.payment_method == codes "out_of_pocket"

-- `_recompute_totals(claim, lines)`; a sum over no lines is None, so the tests on `approved` are
-- those of the sums.
unfoldable pub recompute_totals : List ClaimLine → Claim → Claim
recompute_totals lines claim =
    let approved = keep is_approved_line lines in
    record claim {
      total_claimed = sum_base lines;
      total_approved = sum_base approved;
      total_reimbursable = sum_base (keep is_out_of_pocket approved);
    }

-- `_require_fx_resolved(lines)`
unfoldable pub require_fx_resolved : List ClaimLine → Result ClaimError (Unit {0})
require_fx_resolved lines =
    raise_if (any (λ l. is_some l.total_amount && not (is_some l.base_amount)) lines) fx_missing

-- `a - b`
unfoldable pub minus : Decimal → Decimal → Decimal
minus a b = add a (record b { negative = not b.negative })

-- `d.quantize(Decimal("0.01"))`; `none` is InvalidOperation
unfoldable pub quantize_cents : Decimal → Option Decimal
quantize_cents d = within (at_cents (d.exponent +ℤ pos 2))
  where
    at_cents : ℤ → ℕ
    at_cents (pos n) = d.coefficient * 10 ^ n
    at_cents (negsuc n) = half_even d.coefficient (suc n)

    within : ℕ → Option Decimal
    within c =
        if ltb c limit then some (record d { coefficient = c; exponent = negsuc 1 }) else none

abbrev or_zero_tax : Option Decimal → Decimal
or_zero_tax none = of_ℕ 0
or_zero_tax (some tax) = if nat_beq tax.coefficient 0 then of_ℕ 0 else tax

-- `currency and currency.upper() not in ("MYR", "RM")`
unfoldable pub is_foreign : Option Text → Bool
is_foreign none = false
is_foreign (some currency) =
    truthy currency && not (contains (codes "MYR" ∷ codes "RM" ∷ []) (upper currency))

abbrev is_explicitly_net : Option Bool → Bool
is_explicitly_net (some false) = true
is_explicitly_net _ = false

unfoldable pub net_of : ClaimLine → Option Decimal
net_of l = elim l.total_amount [
  | none ↦ none
  | some gross ↦
      if is_explicitly_net l.tax_inclusive
      then some gross
      else some (minus gross (or_zero_tax l.tax_amount))
]

-- The rate of a line, if it is a true value.
abbrev pub rate_of : Option Decimal → Option Decimal
rate_of none = none
rate_of (some rate) = if nat_beq rate.coefficient 0 then none else some rate

-- The base amount of a line with this gross; `none` is InvalidOperation.
unfoldable pub base_of : Decimal → Option Decimal → Option Text → Option (Option Decimal)
base_of gross (some rate) currency = elim (quantize_cents (mul gross rate)) [
  | none ↦ none
  | some base ↦ some (some base)
]
base_of gross none currency = if is_foreign currency then some none else some (some gross)

unfoldable pub with_base : ClaimLine → Option (Option Decimal) → Option ClaimLine
with_base l none = none
with_base l (some base) = some (record l { net_amount = net_of l; base_amount = base })

unfoldable pub with_gross : ClaimLine → Option Decimal → Option ClaimLine
with_gross l none = some (record l { net_amount = none; base_amount = none })
with_gross l (some gross) = with_base l (base_of gross (rate_of l.fx_rate) l.currency)

-- `_recompute_line_money(line)`; `none` is InvalidOperation.
unfoldable pub recompute_line_money : ClaimLine → Option ClaimLine
recompute_line_money l = with_gross l l.total_amount
