-- ===== src/EClaim/Claims/Fx.antt =====
-- The lines that wait for an exchange rate: `_recompute_line_money` with `_require_fx_resolved` of
-- src/eclaim/services/claims.py.
use one_capture.Prelude.{
  ◌≡◌, refl, sym, ap, ◌∙◌, Bool, true, false, not, ◌&&◌, Option, none, some, if◌then◌else◌, is_some,
  eq_of_some,
}
use one_capture.Prelude.Text.{Text}
use one_capture.Decimal.{Decimal, mul}
use one_capture.EClaim.Claims.{ClaimLine}
use one_capture.EClaim.Claims.Money.{
  is_foreign, quantize_cents, rate_of, base_of, with_base, with_gross, recompute_line_money,
}

-- The test of `_require_fx_resolved` on a line.
abbrev pub is_unresolved : ClaimLine → Bool
is_unresolved l = is_some l.total_amount && not (is_some l.base_amount)

base_of-missing :
    (gross : Decimal) (rate : Option Decimal) (currency : Option Text) {b : Option Decimal}
    → base_of gross rate currency ≡ some b
    → not (is_some b) ≡ (not (is_some rate) && is_foreign currency)
unfolding base_of
base_of-missing gross (some rate) currency h = by_quantum (quantize_cents (mul gross rate)) h
  where
    by_quantum :
        (q : Option Decimal) {b : Option Decimal}
        → (elim q [ none ↦ none | some base ↦ some (some base) ]) ≡ some b
        → not (is_some b) ≡ false
    by_quantum none g = cc
    by_quantum (some base) g = ap (λ o. not (is_some o)) (sym (eq_of_some g))
base_of-missing gross none currency h = by_currency (is_foreign currency) h
  where
    by_currency :
        (c : Bool) {b : Option Decimal}
        → (if c then some none else some (some gross)) ≡ some b
        → not (is_some b) ≡ c
    by_currency true g = ap (λ o. not (is_some o)) (sym (eq_of_some g))
    by_currency false g = ap (λ o. not (is_some o)) (sym (eq_of_some g))

-- The amount, the rate and the currency of a line stay.
record SameKeys (l new : ClaimLine) : Type 0 where
  amount : new.total_amount ≡ l.total_amount
  rate : new.fx_rate ≡ l.fx_rate
  currency : new.currency ≡ l.currency

with_base-base :
    (l : ClaimLine) (o : Option (Option Decimal)) {new : ClaimLine}
    → with_base l o ≡ some new
    → (o ≡ some new.base_amount) × SameKeys l new
unfolding with_base
with_base-base l none h = cc
with_base-base l (some base) {new} h =
    let same = sym (eq_of_some h) in
    (
      ap (λ (x : ClaimLine). some x.base_amount) (sym same),
      record {
        amount = ap (λ (x : ClaimLine). x.total_amount) same;
        rate = ap (λ (x : ClaimLine). x.fx_rate) same;
        currency = ap (λ (x : ClaimLine). x.currency) same;
      },
    )

with_gross-unresolved :
    (l : ClaimLine) (gross : Option Decimal) {new : ClaimLine}
    → l.total_amount ≡ gross
    → with_gross l gross ≡ some new
    → (is_unresolved new
        ≡ (is_some l.total_amount && not (is_some (rate_of l.fx_rate)) && is_foreign l.currency))
      × SameKeys l new
unfolding with_gross
with_gross-unresolved l none {new} has h =
    let same = sym (eq_of_some h) in
    let stays = ap (λ (x : ClaimLine). x.total_amount) same in
    (
      ap (λ o. is_some o && not (is_some new.base_amount)) (stays ∙ has)
          ∙ sym (
              ap (λ o. is_some o && not (is_some (rate_of l.fx_rate)) && is_foreign l.currency)
                has),
      record {
        amount = stays;
        rate = ap (λ (x : ClaimLine). x.fx_rate) same;
        currency = ap (λ (x : ClaimLine). x.currency) same;
      },
    )
with_gross-unresolved l (some gross) {new} has h =
    let (based, keys) = with_base-base l (base_of gross (rate_of l.fx_rate) l.currency) h in
    (
      ap (λ o. is_some o && not (is_some new.base_amount)) (keys.amount ∙ has)
          ∙ base_of-missing gross (rate_of l.fx_rate) l.currency based
          ∙ sym (
              ap (λ o. is_some o && not (is_some (rate_of l.fx_rate)) && is_foreign l.currency)
                has),
      keys,
    )

-- After its money is recomputed, a line stops an approval exactly when it has an amount in a
-- foreign currency and no exchange rate; its amount, rate and currency are as before.
pub recompute_line_money-unresolved :
    (l : ClaimLine) {new : ClaimLine}
    → recompute_line_money l ≡ some new
    → (is_unresolved new
        ≡ (is_some l.total_amount && not (is_some (rate_of l.fx_rate)) && is_foreign l.currency))
      × (new.total_amount ≡ l.total_amount)
      × (new.fx_rate ≡ l.fx_rate)
      × (new.currency ≡ l.currency)
unfolding recompute_line_money
recompute_line_money-unresolved l h =
    let (unresolved, keys) = with_gross-unresolved l l.total_amount refl h in
    (unresolved, keys.amount, keys.rate, keys.currency)
