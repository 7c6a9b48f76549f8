-- ===== src/EClaim/Rates/Table.antt =====
-- The constraints of the table `exchange_rate`, and what `delete_rate` of
-- src/eclaim/services/fx.py does to a lookup.
use mathlib.Core.Path.{subst}
use one_capture.Prelude.{
  find_first-Among, eq_of_some, ◌≡◌, refl, sym, ap, ◌∙◌, Bool, true, false, not, inl, inr, Option,
  none, some, List, [], ◌∷◌, if◌then◌else◌, map, keep, contains, find_first, IsDistinct, arith,
  Bool-cases, ◌==◌, list_eq, nat_eq, beq_sound, beq_self, beq_sym,
}
use one_capture.Prelude.Text.{Text, upper}
use one_capture.EClaim.Sod.{Uuid}
use one_capture.EClaim.Rates.{
  ExchangeRate, Session, RateKey, key_of, rate_row, delete_found, delete_rate, rate_for,
  is_converted, rate_of_row, rate_key, first_of_month, Date,
}

abbrev pub id_of : ExchangeRate → Uuid
id_of r = r.id

-- `uq_fx_client_ccy_period` and the primary key
abbrev pub IsUnique : List ExchangeRate → Type 0
IsUnique rows = IsDistinct (map key_of rows) × IsDistinct (map id_of rows)

rate_row-missing :
    (key : RateKey) (rows : List ExchangeRate)
    → contains (map key_of rows) key ≡ false
    → rate_row key rows ≡ none
rate_row-missing key [] h = refl
rate_row-missing key (r ∷ rs) h = elim (Bool-cases (key_of r == key)) [
  | inl same ↦ (let bad = rw (beq_sym key (key_of r), same) at h in cc)
  | inr other ↦ rw other (rate_row-missing key rs (rw (beq_sym key (key_of r), other) at h))
]

keep-absent :
    (id : Uuid) (rows : List ExchangeRate)
    → contains (map id_of rows) id ≡ false
    → keep (λ r. not (r.id == id)) rows ≡ rows
keep-absent id [] h = refl
keep-absent id (r ∷ rs) h = elim (Bool-cases (r.id == id)) [
  | inl same ↦ (let bad = rw (beq_sym id r.id, same) at h in cc)
  | inr other ↦ rw other (ap (λ x. r ∷ x) (keep-absent id rs (rw (beq_sym id r.id, other) at h)))
]

found-contains :
    (p : ExchangeRate → Bool) (rows : List ExchangeRate) {row : ExchangeRate}
    → find_first p rows ≡ some row
    → contains (map key_of rows) (key_of row) ≡ true
found-contains p [] h = cc
found-contains p (q ∷ qs) {row} h = elim (Bool-cases (p q)) [
  | inl hit ↦
      (let same = eq_of_some (rw hit at h) in
        subst (λ (r : ExchangeRate). contains (map key_of (q ∷ qs)) (key_of r) ≡ true) same
          (rw (beq_self (key_of q)) refl))
  | inr miss ↦ (let rest = found-contains p qs (rw miss at h) in ground (arith, rest))
]

-- Two keys are apart when a column has one of them and not the other.
apart_of :
    (keys : List RateKey) (a b : RateKey)
    → contains keys a ≡ false
    → contains keys b ≡ true
    → (b == a) ≡ false
apart_of keys a b absent present = elim (Bool-cases (b == a)) [
  | inl same ↦
      (let bad = subst (λ (k : RateKey). contains keys k ≡ true) (beq_sound b a same) present in
        absurd (clash (sym bad ∙ absent)))
  | inr other ↦ other
]
  where
    clash : true ≡ false → ⊥
    clash e = cc

rate_row-keep_hit :
    (key : RateKey) (q : ExchangeRate) (qs : List ExchangeRate)
    → IsUnique (q ∷ qs)
    → rate_row key (keep (λ r. not (r.id == q.id)) (q ∷ qs))
      ≡ (if key_of q == key then none else rate_row key (q ∷ qs))
rate_row-keep_hit key q qs unique = elim (Bool-cases (key_of q == key)) [
  | inl same ↦
      (let absent = rate_row-missing (key_of q) qs unique.0.0 in
        let moved =
          subst (λ (k : RateKey). rate_row k qs ≡ none) (beq_sound (key_of q) key same) absent in
        rw (beq_self q.id, keep-absent q.id qs unique.1.0, same) moved)
  | inr other ↦ rw (beq_self q.id, keep-absent q.id qs unique.1.0, other) refl
]

-- The row of an id is taken out, and no other.
rate_row-keep :
    (key : RateKey) (id : Uuid) (rows : List ExchangeRate) {row : ExchangeRate}
    → IsUnique rows
    → find_first (λ r. r.id == id) rows ≡ some row
    → rate_row key (keep (λ r. not (r.id == row.id)) rows)
      ≡ (if key_of row == key then none else rate_row key rows)
rate_row-keep key id [] unique h = cc
rate_row-keep key id (q ∷ qs) {row} unique h = elim (Bool-cases (q.id == id)) [
  | inl hit ↦
      subst
        (λ (r : ExchangeRate).
          rate_row key (keep (λ x. not (x.id == r.id)) (q ∷ qs))
          ≡ (if key_of r == key then none else rate_row key (q ∷ qs)))
        (eq_of_some (rw hit at h)) (rate_row-keep_hit key q qs unique)
  | inr miss ↦
      (let found = rw miss at h in
        let own = beq_sound row.id id (find_first-Among (λ r. r.id == id) qs found).1 in
        let apart = ap (λ (x : Uuid). q.id == x) own ∙ miss in
        let rest = rate_row-keep key id qs (unique.0.1, unique.1.1) found in
        elim (Bool-cases (key_of q == key)) [
          | inl same ↦
              (let other =
                  apart_of (map key_of qs) (key_of q) (key_of row) unique.0.0
                    (found-contains (λ r. r.id == id) qs found) in
                let far =
                  subst (λ (k : RateKey). (key_of row == k) ≡ false) (beq_sound (key_of q) key same)
                    other in
                rw (apart, same, far) refl)
          | inr other ↦ rw (apart, other) rest
        ])
]

-- In a table whose keys and ids are distinct, deleting a row takes its month's rate from `rate_for`
-- and leaves every other request for a currency and a date as it was.
pub rate_for-delete_rate :
    (s : Session) (rate_id : Uuid) (actor : Text) {row : ExchangeRate}
    → IsUnique s.rates
    → find_first (λ r. r.id == rate_id) s.rates ≡ some row
    → (client_id : Uuid) (currency : Text) (date : Date)
    → rate_for (delete_rate s rate_id actor) client_id (some currency) (some date) ≡ (
        if key_of row == rate_key client_id (upper currency) (first_of_month date)
        then none
        else rate_for s client_id (some currency) (some date))
unfolding delete_rate delete_found rate_for
rate_for-delete_rate s rate_id actor {row} unique found client_id currency date =
    let key = rate_key client_id (upper currency) (first_of_month date) in
    let taken = rate_row-keep key rate_id s.rates unique found in
    rw found (by_tests (rate_row key s.rates) (is_converted currency) (key_of row == key) taken)
  where
    by_tests :
        {a : Option ExchangeRate} (b : Option ExchangeRate) (foreign own : Bool)
        → a ≡ (if own then none else b)
        → (if foreign then rate_of_row a else none)
          ≡ (if own then none else if foreign then rate_of_row b else none)
    by_tests b false false h = refl
    by_tests b false true h = refl
    by_tests b true false h = ap rate_of_row h
    by_tests b true true h = ap rate_of_row h
