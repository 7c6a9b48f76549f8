-- ===== src/EClaim/Rates/Lookup.antt =====
-- What `rate_for` of src/eclaim/services/fx.py finds after `upsert_rate`.
use mathlib.Core.Path.{subst}
use one_capture.Prelude.{
  eq_of_some, ◌≡◌, refl, ◌∙◌, sym, ap, Bool, true, ◌&&◌, inl, inr, Option, none, some, List, [],
  ◌∷◌, ◌++◌, if◌then◌else◌, Bool-cases, beq_sound, beq_sym, ◌==◌, list_eq, nat_eq,
}
use one_capture.Prelude.Text.{Text, upper}
use one_capture.Decimal.{Decimal}
use one_capture.EClaim.Sod.{Uuid}
use one_capture.EClaim.Rates.{
  Date, first_of_month, ExchangeRate, Session, RateKey, rate_key, key_of, rate_row, is_converted,
  rate_of_row, rate_for, set_rate, is_admitted, Upsert, upsert_key, new_row, upsert_found,
  upsert_stored, upsert_rate,
}

-- The rate that the table has under a key.
abbrev table_rate : RateKey → List ExchangeRate → Option Decimal
table_rate key rows = rate_of_row (rate_row key rows)

same_key : (a b : RateKey) → (a == b) ≡ true → a ≡ b
same_key = beq_sound

table_rate-append :
    (key : RateKey) (rows : List ExchangeRate) (new : ExchangeRate)
    → rate_row (key_of new) rows ≡ none
    → table_rate key (rows ++ new ∷ [])
      ≡ (if key_of new == key then some new.rate_to_myr else table_rate key rows)
table_rate-append key [] new h = elim (Bool-cases (key_of new == key)) [
  | inl same ↦ rw same refl
  | inr other ↦ rw other refl
]
table_rate-append key (r ∷ rs) new h = elim (Bool-cases (key_of r == key_of new)) [
  | inl bad ↦ (let found = rw bad at h in cc)
  | inr fresh ↦ elim (Bool-cases (key_of r == key)) [
    | inl same ↦
        (let apart =
            ap (λ (k : RateKey). k == key_of new) (sym (same_key (key_of r) key same)) ∙ fresh in
          rw (same, beq_sym (key_of new) key, apart) refl)
    | inr other ↦ rw other (table_rate-append key rs new (rw fresh at h))
  ]
]

table_rate-set_rate :
    (key at : RateKey) (rate : Decimal) (source : Text) (rows : List ExchangeRate)
    {r : ExchangeRate}
    → rate_row at rows ≡ some r
    → table_rate key (set_rate at rate source rows)
      ≡ (if at == key then some rate else table_rate key rows)
unfolding set_rate
table_rate-set_rate key at rate source [] h = cc
table_rate-set_rate key at rate source (q ∷ qs) h = elim (Bool-cases (key_of q == at)) [
  | inl hit ↦
      (let here = ap (λ (k : RateKey). k == key) (same_key (key_of q) at hit) in
        elim (Bool-cases (at == key)) [
          | inl same ↦ rw (hit, here, same) refl
          | inr other ↦ rw (hit, here, other) refl
        ])
  | inr miss ↦ elim (Bool-cases (key_of q == key)) [
    | inl same ↦
        (let apart = ap (λ (k : RateKey). k == at) (sym (same_key (key_of q) key same)) ∙ miss in
          rw (miss, same, beq_sym at key, apart) refl)
    | inr other ↦ rw (miss, other) (table_rate-set_rate key at rate source qs (rw miss at h))
  ]
]

-- The rates of the two tables differ under the key of the upsert alone.
table_rate-upsert_found :
    (key : RateKey) (u : Upsert) (stored : Decimal) (s : Session) (row : Option ExchangeRate)
    → rate_row (upsert_key u) s.rates ≡ row
    → table_rate key (upsert_found u stored row s).rates
      ≡ (if upsert_key u == key then some stored else table_rate key s.rates)
unfolding upsert_found
table_rate-upsert_found key u stored s none fresh =
    table_rate-append key s.rates (new_row u stored) fresh
table_rate-upsert_found key u stored s (some r) found =
    table_rate-set_rate key (upsert_key u) stored u.source s.rates found

-- Whether a request for the rate of a currency on a date is one for the row of this upsert.
unfoldable pub asks_for : Upsert → Uuid → Text → Date → Bool
asks_for u client_id currency date =
    is_converted currency
    && upsert_key u == rate_key client_id (upper currency) (first_of_month date)

-- The rate of the upsert answers the requests for its row, and nothing else has changed.
pub record Upserted (u : Upsert) (value : Option Decimal) (s t : Session) : Type 0 where
  pub stored : Decimal
  pub has_value : value ≡ some stored
  pub admitted : is_admitted stored u.source ≡ true
  pub found :
      (client_id : Uuid) (currency : Text) (date : Date)
      → rate_for t client_id (some currency) (some date) ≡ (
          if asks_for u client_id currency date
          then some stored
          else rate_for s client_id (some currency) (some date))

rate_for-upsert_found :
    (u : Upsert) (stored : Decimal) (s : Session) (client_id : Uuid) (currency : Text) (date : Date)
    → rate_for
        (upsert_found u stored (rate_row (upsert_key u) s.rates) s)
        client_id
        (some currency)
        (some date)
      ≡ (if asks_for u client_id currency date
          then some stored
          else rate_for s client_id (some currency) (some date))
unfolding rate_for asks_for
rate_for-upsert_found u stored s client_id currency date =
    elim (Bool-cases (is_converted currency)) [
      | inl foreign ↦ rw foreign (
          table_rate-upsert_found (rate_key client_id (upper currency) (first_of_month date)) u
            stored s (rate_row (upsert_key u) s.rates) refl)
      | inr home ↦ rw home refl
    ]

upsert_stored-Upserted :
    (u : Upsert) (value : Option Decimal) (s : Session) {t : Session}
    → upsert_stored u value s ≡ some t
    → Upserted u value s t
unfolding upsert_stored
upsert_stored-Upserted u none s h = cc
upsert_stored-Upserted u (some rate) s {t} h = elim (Bool-cases (is_admitted rate u.source)) [
  | inr refused ↦ (let bad = rw refused at h in cc)
  | inl passes ↦ record {
    stored = rate;
    has_value = refl;
    admitted = passes;
    found = λ client_id currency date.
        subst
          (λ (x : Session). rate_for x client_id (some currency) (some date) ≡ (
            if asks_for u client_id currency date
            then some rate
            else rate_for s client_id (some currency) (some date)))
          (eq_of_some (rw passes at h)) (rate_for-upsert_found u rate s client_id currency date);
  }
]

-- When `upsert_rate` goes through, the column had a value for the rate, the CHECKs admit it, and
-- `rate_for` gives it to every request for a date of the month and a spelling of the currency with
-- the same upper case, if `rate_for` converts that currency (not MYR, RM or empty); every other
-- request for a currency and a date gets what it got before.
pub rate_for-upsert_rate :
    (numeric : Decimal → Option Decimal) (u : Upsert) (s : Session) {t : Session}
    → upsert_rate numeric u s ≡ some t
    → Upserted u (numeric u.rate_to_myr) s t
unfolding upsert_rate
rate_for-upsert_rate numeric u s h = upsert_stored-Upserted u (numeric u.rate_to_myr) s h
