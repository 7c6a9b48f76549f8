-- ===== src/EClaim/Rates.antt =====
-- Rates: the monthly exchange rates of src/eclaim/services/fx.py. The value that the column
-- `Numeric(18, 6)` stores is the database's: a parameter, whose `none` is a value out of its range.
pub mod Lookup
pub mod Table
pub mod Reached
use one_capture.Prelude.{
  ℕ, Bool, true, false, not, ◌&&◌, Option, none, some, List, [], ◌∷◌, ◌++◌, if◌then◌else◌, keep,
  find_first, contains, ◌==◌, list_eq, nat_eq, nat_beq,
}
use one_capture.Prelude.Text.{Text, codes, truthy, strip, upper, or_default}
use one_capture.Decimal.{Decimal}
use one_capture.EClaim.Sod.{Uuid}

pub record Date : Type 0 where
  pub year : ℕ
  pub month : ℕ
  pub day : ℕ

-- `value.replace(day=1)`
abbrev pub first_of_month : Date → Date
first_of_month value = record value { day = 1 }

abbrev pub month_of : Option Date → Option Date
month_of none = none
month_of (some value) = some (first_of_month value)

pub record ExchangeRate : Type 0 where
  pub id : Uuid
  pub firm_id : Uuid
  pub client_id : Uuid
  pub currency : Text
  pub period : Date
  pub rate_to_myr : Decimal
  pub source : Text
  pub created_by : Text

pub data EventType : Type 0 where
  fx_rate_added fx_rate_deleted : Decimal → EventType
  fx_rate_changed : Decimal → Decimal → EventType

pub record AuditEvent : Type 0 where
  pub entity_id : Uuid
  pub event : EventType
  pub actor : Text

pub record Session : Type 0 where
  pub rates : List ExchangeRate
  pub events : List AuditEvent

-- The columns that a query compares, as a list: client, currency and period.
abbrev pub RateKey : Type 0
RateKey = List Text

abbrev pub rate_key : Uuid → Text → Date → RateKey
rate_key client currency period =
    client ∷ currency ∷ (period.year ∷ period.month ∷ period.day ∷ []) ∷ []

abbrev pub key_of : ExchangeRate → RateKey
key_of r = rate_key r.client_id r.currency r.period

abbrev pub rate_row : RateKey → List ExchangeRate → Option ExchangeRate
rate_row key = find_first (λ r. key_of r == key)

-- `MYR`
abbrev pub myr : List Text
myr = codes "MYR" ∷ codes "RM" ∷ [] ∷ []

-- Whether `rate_for` asks the table for this currency.
unfoldable pub is_converted : Text → Bool
is_converted currency = truthy currency && not (contains myr (upper currency))

abbrev pub rate_of_row : Option ExchangeRate → Option Decimal
rate_of_row none = none
rate_of_row (some row) = some row.rate_to_myr

unfoldable pub rate_for : Session → Uuid → Option Text → Option Date → Option Decimal
rate_for s client_id none on_date = none
rate_for s client_id (some currency) none = none
rate_for s client_id (some currency) (some date) =
    if is_converted currency
    then rate_of_row (rate_row (rate_key client_id (upper currency) (first_of_month date)) s.rates)
    else none

-- The row that the query returned takes the new rate and its source.
unfoldable pub set_rate : RateKey → Decimal → Text → List ExchangeRate → List ExchangeRate
set_rate key rate source [] = []
set_rate key rate source (r ∷ rs) =
    let rest = set_rate key rate source rs in
    if key_of r == key then record r { rate_to_myr = rate; source = source } ∷ rs else r ∷ rest

-- `record_event(...)` on a rate
unfoldable pub audit : Uuid → EventType → Text → List AuditEvent → List AuditEvent
audit entity event actor events =
    events
    ++ record { entity_id = entity; event = event; actor = or_default actor (codes "system") } ∷ []

-- The CHECKs of the table: `ck_fx_rate_positive` and `ck_fx_source`.
unfoldable pub is_admitted : Decimal → Text → Bool
is_admitted rate source =
    not rate.negative
    && not (nat_beq rate.coefficient 0)
    && contains (codes "manual" ∷ codes "erp" ∷ codes "carbonnext" ∷ []) source

-- The arguments of `upsert_rate`, with the id that the database gives to a new row.
pub record Upsert : Type 0 where
  pub new_id : Uuid
  pub firm_id : Uuid
  pub client_id : Uuid
  pub currency : Text
  pub period : Date
  pub rate_to_myr : Decimal
  pub source : Text
  pub actor : Text

abbrev pub upsert_key : Upsert → RateKey
upsert_key u = rate_key u.client_id (upper (strip u.currency)) (first_of_month u.period)

abbrev pub new_row : Upsert → Decimal → ExchangeRate
new_row u stored = record {
  id = u.new_id;
  firm_id = u.firm_id;
  client_id = u.client_id;
  currency = upper (strip u.currency);
  period = first_of_month u.period;
  rate_to_myr = stored;
  source = u.source;
  created_by = u.actor;
}

-- The row that the query returned is added or changed; the details name the values as given.
unfoldable pub upsert_found : Upsert → Decimal → Option ExchangeRate → Session → Session
upsert_found u stored none s = record {
  rates = s.rates ++ new_row u stored ∷ [];
  events = audit u.new_id (fx_rate_added u.rate_to_myr) u.actor s.events;
}
upsert_found u stored (some row) s = record {
  rates = set_rate (upsert_key u) stored u.source s.rates;
  events = audit row.id (fx_rate_changed row.rate_to_myr u.rate_to_myr) u.actor s.events;
}

-- What is flushed once the column has a value; `none` is IntegrityError.
unfoldable pub upsert_stored : Upsert → Option Decimal → Session → Option Session
upsert_stored u none s = none
upsert_stored u (some stored) s =
    if is_admitted stored u.source
    then some (upsert_found u stored (rate_row (upsert_key u) s.rates) s)
    else none

-- `none` is the database's error, which rolls the request back.
unfoldable pub upsert_rate : (Decimal → Option Decimal) → Upsert → Session → Option Session
upsert_rate numeric u s = upsert_stored u (numeric u.rate_to_myr) s

unfoldable pub delete_found : Option ExchangeRate → Text → Session → Session
delete_found none actor s = s
delete_found (some row) actor s = record {
  rates = keep (λ r. not (r.id == row.id)) s.rates;
  events = audit row.id (fx_rate_deleted row.rate_to_myr) actor s.events;
}

unfoldable pub delete_rate : Session → Uuid → Text → Session
delete_rate s rate_id actor = delete_found (find_first (λ r. r.id == rate_id) s.rates) actor s
