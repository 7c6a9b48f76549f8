-- ===== src/Tests/Rated.antt =====
-- A rate that is entered for August, over a table that has July's.
use one_capture.Prelude.{◌≡◌, refl, none, some, [], ◌∷◌, if◌then◌else◌, ◌==◌, list_eq, nat_eq}
use one_capture.Prelude.Text.{codes, is_space, strip, lstrip, upper}
use one_capture.Decimal.{of_ℕ}
use one_capture.EClaim.Rates.{
  Date, ExchangeRate, Session, Upsert, is_converted, rate_for, is_admitted, upsert_found,
  upsert_stored, upsert_rate, delete_rate, delete_found, rate_row, upsert_key, key_of, rate_key,
  first_of_month,
}
use one_capture.EClaim.Rates.Table.{IsUnique, rate_for-delete_rate}
use one_capture.EClaim.Rates.Reached.{Reach, begin, upserts, deletes, Reach-IsUnique}
use one_capture.EClaim.Rates.Lookup.{Upserted, rate_for-upsert_rate}

abbrev july : Date
july = record { year = 2025; month = 7; day = 1 }

abbrev mid_august : Date
mid_august = record { year = 2025; month = 8; day = 14 }

abbrev of_july : ExchangeRate
of_july = record {
  id = codes "r1";
  firm_id = codes "f";
  client_id = codes "c";
  currency = codes "USD";
  period = july;
  rate_to_myr = of_ℕ 4;
  source = codes "erp";
  created_by = [];
}

abbrev table : Session
table = record { rates = of_july ∷ []; events = [] }

abbrev entered : Upsert
entered = record {
  new_id = codes "r2";
  firm_id = codes "f";
  client_id = codes "c";
  currency = codes "usd ";
  period = mid_august;
  rate_to_myr = of_ℕ 5;
  source = codes "manual";
  actor = codes "amy";
}

abbrev after : Session
after = upsert_found entered (of_ℕ 5) (rate_row (upsert_key entered) table.rates) table

upserted : upsert_rate some entered table ≡ some after
unfolding upsert_rate upsert_stored is_admitted
upserted = refl

rate_for-upsert_rate_example : Upserted entered (some (of_ℕ 5)) table after
rate_for-upsert_rate_example = rate_for-upsert_rate some entered table upserted

found_in_august : rate_for after (codes "c") (some (codes "Usd")) (some mid_august) ≡ some (of_ℕ 5)
unfolding rate_for is_converted upsert_found upper strip lstrip is_space
found_in_august = refl

deleted : (delete_rate after (codes "r2") (codes "amy")).rates ≡ of_july ∷ []
unfolding delete_rate delete_found upsert_found upper strip lstrip is_space
deleted = refl

of_july-IsUnique : IsUnique table.rates
of_july-IsUnique = ((refl, tt), (refl, tt))

entered_then_deleted : Reach some table (delete_rate after (codes "r1") (codes "amy"))
entered_then_deleted = deletes (codes "r1") (codes "amy") (upserts entered begin refl upserted)

Reach-IsUnique_example : IsUnique (delete_rate after (codes "r1") (codes "amy")).rates
Reach-IsUnique_example = Reach-IsUnique some entered_then_deleted of_july-IsUnique

rate_for-delete_rate_example :
    rate_for (delete_rate table (codes "r1") []) (codes "c") (some (codes "usd")) (some july) ≡ (
      if key_of of_july == rate_key (codes "c") (upper (codes "usd")) (first_of_month july)
      then none
      else rate_for table (codes "c") (some (codes "usd")) (some july))
rate_for-delete_rate_example =
    rate_for-delete_rate table (codes "r1") [] of_july-IsUnique refl (codes "c") (codes "usd") july
