-- ===== src/EClaim/Rates/Reached.antt =====
-- The constraints of the table `exchange_rate` over every sequence of changes by
-- src/eclaim/services/fx.py.
use mathlib.Core.Path.{subst}
use one_capture.Prelude.{
  ◌≡◌, refl, sym, ap, Bool, false, not, inl, inr, Option, none, some, List, [], ◌∷◌, ◌++◌, map,
  keep, contains, find_first, IsDistinct, IsDistinct-append_one, arith, Bool-cases, ◌==◌, list_eq,
  nat_eq, Eq, beq_sym, eq_of_some,
}
use one_capture.Prelude.Sweep.{map-append}
use one_capture.Prelude.Text.{Text}
use one_capture.Decimal.{Decimal}
use one_capture.EClaim.Sod.{Uuid}
use one_capture.EClaim.Rates.{
  ExchangeRate, Session, RateKey, key_of, rate_row, set_rate, Upsert, upsert_key, new_row,
  upsert_found, upsert_stored, upsert_rate, is_admitted, delete_found, delete_rate,
}
use one_capture.EClaim.Rates.Table.{id_of, IsUnique}

keys-set_rate :
    (key : RateKey) (rate : Decimal) (source : Text) (rows : List ExchangeRate)
    → map key_of (set_rate key rate source rows) ≡ map key_of rows
unfolding set_rate
keys-set_rate key rate source [] = refl
keys-set_rate key rate source (r ∷ rs) = elim (Bool-cases (key_of r == key)) [
  | inl hit ↦ rw hit refl
  | inr miss ↦ rw miss (ap (λ ks. key_of r ∷ ks) (keys-set_rate key rate source rs))
]

ids-set_rate :
    (key : RateKey) (rate : Decimal) (source : Text) (rows : List ExchangeRate)
    → map id_of (set_rate key rate source rows) ≡ map id_of rows
unfolding set_rate
ids-set_rate key rate source [] = refl
ids-set_rate key rate source (r ∷ rs) = elim (Bool-cases (key_of r == key)) [
  | inl hit ↦ rw hit refl
  | inr miss ↦ rw miss (ap (λ ks. id_of r ∷ ks) (ids-set_rate key rate source rs))
]

missing-contains :
    (key : RateKey) (rows : List ExchangeRate)
    → rate_row key rows ≡ none
    → contains (map key_of rows) key ≡ false
missing-contains key [] h = refl
missing-contains key (r ∷ rs) h = elim (Bool-cases (key_of r == key)) [
  | inl hit ↦ (let bad = rw hit at h in cc)
  | inr miss ↦ rw (beq_sym key (key_of r), miss) (missing-contains key rs (rw miss at h))
]

module _ {A K : Type 0} ⦃e : Eq K⦄ (column : A → K) where
  append_row :
      (rows : List A) (new : A)
      → IsDistinct (map column rows)
      → contains (map column rows) (column new) ≡ false
      → IsDistinct (map column (rows ++ new ∷ []))
  append_row rows new d h =
      subst (λ (l : List K). IsDistinct l) (sym (map-append column rows (new ∷ [])))
        (IsDistinct-append_one (map column rows) (column new) d h)

  contains-keep :
      (p : A → Bool) (rows : List A) (k : K)
      → contains (map column rows) k ≡ false
      → contains (map column (keep p rows)) k ≡ false
  contains-keep p [] k h = refl
  contains-keep p (r ∷ rs) k h = elim (Bool-cases (p r)) [
    | inl kept ↦ (let rest = contains-keep p rs k in rw kept (ground (arith, rest)))
    | inr left ↦ (let rest = contains-keep p rs k in rw left (ground (arith, rest)))
  ]

  IsDistinct-keep :
      (p : A → Bool) (rows : List A)
      → IsDistinct (map column rows)
      → IsDistinct (map column (keep p rows))
  IsDistinct-keep p [] d = tt
  IsDistinct-keep p (r ∷ rs) d = elim (Bool-cases (p r)) [
    | inl kept ↦ rw kept (contains-keep p rs (column r) d.0, IsDistinct-keep p rs d.1)
    | inr left ↦ rw left (IsDistinct-keep p rs d.1)
  ]

upsert_found-IsUnique :
    (u : Upsert) (stored : Decimal) (s : Session) (row : Option ExchangeRate)
    → contains (map id_of s.rates) u.new_id ≡ false
    → rate_row (upsert_key u) s.rates ≡ row
    → IsUnique s.rates
    → IsUnique (upsert_found u stored row s).rates
unfolding upsert_found
upsert_found-IsUnique u stored s none fresh missing unique = (
  append_row key_of s.rates (new_row u stored) unique.0
      (missing-contains (upsert_key u) s.rates missing),
  append_row id_of s.rates (new_row u stored) unique.1 fresh,
)
upsert_found-IsUnique u stored s (some r) fresh found unique = (
  subst (λ (ks : List RateKey). IsDistinct ks)
      (sym (keys-set_rate (upsert_key u) stored u.source s.rates)) unique.0,
  subst (λ (ks : List Uuid). IsDistinct ks)
      (sym (ids-set_rate (upsert_key u) stored u.source s.rates)) unique.1,
)

upsert_stored-IsUnique :
    (u : Upsert) (value : Option Decimal) (s : Session) {t : Session}
    → contains (map id_of s.rates) u.new_id ≡ false
    → IsUnique s.rates
    → upsert_stored u value s ≡ some t
    → IsUnique t.rates
unfolding upsert_stored
upsert_stored-IsUnique u none s fresh unique h = cc
upsert_stored-IsUnique u (some v) s {t} fresh unique h =
    elim (Bool-cases (is_admitted v u.source)) [
      | inr refused ↦ (let bad = rw refused at h in cc)
      | inl passes ↦
          subst (λ (x : Session). IsUnique x.rates) (eq_of_some (rw passes at h))
            (upsert_found-IsUnique u v s (rate_row (upsert_key u) s.rates) fresh refl unique)
    ]

delete_found-IsUnique :
    (row : Option ExchangeRate) (actor : Text) (s : Session)
    → IsUnique s.rates
    → IsUnique (delete_found row actor s).rates
unfolding delete_found
delete_found-IsUnique none actor s unique = unique
delete_found-IsUnique (some r) actor s unique = (
  IsDistinct-keep key_of (λ x. not (x.id == r.id)) s.rates unique.0,
  IsDistinct-keep id_of (λ x. not (x.id == r.id)) s.rates unique.1,
)

-- The changes of the table: the database gives an id that no row has.
pub data Reach (numeric : Decimal → Option Decimal) (s : Session) : Session → Type 0 where
  begin : Reach numeric s s
  upserts :
      {t t' : Session} (u : Upsert)
      → Reach numeric s t
      → contains (map id_of t.rates) u.new_id ≡ false
      → upsert_rate numeric u t ≡ some t'
      → Reach numeric s t'
  deletes :
      {t : Session} (rate_id : Uuid) (actor : Text)
      → Reach numeric s t
      → Reach numeric s (delete_rate t rate_id actor)

-- Every sequence of upserts and deletions keeps the rows' keys (client, currency and month)
-- distinct, and their ids, when a new row gets an id that no row has.
pub Reach-IsUnique :
    (numeric : Decimal → Option Decimal) {s t : Session}
    → Reach numeric s t
    → IsUnique s.rates
    → IsUnique t.rates
unfolding upsert_rate delete_rate
Reach-IsUnique numeric begin unique = unique
Reach-IsUnique numeric (upserts {t} u before fresh done) unique =
    upsert_stored-IsUnique u (numeric u.rate_to_myr) t fresh (Reach-IsUnique numeric before unique)
      done
Reach-IsUnique numeric (deletes {t} rate_id actor before) unique =
    delete_found-IsUnique (find_first (λ r. r.id == rate_id) t.rates) actor t
      (Reach-IsUnique numeric before unique)
