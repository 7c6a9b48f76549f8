-- ===== src/ErpSync/Lifecycle/Staging.antt =====
-- What `stage` of src/erpsync/persistence/pg_staging.py does to the staging table.
use mathlib.Core.Path.{subst}
use one_capture.Prelude.{
  suc, ℕ, ◌≡◌, refl, sym, ap, ◌∙◌, true, false, inl, inr, none, List, [], ◌∷◌, ◌++◌, map, arith,
  All, All-append, append_nil, append_assoc, Bool-cases, contains, list_eq, nat_eq,
}
use one_capture.Prelude.Result.{ok, >>=-eq-ok, ok-injective}
use one_capture.ErpSync.Domain.{key_eq}
use one_capture.ErpSync.Pipeline.{StageStatus, ready, needs_review}
use one_capture.EClaim.Sod.{Uuid}
use one_capture.ErpSync.Ledger.{
  Status, ErpsyncEntry, Session, passes_checks, id_of, grain, PgStagingStore, StagedRow,
  review_status, to_values, values_from, insert_entry, insert_all, stage,
}
use one_capture.ErpSync.Ledger.Evolution.{
  is_open, is_decided, IsOrderly, Evolves, rewrites, inserts, then_evolves, Follows-self,
}

-- A row that no reviewer has seen.
pub record IsNew (e : ErpsyncEntry) : Type 0 where
  pub undecided : is_open e.status ≡ true
  pub unreviewed : e.reviewed_by_user_id ≡ none

staged_open : (q : StageStatus) → is_open (review_status q) ≡ true
unfolding review_status
staged_open ready = refl
staged_open StageStatus.held = refl
staged_open needs_review = refl

to_values-IsNew :
    (store : PgStagingStore) (id : Uuid) (row : StagedRow) → IsNew (to_values store id row)
unfolding to_values
to_values-IsNew store id (entry, status) = record {
  undecided = staged_open status;
  unreviewed = refl;
}

-- Rows were added at the end, each of them new.
pub record Extended (before after : List ErpsyncEntry) : Type 0 where
  pub more : List ErpsyncEntry
  pub grows : after ≡ before ++ more
  pub all_new : All IsNew more
  pub evolves : Evolves before after

open_undecided : (q : Status) → is_open q ≡ true → is_decided q ≡ false
open_undecided q h = ground arith

IsNew-IsOrderly : (e : ErpsyncEntry) → IsNew e → passes_checks e ≡ true → IsOrderly e
IsNew-IsOrderly e fresh pass = record {
  unreviewed = λ h. fresh.unreviewed;
  reviewed = λ h. (let not_yet = open_undecided e.status fresh.undecided in cc);
  checked = pass;
}

map_self : {A : Type 0} (xs : List A) → map (λ x. x) xs ≡ xs
map_self [] = refl
map_self (x ∷ xs) = ap (λ t. x ∷ t) (map_self xs)

Extended-self : (table : List ErpsyncEntry) → Extended table table
Extended-self table = record {
  more = [];
  grows = append_nil table;
  all_new = tt;
  evolves = subst (Evolves table) (map_self table) (rewrites (λ r. r) (λ r h. Follows-self r));
}

-- The four ends of the insertion of a row.
insert_entry-Extended :
    (e : ErpsyncEntry) (table : List ErpsyncEntry) {after : List ErpsyncEntry} {n : ℕ}
    → IsNew e
    → insert_entry e table ≡ ok (after, n)
    → Extended table after
unfolding insert_entry
insert_entry-Extended e table {after} {n} fresh h =
    elim (Bool-cases (contains (map grain table) (grain e))) [
      | inl staged ↦
          subst (Extended table)
            (ap (λ (p : List ErpsyncEntry × ℕ). p.0) (ok-injective (rw staged at h)))
            (Extended-self table)
      | inr new_grain ↦ elim (Bool-cases (contains (map id_of table) e.id)) [
        | inl taken ↦ (let bad = rw (new_grain, taken) at h in cc)
        | inr new_id ↦ elim (Bool-cases (passes_checks e)) [
          | inl pass ↦
              subst (Extended table)
                (ap (λ (p : List ErpsyncEntry × ℕ). p.0)
                  (ok-injective (rw (new_grain, new_id, pass) at h)))
                (record {
                  more = e ∷ [];
                  grows = refl;
                  all_new = (fresh, tt);
                  evolves = inserts e new_id new_grain (IsNew-IsOrderly e fresh pass);
                })
          | inr refused ↦ (let bad = rw (new_grain, new_id, refused) at h in cc)
        ]
      ]
    ]

Extended-trans : {p q r : List ErpsyncEntry} → Extended p q → Extended q r → Extended p r
Extended-trans {p} first second = record {
  more = first.more ++ second.more;
  grows =
      second.grows ∙ ap (λ t. t ++ second.more) first.grows ∙ append_assoc p first.more second.more;
  all_new = All-append IsNew first.more second.more first.all_new second.all_new;
  evolves = then_evolves first.evolves second.evolves;
}

insert_all-Extended :
    (es table : List ErpsyncEntry) {after : List ErpsyncEntry} {n : ℕ}
    → All IsNew es
    → insert_all es table ≡ ok (after, n)
    → Extended table after
unfolding insert_all
insert_all-Extended [] table fresh h =
    subst (Extended table) (ap (λ (p : List ErpsyncEntry × ℕ). p.0) (ok-injective h))
      (Extended-self table)
insert_all-Extended (e ∷ es) table {after} fresh h =
    let ((with_one, one), first, h1) = >>=-eq-ok (insert_entry e table) _ h in
    let ((with_all, more), rest, h2) = >>=-eq-ok (insert_all es with_one) _ h1 in
    subst (Extended table) (ap (λ (p : List ErpsyncEntry × ℕ). p.0) (ok-injective h2)) (
      Extended-trans (insert_entry-Extended e table fresh.0 first)
        (insert_all-Extended es with_one fresh.1 rest))

All-IsNew :
    (store : PgStagingStore) (fresh : ℕ → Uuid) (n : ℕ) (rows : List StagedRow)
    → All IsNew (values_from store fresh n rows)
unfolding values_from
All-IsNew store fresh n [] = tt
All-IsNew store fresh n (row ∷ rows) =
    (to_values-IsNew store (fresh n) row, All-IsNew store fresh (suc n) rows)

pub stage-Extended :
    (store : PgStagingStore) (fresh : ℕ → Uuid) (rows : List StagedRow) (s : Session) {s' : Session}
    {n : ℕ}
    → stage store fresh rows s ≡ ok (s', n)
    → Extended s.entries s'.entries × (s'.ledger ≡ s.ledger)
unfolding stage
stage-Extended store fresh rows s h =
    let ((table, inserted), ran, h1) =
      >>=-eq-ok (insert_all (values_from store fresh 0 rows) s.entries) _ h in
    let done = ap (λ (p : Session × ℕ). p.0) (ok-injective h1) in
    (
      subst (λ (t : Session). Extended s.entries t.entries) done
          (insert_all-Extended _ s.entries (All-IsNew store fresh 0 rows) ran),
      ap (λ (t : Session). t.ledger) (sym done),
    )
