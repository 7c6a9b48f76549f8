-- ===== src/ErpSync/Lifecycle/Restaging.antt =====
-- Staging the same rows again: `stage` of src/erpsync/persistence/pg_staging.py.
use mathlib.Core.Path.{subst}
use one_capture.Prelude.{
  ℕ, suc, ◌+◌, ◌≡◌, refl, ap, ◌∙◌, Bool, true, false, ◌||◌, inl, inr, List, [], ◌∷◌, ◌++◌, map,
  arith, All, Bool-cases, contains, contains-append_left, contains-append_right, list_eq, nat_eq,
  length, length-append, beq_self,
}
use one_capture.Prelude.Result.{ok, >>=-eq-ok, ok-injective}
use one_capture.Prelude.Sweep.{map-append}
use one_capture.EClaim.Sod.{Uuid}
use one_capture.ErpSync.Domain.{key_eq}
use one_capture.ErpSync.Ledger.{
  ErpsyncEntry, Session, passes_checks, id_of, grain, PgStagingStore, StagedRow, to_values,
  values_from, insert_entry, insert_all, stage,
}

-- The source line is staged.
abbrev is_staged : List ErpsyncEntry → ErpsyncEntry → Bool
is_staged table e = contains (map grain table) (grain e)

-- After an insertion: nothing staged is lost, the row is staged, and the count is the growth.
record Inserted (e : ErpsyncEntry) (before after : List ErpsyncEntry) (n : ℕ) : Type 0 where
  keeps : (x : ErpsyncEntry) → is_staged before x ≡ true → is_staged after x ≡ true
  there : is_staged after e ≡ true
  counts : length after ≡ length before + n

appended-Inserted :
    (e : ErpsyncEntry) (table : List ErpsyncEntry) → Inserted e table (table ++ e ∷ []) 1
appended-Inserted e table = record {
  keeps = λ x h.
      ap (λ ks. contains ks (grain x)) (map-append grain table (e ∷ []))
      ∙ contains-append_left (grain x) (map grain table) (grain e ∷ []) h;
  there =
      ap (λ ks. contains ks (grain e)) (map-append grain table (e ∷ []))
      ∙ contains-append_right (grain e) (map grain table) (grain e ∷ [])
          (ap (λ b. b || false) (beq_self (grain e)));
  counts = length-append table (e ∷ []);
}

insert_entry-Inserted :
    (e : ErpsyncEntry) (table : List ErpsyncEntry) {after : List ErpsyncEntry} {n : ℕ}
    → insert_entry e table ≡ ok (after, n)
    → Inserted e table after n
unfolding insert_entry
insert_entry-Inserted e table {after} {n} h = elim (Bool-cases (is_staged table e)) [
  | inl staged ↦
      subst (λ (p : List ErpsyncEntry × ℕ). Inserted e table p.0 p.1)
        (ok-injective (rw staged at h))
        (record { keeps = λ x g. g; there = staged; counts = omega arith })
  | inr new_grain ↦ elim (Bool-cases (contains (map id_of table) e.id)) [
    | inl taken ↦ (let bad = rw (new_grain, taken) at h in cc)
    | inr new_id ↦ elim (Bool-cases (passes_checks e)) [
      | inl pass ↦
          subst (λ (p : List ErpsyncEntry × ℕ). Inserted e table p.0 p.1)
            (ok-injective (rw (new_grain, new_id, pass) at h)) (appended-Inserted e table)
      | inr refused ↦ (let bad = rw (new_grain, new_id, refused) at h in cc)
    ]
  ]
]

record AllInserted (es before after : List ErpsyncEntry) (n : ℕ) : Type 0 where
  keeps : (x : ErpsyncEntry) → is_staged before x ≡ true → is_staged after x ≡ true
  there : All (λ e. is_staged after e ≡ true) es
  counts : length after ≡ length before + n

insert_all-AllInserted :
    (es table : List ErpsyncEntry) {after : List ErpsyncEntry} {n : ℕ}
    → insert_all es table ≡ ok (after, n)
    → AllInserted es table after n
unfolding insert_all
insert_all-AllInserted [] table h =
    subst (λ (p : List ErpsyncEntry × ℕ). AllInserted [] table p.0 p.1) (ok-injective h)
      (record { keeps = λ x g. g; there = tt; counts = omega arith })
insert_all-AllInserted (e ∷ es) table h =
    let ((with_one, one), first, h1) = >>=-eq-ok (insert_entry e table) _ h in
    let ((with_all, more), rest, h2) = >>=-eq-ok (insert_all es with_one) _ h1 in
    let head = insert_entry-Inserted e table first in
    let tail = insert_all-AllInserted es with_one rest in
    subst (λ (p : List ErpsyncEntry × ℕ). AllInserted (e ∷ es) table p.0 p.1) (ok-injective h2)
      (record {
        keeps = λ x g. tail.keeps x (head.keeps x g);
        there = (tail.keeps e head.there, tail.there);
        counts = omega (arith, head.counts, tail.counts);
      })

insert_all-staged :
    (es table : List ErpsyncEntry)
    → All (λ e. is_staged table e ≡ true) es
    → insert_all es table ≡ ok (table, 0)
unfolding insert_all insert_entry
insert_all-staged [] table there = refl
insert_all-staged (e ∷ es) table there = rw (there.0, insert_all-staged es table there.1) refl

-- Whether a line is staged does not hang on the id that is drawn for it.
values_from-staged :
    (store : PgStagingStore) (fresh fresh' : ℕ → Uuid) (n m : ℕ) (rows : List StagedRow)
    (table : List ErpsyncEntry)
    → All (λ e. is_staged table e ≡ true) (values_from store fresh n rows)
    → All (λ e. is_staged table e ≡ true) (values_from store fresh' m rows)
unfolding values_from to_values
values_from-staged store fresh fresh' n m [] table h = tt
values_from-staged store fresh fresh' n m (row ∷ rows) table h =
    (h.0, values_from-staged store fresh fresh' (suc n) (suc m) rows table h.1)

-- A staging that returned has inserted as many rows as it says, and staging the same entries for the
-- same client again, whatever ids the database draws this time, inserts nothing and changes
-- nothing, whatever else the first had found.
pub stage_twice :
    (store : PgStagingStore) (fresh : ℕ → Uuid) (rows : List StagedRow) (s : Session) {s' : Session}
    {n : ℕ}
    → stage store fresh rows s ≡ ok (s', n)
    → (fresh' : ℕ → Uuid)
    → (length s'.entries ≡ length s.entries + n) × (stage store fresh' rows s' ≡ ok (s', 0))
unfolding stage
stage_twice store fresh rows s {s'} {n} h fresh' =
    let ((table, inserted), ran, h1) =
      >>=-eq-ok (insert_all (values_from store fresh 0 rows) s.entries) _ h in
    let all_in = insert_all-AllInserted _ s.entries ran in
    let there = values_from-staged store fresh fresh' 0 0 rows table all_in.there in
    subst
      (λ (p : Session × ℕ).
        (length p.0.entries ≡ length s.entries + p.1) × (stage store fresh' rows p.0 ≡ ok (p.0, 0)))
      (ok-injective h1)
      (all_in.counts, rw (insert_all-staged (values_from store fresh' 0 rows) table there) refl)
