-- ===== src/ErpSync/Lifecycle/Ledger.antt =====
-- The staging table and the ledger together: what every request keeps.
use mathlib.Core.Path.{subst}
use one_capture.Prelude.{
  ℕ, ◌≡◌, refl, sym, ap, ◌∙◌, Bool, true, false, ◌&&◌, ◌||◌, inl, inr, some, List, if◌then◌else◌,
  arith, ◌==◌, list_eq, nat_eq, beq_self, beq_sound, Among, Among-keep, All, All-append, All-map,
  All-Among, IsDistinct, map, keep, Bool-cases, nat_beq, contains,
}
use one_capture.Prelude.Text.{Text, codes}
use one_capture.Prelude.Rows.{row_at, put_row-All}
use one_capture.Prelude.Lifecycle.{Travels, stays, goes}
use one_capture.Prelude.Sorting.{any-sorted, Among-sorted}
use one_capture.Prelude.Sweep.{
  All-rewritten, any-Among, any-found, keep-Among, row_at-map, row_at-Among,
}
use one_capture.EClaim.Sod.{Uuid, Principal}
use one_capture.ErpSync.Ledger.{
  Status, released, status_beq, ErpsyncEntry, LedgerEntry, ReleaseBatch, Session, passes_checks,
  passes_ledger_checks, id_of, bases, scopes, qualities, is_apart,
}
use one_capture.ErpSync.Ledger.Evolution.{
  may_move, is_open, IsOrderly, Evolves, rewrites, IsTable, Evolves-IsTable, Evolves-Continues,
}
use one_capture.ErpSync.Review.Deciding.{Acted, Acted-Evolves}
use one_capture.ErpSync.Release.{
  takes, release_leb, rows_for, released_entry, idempotency_key, ledger_entry, scope_to_int,
}
use one_capture.ErpSync.Release.Sweep.{settled, settled-Follows, takes_both}
use one_capture.ErpSync.Release.Posting.{key_of, has_key, has_key-append}
use one_capture.ErpSync.Release.Ending.{NewBatch}
use one_capture.ErpSync.Lifecycle.Staging.{Extended}

-- The row that a ledger entry names is there and released.
pub record IsBacked (rows : List ErpsyncEntry) (l : LedgerEntry) : Type 0 where
  pub row : ErpsyncEntry
  pub found : row_at id_of rows l.source_id ≡ some row
  pub is_released : row.status ≡ released

released_stays : (q : Status) → may_move released q ≡ true → q ≡ released
released_stays q h = ground arith

Travels-released : {p q : Status} → p ≡ released → Travels may_move p q → q ≡ released
Travels-released h stays = h
Travels-released {p} h (goes {via} {to} more last) =
    released_stays to (subst (λ v. may_move v to ≡ true) (Travels-released h more) last)

pub Evolves-IsBacked :
    {before after : List ErpsyncEntry}
    → Evolves before after
    → (l : LedgerEntry) → IsBacked before l
    → IsBacked after l
Evolves-IsBacked evolves l b =
    let c = Evolves-Continues evolves l.source_id b.row b.found in
    record { row = c.now; found = c.found; is_released = Travels-released b.is_released c.along }

status_beq_sound : (p q : Status) → status_beq p q ≡ true → p ≡ q
status_beq_sound p q h = ground arith

module _ (sha256 : Text → Text) where
  -- A released row has its key in the ledger.
  abbrev pub IsPosted : List LedgerEntry → ErpsyncEntry → Type 0
  IsPosted ledger e =
      status_beq e.status released ≡ true
      → has_key ledger (idempotency_key sha256 e.client_id e.id) ≡ true

  -- The table is whole; the ledger's keys are distinct, its entries pass their CHECKs and stand for
  -- released rows; and every released row is in it.
  pub record IsSound (s : Session) : Type 0 where
    pub table : IsTable s.entries
    pub distinct_keys : IsDistinct (map key_of s.ledger)
    pub checked : All (λ l. passes_ledger_checks l ≡ true) s.ledger
    pub backed : All (IsBacked s.entries) s.ledger
    pub posted : All (IsPosted s.ledger) s.entries

  -- A request that leaves the ledger alone.
  same_ledger :
      {s s' : Session}
      → IsSound s
      → s'.ledger ≡ s.ledger
      → Evolves s.entries s'.entries
      → All (IsPosted s.ledger) s'.entries
      → IsSound s'
  same_ledger {s} {s'} sound same evolves posted = record {
    table = Evolves-IsTable evolves sound.table;
    distinct_keys = subst (λ ls. IsDistinct (map key_of ls)) (sym same) sound.distinct_keys;
    checked = subst (All (λ l. passes_ledger_checks l ≡ true)) (sym same) sound.checked;
    backed =
        subst (All (IsBacked s'.entries)) (sym same)
          (All-map (Evolves-IsBacked evolves) s.ledger sound.backed);
    posted = subst (λ ls. All (IsPosted ls) s'.entries) (sym same) posted;
  }

  vacuous : {A : Type 0} {b : Bool} → b ≡ false → b ≡ true → A
  vacuous h g = cc

  pub Acted-IsSound :
      {s s' : Session} {id : Uuid} {reviewer : Principal} {make : ErpsyncEntry → ErpsyncEntry}
      → Acted s s' id reviewer make
      → IsSound s
      → IsSound s'
  Acted-IsSound {s} {s'} {id} {reviewer} {make} acted sound =
      same_ledger sound acted.ledger_eq (Acted-Evolves sound.table acted) (
        subst (All (IsPosted s.ledger)) (sym acted.entries_eq) (
          put_row-All id_of (IsPosted s.ledger) (make acted.old) s.entries sound.posted
            (λ h. vacuous acted.unreleased h)))

  open_unreleased : (q : Status) → is_open q ≡ true → status_beq q released ≡ false
  open_unreleased q h = ground arith

  pub Extended-IsSound :
      {s s' : Session}
      → Extended s.entries s'.entries
      → s'.ledger ≡ s.ledger
      → IsSound s
      → IsSound s'
  Extended-IsSound {s} {s'} extended same sound = same_ledger sound same extended.evolves (
      subst (All (IsPosted s.ledger)) (sym extended.grows) (
        All-append (IsPosted s.ledger) s.entries extended.more sound.posted (
          All-map (λ e fresh h. vacuous (open_unreleased e.status fresh.undecided) h) extended.more
            extended.all_new)))

  pub NewBatch-Evolves :
      {s after : Session} {client_id : Uuid} {batch : ReleaseBatch}
      → NewBatch sha256 s after client_id batch
      → Evolves s.entries after.entries
  NewBatch-Evolves {s} {after} {client_id} new =
      subst (Evolves s.entries) (sym new.entries_eq)
        (rewrites (settled client_id) (λ r h. settled-Follows client_id r))

  -- A row that the release takes has its key.
  taken-has_key :
      (s after : Session) (client_id : Uuid) (batch : ReleaseBatch) (r : ErpsyncEntry)
      → NewBatch sha256 s after client_id batch
      → Among r s.entries
      → takes client_id r ≡ true
      → has_key after.ledger (idempotency_key sha256 r.client_id r.id) ≡ true
  unfolding rows_for
  taken-has_key s after client_id batch r new among hit =
      let read = keep-Among (takes client_id) s.entries r among hit in
      let listed =
        any-sorted release_leb (λ row. row) (λ x. x.id == r.id) (keep (takes client_id) s.entries)
        ∙ any-Among (λ (x : ErpsyncEntry). x.id == r.id) (keep (takes client_id) s.entries) r read
            (beq_self r.id) in
      let (x, within, same) =
        any-found (λ (x : ErpsyncEntry). x.id == r.id) (rows_for s client_id) listed in
      let keyed =
        All-Among
          (λ row. has_key after.ledger (idempotency_key sha256 batch.client_id row.id) ≡ true)
          (rows_for s client_id) x new.posted.keyed within in
      ap (λ c. has_key after.ledger (idempotency_key sha256 c r.id))
        ((takes_both client_id r hit).0 ∙ sym new.of_client)
      ∙ (ap (λ i. has_key after.ledger (idempotency_key sha256 batch.client_id i))
            (sym (beq_sound x.id r.id same))
          ∙ keyed)

  settled-IsPosted :
      (s after : Session) (client_id : Uuid) (batch : ReleaseBatch) (r : ErpsyncEntry)
      → NewBatch sha256 s after client_id batch
      → Among r s.entries
      → IsPosted s.ledger r
      → IsPosted after.ledger (settled client_id r)
  settled-IsPosted s after client_id batch r new among before =
      elim (Bool-cases (takes client_id r)) [
        | inl hit ↦
            subst (λ b. IsPosted after.ledger (if b then released_entry r else r)) (sym hit)
              (unfold released_entry in λ h. taken-has_key s after client_id batch r new among hit)
        | inr miss ↦
            subst (λ b. IsPosted after.ledger (if b then released_entry r else r)) (sym miss)
              (λ h.
                ap (λ ls. has_key ls (idempotency_key sha256 r.client_id r.id)) new.posted.grows
                ∙ has_key-append s.ledger new.posted.more (idempotency_key sha256 r.client_id r.id)
                    (before h))
      ]

  scope_fits :
      (scope : Text)
      → (nat_beq (scope_to_int scope) 1
          || nat_beq (scope_to_int scope) 2
          || nat_beq (scope_to_int scope) 3)
        ≡ true
  unfolding scope_to_int
  scope_fits scope =
      one_of (λ n. nat_beq n 1 || nat_beq n 2 || nat_beq n 3) (scope == codes "scope_1")
        (scope == codes "scope_2") refl refl refl
    where
      one_of :
          (p : ℕ → Bool) (a b : Bool)
          → p 1 ≡ true
          → p 2 ≡ true
          → p 3 ≡ true
          → p (if a then 1 else if b then 2 else 3) ≡ true
      one_of p true b h1 h2 h3 = h1
      one_of p false true h1 h2 h3 = h2
      one_of p false false h1 h2 h3 = h3

  -- The entry of an orderly row passes the ledger's CHECKs.
  ledger_entry-checks :
      (firm_id client_id batch_id : Uuid) (row : ErpsyncEntry)
      → IsOrderly row
      → passes_ledger_checks (ledger_entry sha256 firm_id client_id batch_id row) ≡ true
  unfolding passes_ledger_checks ledger_entry passes_checks
  ledger_entry-checks firm_id client_id batch_id row orderly =
      all_three _ _ _ (scope_fits row.scope)
        (third (is_apart row) (contains scopes row.scope) (contains bases row.basis)
          (contains qualities row.data_quality) orderly.checked)
        refl
    where
      third : (a b c d : Bool) → (a && b && c && d) ≡ true → c ≡ true
      third a b c d h = ground arith

      all_three : (a b c : Bool) → a ≡ true → b ≡ true → c ≡ true → (a && b && c) ≡ true
      all_three a b c h1 h2 h3 = ground arith

  source_of :
      (f c b : Uuid) (row : ErpsyncEntry) (l : LedgerEntry)
      → l ≡ ledger_entry sha256 f c b row
      → l.source_id ≡ row.id
  unfolding ledger_entry
  source_of f c b row l same = ap (λ (x : LedgerEntry). x.source_id) same

  taken_status :
      (client_id : Uuid) (row : ErpsyncEntry)
      → takes client_id row ≡ true
      → (settled client_id row).status ≡ released
  unfolding released_entry
  taken_status client_id row hit = ap (λ b. (if b then released_entry row else row).status) hit

  row_for-Among :
      (s : Session) (client_id : Uuid) (row : ErpsyncEntry)
      → Among row (rows_for s client_id)
      → Among row s.entries × (takes client_id row ≡ true)
  unfolding rows_for
  row_for-Among s client_id row h =
      Among-keep (takes client_id) s.entries
        (Among-sorted release_leb (λ r. r) (keep (takes client_id) s.entries) row h)

  pub NewBatch-IsSound :
      {s after : Session} {client_id : Uuid} {batch : ReleaseBatch}
      → NewBatch sha256 s after client_id batch
      → IsSound s
      → IsSound after
  NewBatch-IsSound {s} {after} {client_id} {batch} new sound =
      let evolves = NewBatch-Evolves new in
      let more = new.posted.more in
      record {
        table = Evolves-IsTable evolves sound.table;
        distinct_keys = new.posted.distinct sound.distinct_keys;
        checked = subst (All (λ l. passes_ledger_checks l ≡ true)) (sym new.posted.grows) (
            All-append _ s.ledger more sound.checked
              (All-map new_checked more new.posted.from_rows));
        backed = subst (All (IsBacked after.entries)) (sym new.posted.grows) (
            All-append _ s.ledger more (All-map (Evolves-IsBacked evolves) s.ledger sound.backed)
              (All-map new_backed more new.posted.from_rows));
        posted = subst (All (IsPosted after.ledger)) (sym new.entries_eq) (
            All-rewritten (IsPosted s.ledger) (IsPosted after.ledger) (settled client_id) s.entries
              (λ r among before. settled-IsPosted s after client_id batch r new among before)
              sound.posted);
      }
    where
      FromRow : LedgerEntry → Type 0
      FromRow l =
          (row : ErpsyncEntry) × Among row (rows_for s client_id)
          × (l ≡ ledger_entry sha256 batch.firm_id batch.client_id batch.id row)

      new_checked : (l : LedgerEntry) → FromRow l → passes_ledger_checks l ≡ true
      new_checked l (row, among, same) =
          ap passes_ledger_checks same
          ∙ ledger_entry-checks batch.firm_id batch.client_id batch.id row (
              All-Among IsOrderly s.entries row sound.table.orderly
                (row_for-Among s client_id row among).0)

      new_backed : (l : LedgerEntry) → FromRow l → IsBacked after.entries l
      new_backed l (row, among, same) =
          let (stood, hit) = row_for-Among s client_id row among in
          let at_id =
            row_at-map id_of (settled client_id) s.entries row.id row
              (λ q h. (settled-Follows client_id q).same_id)
              (row_at-Among id_of s.entries row sound.table.distinct_ids stood) in
          record {
            row = settled client_id row;
            found =
                subst (λ i. row_at id_of after.entries i ≡ some (settled client_id row))
                  (sym (source_of _ _ _ row l same))
                  (subst (λ es. row_at id_of es row.id ≡ some (settled client_id row))
                    (sym new.entries_eq) at_id);
            is_released = taken_status client_id row hit;
          }
