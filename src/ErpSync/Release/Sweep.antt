-- ===== src/ErpSync/Release/Sweep.antt =====
-- What `release_clean` of src/erpsync/release/service.py leaves in the staging table.
use mathlib.Core.Path.{subst}
use one_capture.Prelude.{
  ◌≡◌, refl, sym, ap, ◌∙◌, Bool, true, false, ◌&&◌, inl, inr, List, [], ◌∷◌, if◌then◌else◌, arith,
  ◌==◌, list_eq, nat_eq, beq_sound, IsDistinct, map, keep, Bool-cases,
}
use one_capture.Prelude.Text.{Text}
use one_capture.Prelude.Sorting.{any-sorted, Among-sorted}
use one_capture.Prelude.Sweep.{put_each, put_each-eq}
use one_capture.EClaim.Sod.{Uuid}
use one_capture.ErpSync.Ledger.{
  Status, released, ErpsyncEntry, Session, ReleaseBatch, id_of, passes_checks, is_apart,
}
use one_capture.ErpSync.Ledger.Evolution.{may_move, Follows, Follows-self}
use one_capture.ErpSync.Release.{
  is_releasable, takes, release_leb, rows_for, released_entry, release_row, release_rows,
}

-- A row after a release of this client.
abbrev pub settled : Uuid → ErpsyncEntry → ErpsyncEntry
settled client_id row = if takes client_id row then released_entry row else row

keeps_id : (r : ErpsyncEntry) → id_of (released_entry r) ≡ id_of r
unfolding released_entry
keeps_id r = refl

module _ (sha256 : Text → Text) (batch : ReleaseBatch) (actor : Text) where
  release_rows-put_each :
      (rows : List ErpsyncEntry) (s : Session)
      → (release_rows sha256 batch actor rows s).entries
        ≡ put_each id_of released_entry keeps_id rows s.entries
  unfolding release_rows put_each
  release_rows-put_each [] s = refl
  release_rows-put_each (row ∷ rows) s =
      release_rows-put_each rows (release_row sha256 batch actor row s)
      ∙ ap (put_each id_of released_entry keeps_id rows) (unfold release_row in refl)

  -- Exactly the rows that the release reads are released.
  pub release_rows-settled :
      (s : Session) (client_id : Uuid)
      → IsDistinct (map id_of s.entries)
      → (release_rows sha256 batch actor (rows_for s client_id) s).entries
        ≡ map (settled client_id) s.entries
  unfolding rows_for
  release_rows-settled s client_id distinct =
      release_rows-put_each (rows_for s client_id) s
      ∙ put_each-eq id_of released_entry keeps_id (takes client_id) (rows_for s client_id) s.entries
          distinct
          (λ x h. Among-sorted release_leb (λ row. row) (keep (takes client_id) s.entries) x h)
          (λ r.
            any-sorted release_leb (λ row. row) (λ x. x.id == r.id)
              (keep (takes client_id) s.entries))

releasable_released : (q : Status) → is_releasable q ≡ true → may_move q released ≡ true
releasable_released q h = ground arith

released_entry-Follows :
    (r : ErpsyncEntry) → is_releasable r.status ≡ true → Follows r (released_entry r)
unfolding released_entry passes_checks is_apart
released_entry-Follows r h = record {
  same_id = refl;
  same_grain = refl;
  moves = inr (releasable_released r.status h);
  orderly = λ o. record { unreviewed = λ n. cc; reviewed = λ n. cc; checked = o.checked };
}

pub takes_both :
    (client_id : Uuid) (r : ErpsyncEntry)
    → takes client_id r ≡ true
    → (r.client_id ≡ client_id) × (is_releasable r.status ≡ true)
unfolding takes
takes_both client_id r h =
    let (same, may) = both (r.client_id == client_id) (is_releasable r.status) h in
    (beq_sound r.client_id client_id same, may)
  where
    both : (a b : Bool) → (a && b) ≡ true → (a ≡ true) × (b ≡ true)
    both a b h = ground arith

pub settled-Follows : (client_id : Uuid) (r : ErpsyncEntry) → Follows r (settled client_id r)
settled-Follows client_id r = elim (Bool-cases (takes client_id r)) [
  | inl hit ↦
      subst (λ b. Follows r (if b then released_entry r else r)) (sym hit)
        (released_entry-Follows r (takes_both client_id r hit).1)
  | inr miss ↦
      subst (λ b. Follows r (if b then released_entry r else r)) (sym miss) (Follows-self r)
]

and_false : (b : Bool) → (b && false) ≡ false
and_false b = ground arith

takes-released : (client_id : Uuid) (r : ErpsyncEntry) → takes client_id (released_entry r) ≡ false
unfolding takes released_entry
takes-released client_id r = and_false (r.client_id == client_id)

takes-settled :
    (client_id : Uuid) (r : ErpsyncEntry) → takes client_id (settled client_id r) ≡ false
takes-settled client_id r = elim (Bool-cases (takes client_id r)) [
  | inl hit ↦
      subst (λ b. takes client_id (if b then released_entry r else r) ≡ false) (sym hit)
        (takes-released client_id r)
  | inr miss ↦
      subst (λ b. takes client_id (if b then released_entry r else r) ≡ false) (sym miss) miss
]

-- A second release of the client finds nothing.
pub keep-settled :
    (client_id : Uuid) (rows : List ErpsyncEntry)
    → keep (takes client_id) (map (settled client_id) rows) ≡ []
keep-settled client_id [] = refl
keep-settled client_id (r ∷ rs) =
    ap
      (λ b.
        if b
        then settled client_id r ∷ keep (takes client_id) (map (settled client_id) rs)
        else keep (takes client_id) (map (settled client_id) rs))
      (takes-settled client_id r)
    ∙ keep-settled client_id rs
