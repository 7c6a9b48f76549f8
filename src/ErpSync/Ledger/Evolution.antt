-- ===== src/ErpSync/Ledger/Evolution.antt =====
-- How the staging table of ErpSync/Ledger evolves: the statuses along which a row moves, what an
-- orderly row is, and that a table whose rows follow each other stays whole.
use mathlib.Core.Path.{subst}
use one_capture.Prelude.{
  ◌≡◌, refl, sym, ◌∙◌, Bool, true, false, ◌⊎◌, inl, inr, none, some, List, [], ◌∷◌, ◌++◌, map,
  if◌then◌else◌, All, All-append, Among, IsDistinct, IsDistinct-append_one, contains, is_some,
  Bool-cases, ◌==◌, list_eq, nat_eq, beq_sound, find_first-Among,
}
use one_capture.Prelude.Rows.{row_at, put_row, row_at-append}
use one_capture.Prelude.Lifecycle.{Travels, stays, goes, Continues, Continues-trans}
use one_capture.Prelude.Sweep.{
  same_row, map-eq, map-map, map-append, All-rewritten, row_at-map, put_row-map,
}
use one_capture.EClaim.Sod.{Uuid}
use one_capture.ErpSync.Domain.{key_eq}
use one_capture.ErpSync.Ledger.{
  Status, clean, held, flagged, approved, dismissed, released, ErpsyncEntry, passes_checks, id_of,
  status_of, grain,
}

-- The lifecycle of a staged row.
abbrev pub may_move : Status → Status → Bool
may_move clean released = true
may_move held approved = true
may_move held dismissed = true
may_move flagged flagged = true
may_move flagged approved = true
may_move flagged dismissed = true
may_move approved released = true
may_move _ _ = false

-- Before any reviewer has decided.
abbrev pub is_open : Status → Bool
is_open clean = true
is_open held = true
is_open flagged = true
is_open _ = false

abbrev pub is_decided : Status → Bool
is_decided approved = true
is_decided dismissed = true
is_decided _ = false

-- An undecided row has no reviewer, a decided one has, and the row passes its CHECKs, so that its
-- reviewer is not its editor.
pub record IsOrderly (e : ErpsyncEntry) : Type 0 where
  pub unreviewed : is_open e.status ≡ true → e.reviewed_by_user_id ≡ none
  pub reviewed : is_decided e.status ≡ true → is_some e.reviewed_by_user_id ≡ true
  pub checked : passes_checks e ≡ true

-- What a request makes of a row.
pub record Follows (r q : ErpsyncEntry) : Type 0 where
  pub same_id : q.id ≡ r.id
  pub same_grain : grain q ≡ grain r
  pub moves : (q.status ≡ r.status) ⊎ (may_move r.status q.status ≡ true)
  pub orderly : IsOrderly r → IsOrderly q

pub Follows-self : (r : ErpsyncEntry) → Follows r r
Follows-self r = record { same_id = refl; same_grain = refl; moves = inl refl; orderly = λ h. h }

pub data Evolves : List ErpsyncEntry → List ErpsyncEntry → Type 0 where
  rewrites :
      {before : List ErpsyncEntry} (f : ErpsyncEntry → ErpsyncEntry)
      → ((r : ErpsyncEntry) → Among r before → Follows r (f r))
      → Evolves before (map f before)
  inserts :
      {before : List ErpsyncEntry} (e : ErpsyncEntry)
      → contains (map id_of before) e.id ≡ false
      → contains (map grain before) (grain e) ≡ false
      → IsOrderly e
      → Evolves before (before ++ e ∷ [])
  then_evolves : {p q r : List ErpsyncEntry} → Evolves p q → Evolves q r → Evolves p r

-- A table whose keys are distinct and whose rows are orderly.
pub record IsTable (rows : List ErpsyncEntry) : Type 0 where
  pub distinct_ids : IsDistinct (map id_of rows)
  pub distinct_grains : IsDistinct (map grain rows)
  pub orderly : All IsOrderly rows

pub Evolves-IsTable :
    {before after : List ErpsyncEntry} → Evolves before after → IsTable before → IsTable after
Evolves-IsTable (rewrites {before} f follows) t = record {
  distinct_ids =
      subst (λ ids. IsDistinct ids)
        (sym (
          map-map id_of f before
          ∙ map-eq (λ r. id_of (f r)) id_of before (λ r h. (follows r h).same_id)))
        t.distinct_ids;
  distinct_grains =
      subst (λ ks. IsDistinct ks)
        (sym (
          map-map grain f before
          ∙ map-eq (λ r. grain (f r)) grain before (λ r h. (follows r h).same_grain)))
        t.distinct_grains;
  orderly = All-rewritten IsOrderly IsOrderly f before (λ r h. (follows r h).orderly) t.orderly;
}
Evolves-IsTable (inserts {before} e new_id new_grain orderly) t = record {
  distinct_ids =
      subst (λ ids. IsDistinct ids) (sym (map-append id_of before (e ∷ [])))
        (IsDistinct-append_one _ _ t.distinct_ids new_id);
  distinct_grains =
      subst (λ ks. IsDistinct ks) (sym (map-append grain before (e ∷ [])))
        (IsDistinct-append_one _ _ t.distinct_grains new_grain);
  orderly = All-append IsOrderly before (e ∷ []) t.orderly (orderly, tt);
}
Evolves-IsTable (then_evolves first second) t = Evolves-IsTable second (Evolves-IsTable first t)

abbrev pub ContinuesIn : ErpsyncEntry → Uuid → List ErpsyncEntry → Type 0
ContinuesIn r id rows = Continues id_of status_of may_move r id rows

travels : {p q : Status} → (q ≡ p) ⊎ (may_move p q ≡ true) → Travels may_move p q
travels {p} (inl same) = subst (λ v. Travels may_move p v) (sym same) stays
travels (inr may) = goes stays may

pub Evolves-Continues :
    {before after : List ErpsyncEntry}
    → Evolves before after
    → (id : Uuid) (r : ErpsyncEntry) → row_at id_of before id ≡ some r
    → ContinuesIn r id after
Evolves-Continues (rewrites {before} f follows) id r h = record {
  now = f r;
  found = row_at-map id_of f before id r (λ q k. (follows q k).same_id) h;
  along = travels (follows r (find_first-Among (λ q. q.id == id) before h).0).moves;
}
Evolves-Continues (inserts {before} e new_id new_grain orderly) id r h = record {
  now = r;
  found = row_at-append id_of id before (e ∷ []) h;
  along = stays;
}
Evolves-Continues (then_evolves first second) id r h =
    let c = Evolves-Continues first id r h in
    Continues-trans id_of status_of may_move c (Evolves-Continues second id c.now c.found)

-- One row takes new values that follow it.
pub put_row-Evolves :
    (rows : List ErpsyncEntry) (id : Uuid) (old new : ErpsyncEntry)
    → IsTable rows
    → row_at id_of rows id ≡ some old
    → Follows old new
    → Evolves rows (put_row id_of new rows)
put_row-Evolves rows id old new t found follows =
    subst (Evolves rows) (sym (put_row-map id_of new rows))
      (rewrites (λ r. if r.id == new.id then new else r) follows_each)
  where
    follows_each : (r : ErpsyncEntry) → Among r rows → Follows r (if r.id == new.id then new else r)
    follows_each r among = elim (Bool-cases (r.id == new.id)) [
      | inl hit ↦
          (let is_old =
              same_row id_of rows r old t.distinct_ids among
                (find_first-Among (λ q. q.id == id) rows found).0
                (beq_sound r.id new.id hit ∙ follows.same_id) in
            subst (λ b. Follows r (if b then new else r)) (sym hit)
              (subst (λ q. Follows q new) (sym is_old) follows))
      | inr miss ↦ subst (λ b. Follows r (if b then new else r)) (sym miss) (Follows-self r)
    ]
