-- ===== src/Prelude/Lifecycle.antt =====
-- Tables whose rows have a status that moves along a given relation.
use mathlib.Core.Path.{subst}
use one_capture.Prelude.{
  ◌≡◌, sym, ap, ◌∙◌, Bool, true, some, List, ◌++◌, Bool-cases, inl, inr, ◌==◌, list_eq, nat_eq,
  beq_sound, eq_of_some,
}
use one_capture.Prelude.Text.{Text}
use one_capture.Prelude.Rows.{
  row_at, put_row, row_at_own, row_at-append, row_at-put_self, row_at-put_other,
}

module _ {S : Type 0} (may_move : S → S → Bool) where
  -- Moves of the lifecycle, one after the other.
  pub data Travels (from : S) : S → Type 0 where
    stays : Travels from from
    goes : {via to : S} → Travels from via → may_move via to ≡ true → Travels from to

  pub Travels-trans : {p q r : S} → Travels p q → Travels q r → Travels p r
  Travels-trans first stays = first
  Travels-trans first (goes more last) = goes (Travels-trans first more) last

module _ {Row S : Type 0} (key : Row → Text) (status : Row → S) (may_move : S → S → Bool) where
  -- What a request does to a table: nothing, new rows, one row along the lifecycle, or several of these.
  pub data Effect : List Row → List Row → Type 0 where
    unchanged : {before : List Row} → Effect before before
    added : {before : List Row} (more : List Row) → Effect before (before ++ more)
    moved :
        {before : List Row} (old new : Row)
        → row_at key before (key new) ≡ some old
        → may_move (status old) (status new) ≡ true
        → Effect before (put_row key new before)
    after :
        {before between last : List Row}
        → Effect before between
        → Effect between last
        → Effect before last

  -- The row under an id is still there, and its status came along the lifecycle.
  pub record Continues (r : Row) (id : Text) (rows : List Row) : Type 0 where
    pub now : Row
    pub found : row_at key rows id ≡ some now
    pub along : Travels may_move (status r) (status now)

  pub Continues-trans :
      {r : Row} {id : Text} {rows : List Row} (c : Continues r id rows) {last : List Row}
      → Continues c.now id last
      → Continues r id last
  Continues-trans c d = record {
    now = d.now;
    found = d.found;
    along = Travels-trans may_move c.along d.along;
  }

  pub Effect-Continues :
      {before last : List Row}
      → Effect before last
      → (id : Text) (r : Row) → row_at key before id ≡ some r
      → Continues r id last
  Effect-Continues unchanged id r h = record { now = r; found = h; along = stays }
  Effect-Continues (added {before} more) id r h = record {
    now = r;
    found = row_at-append key id before more h;
    along = stays;
  }
  Effect-Continues (moved {before} old new at_id may) id r h = elim (Bool-cases (key new == id)) [
    | inl hit ↦
        (let same = beq_sound (key new) id hit in
          let is_old = eq_of_some (sym at_id ∙ (ap (row_at key before) same ∙ h)) in
          record {
            now = new;
            found =
                subst (λ u. row_at key (put_row key new before) u ≡ some new) same
                  (row_at-put_self key new before at_id);
            along = goes stays (subst (λ x. may_move (status x) (status new) ≡ true) is_old may);
          })
    | inr miss ↦ record {
      now = r;
      found = row_at-put_other key id new before miss ∙ h;
      along = stays;
    }
  ]
  Effect-Continues (after first second) id r h =
      let c = Effect-Continues first id r h in
      Continues-trans c (Effect-Continues second id c.now c.found)

  -- A found row that changes along the lifecycle and keeps its id.
  pub moves :
      (rows : List Row) (id : Text) (old new : Row)
      → row_at key rows id ≡ some old
      → key new ≡ key old
      → may_move (status old) (status new) ≡ true
      → Effect rows (put_row key new rows)
  moves rows id old new found same may =
      moved old new
        (subst (λ x. row_at key rows x ≡ some old) (sym same) (row_at_own key rows id found)) may
