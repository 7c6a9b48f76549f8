-- ===== src/Prelude/Rows.antt =====
-- A table as a list of rows with an id: the row of an id, and its replacement.
use mathlib.Core.Path.{subst}
use one_capture.Prelude.{
  ◌≡◌, refl, sym, ap, ◌∙◌, false, Option, some, List, [], ◌∷◌, ◌++◌, if◌then◌else◌, find_first,
  find_first-Among, All, Bool-cases, inl, inr, ◌==◌, list_eq, nat_eq, beq_sound, beq_self,
  eq_of_some,
}
use one_capture.Prelude.Text.{Text}

module _ {Row : Type 0} (key : Row → Text) where
  -- The row that a table has under an id.
  abbrev pub row_at : List Row → Text → Option Row
  row_at rows id = find_first (λ r. key r == id) rows

  -- The row of this id takes the values of the mutated object.
  unfoldable pub put_row : Row → List Row → List Row
  put_row new [] = []
  put_row new (r ∷ rs) = (if key r == key new then new else r) ∷ put_row new rs

  -- A row that was found stands at its own id.
  pub row_at_own :
      (rows : List Row) (id : Text) {r : Row}
      → row_at rows id ≡ some r
      → row_at rows (key r) ≡ some r
  row_at_own rows id {r} found =
      subst (λ x. row_at rows x ≡ some r)
        (sym (beq_sound (key r) id (find_first-Among (λ q. key q == id) rows found).1)) found

  pub row_at-All :
      (P : Row → Type 0) (rows : List Row) (id : Text) {r : Row}
      → All P rows
      → row_at rows id ≡ some r
      → P r
  row_at-All P [] id all h = cc
  row_at-All P (q ∷ qs) id all h = elim (Bool-cases (key q == id)) [
    | inl hit ↦ subst P (eq_of_some (rw hit at h)) all.0
    | inr miss ↦ row_at-All P qs id all.1 (rw miss at h)
  ]

  pub put_row-All :
      (P : Row → Type 0) (new : Row) (rows : List Row)
      → All P rows
      → P new
      → All P (put_row new rows)
  unfolding put_row
  put_row-All P new [] all h = tt
  put_row-All P new (r ∷ rs) all h = elim (Bool-cases (key r == key new)) [
    | inl same ↦ rw same (h, put_row-All P new rs all.1 h)
    | inr other ↦ rw other (all.0, put_row-All P new rs all.1 h)
  ]

  pub row_at-append :
      (id : Text) (rows : List Row) (more : List Row) {r : Row}
      → row_at rows id ≡ some r
      → row_at (rows ++ more) id ≡ some r
  row_at-append id [] more h = cc
  row_at-append id (q ∷ qs) more h = elim (Bool-cases (key q == id)) [
    | inl hit ↦ rw hit (rw hit at h)
    | inr miss ↦ rw miss (row_at-append id qs more (rw miss at h))
  ]

  pub row_at-put_self :
      (new : Row) (rows : List Row) {r : Row}
      → row_at rows (key new) ≡ some r
      → row_at (put_row new rows) (key new) ≡ some new
  unfolding put_row
  row_at-put_self new [] h = cc
  row_at-put_self new (q ∷ qs) h = elim (Bool-cases (key q == key new)) [
    | inl hit ↦ rw (hit, beq_self (key new)) refl
    | inr miss ↦ rw (miss, miss) (row_at-put_self new qs (rw miss at h))
  ]

  pub row_at-put_other :
      (id : Text) (new : Row) (rows : List Row)
      → (key new == id) ≡ false
      → row_at (put_row new rows) id ≡ row_at rows id
  unfolding put_row
  row_at-put_other id new [] h = refl
  row_at-put_other id new (q ∷ qs) h = elim (Bool-cases (key q == key new)) [
    | inl hit ↦
        (let same = ap (λ (u : Text). u == id) (beq_sound (key q) (key new) hit) ∙ h in
          rw (hit, h, same) (row_at-put_other id new qs h))
    | inr miss ↦
        rw miss (ap (λ o. if key q == id then some q else o) (row_at-put_other id new qs h))
  ]
