-- ===== src/Prelude/Sweep.antt =====
-- A loop that replaces the rows of a selection in their table, one after the other, and the single
-- pass over the table that it amounts to.
use mathlib.Core.Path.{subst}
use one_capture.Prelude.{
  ◌≡◌, refl, sym, ap, ◌∙◌, Bool, true, false, ◌||◌, List, [], ◌∷◌, map, if◌then◌else◌, Among,
  IsDistinct, contains, keep, any, Bool-cases, inl, inr, ◌==◌, list_eq, nat_eq, beq_sound, beq_self,
  beq_sym, Among-keep, arith, All, ◌++◌, some, eq_of_some,
}
use one_capture.Prelude.Text.{Text}
use one_capture.Prelude.Rows.{put_row, row_at}

pub map-eq :
    {A B : Type 0} (f g : A → B) (xs : List A)
    → ((a : A) → Among a xs → f a ≡ g a)
    → map f xs ≡ map g xs
map-eq f g [] same = refl
map-eq f g (x ∷ xs) same =
    ap (λ y. y ∷ map f xs) (same x (inl refl))
    ∙ ap (λ ys. g x ∷ ys) (map-eq f g xs (λ a h. same a (inr h)))

pub map-append :
    {A B : Type 0} (g : A → B) (xs ys : List A) → map g (xs ++ ys) ≡ map g xs ++ map g ys
map-append g [] ys = refl
map-append g (x ∷ xs) ys = ap (λ t. g x ∷ t) (map-append g xs ys)

pub map-map :
    {A B C : Type 0} (g : B → C) (h : A → B) (xs : List A)
    → map g (map h xs) ≡ map (λ a. g (h a)) xs
map-map g h [] = refl
map-map g h (x ∷ xs) = ap (λ t. g (h x) ∷ t) (map-map g h xs)

pub All-rewritten :
    {A : Type 0} (P Q : A → Type 0) (f : A → A) (rows : List A)
    → ((r : A) → Among r rows → P r → Q (f r))
    → All P rows
    → All Q (map f rows)
All-rewritten P Q f [] step all = tt
All-rewritten P Q f (x ∷ xs) step all =
    (step x (inl refl) all.0, All-rewritten P Q f xs (λ r h. step r (inr h)) all.1)

module _ {A : Type 0} (p : A → Bool) where
  pub any-Among : (xs : List A) (x : A) → Among x xs → p x ≡ true → any p xs ≡ true
  any-Among [] x h holds = elim h [ ]
  any-Among (y ∷ ys) x (inl same) holds = ap (λ b. b || any p ys) (ap p (sym same) ∙ holds)
  any-Among (y ∷ ys) x (inr more) holds = ground (arith, any-Among ys x more holds)

  pub any-found : (xs : List A) → any p xs ≡ true → (x : A) × Among x xs × (p x ≡ true)
  any-found [] h = cc
  any-found (y ∷ ys) h = elim (Bool-cases (p y)) [
    | inl hit ↦ (y, inl refl, hit)
    | inr miss ↦
        (let (x, among, holds) = any-found ys (ap (λ b. b || any p ys) (sym miss) ∙ h) in
          (x, inr among, holds))
  ]

  pub keep-Among : (xs : List A) (x : A) → Among x xs → p x ≡ true → Among x (keep p xs)
  keep-Among [] x h holds = elim h [ ]
  keep-Among (y ∷ ys) x (inl same) holds = rw (ap p (sym same) ∙ holds) (inl same)
  keep-Among (y ∷ ys) x (inr more) holds = elim (Bool-cases (p y)) [
    | inl hit ↦
        subst (λ b. Among x (if b then y ∷ keep p ys else keep p ys)) (sym hit)
          (inr (keep-Among ys x more holds))
    | inr miss ↦
        subst (λ b. Among x (if b then y ∷ keep p ys else keep p ys)) (sym miss)
          (keep-Among ys x more holds)
  ]

module _ {Row : Type 0} (key : Row → Text) where
  contains-Among :
      (rows : List Row) (x : Row) → Among x rows → contains (map key rows) (key x) ≡ true
  contains-Among [] x h = elim h [ ]
  contains-Among (r ∷ rs) x (inl same) = rw (same, beq_self (key r)) refl
  contains-Among (r ∷ rs) x (inr more) = ground (arith, contains-Among rs x more)

  clash : {A : Type 0} → false ≡ true → A
  clash h = cc

  if_same : {A : Type 0} (b : Bool) (a : A) → (if b then a else a) ≡ a
  if_same true a = refl
  if_same false a = refl

  -- In a table with distinct ids, a row is known by its id.
  pub same_row :
      (rows : List Row) (x r : Row)
      → IsDistinct (map key rows)
      → Among x rows
      → Among r rows
      → key x ≡ key r
      → x ≡ r
  same_row [] x r distinct h k same = elim h [ ]
  same_row (q ∷ qs) x r distinct (inl h) (inl k) same = h ∙ sym k
  same_row (q ∷ qs) x r distinct (inl h) (inr k) same = clash (
      sym distinct.0 ∙ (ap (contains (map key qs)) (sym (ap key h) ∙ same) ∙ contains-Among qs _ k))
  same_row (q ∷ qs) x r distinct (inr h) (inl k) same = clash (
      sym distinct.0
      ∙ (ap (contains (map key qs)) (sym (ap key k) ∙ sym same) ∙ contains-Among qs _ h))
  same_row (q ∷ qs) x r distinct (inr h) (inr k) same = same_row qs x r distinct.1 h k same

  pub put_row-map :
      (x : Row) (rows : List Row)
      → put_row key x rows ≡ map (λ r. if key r == key x then x else r) rows
  unfolding put_row
  put_row-map x [] = refl
  put_row-map x (r ∷ rs) = ap (λ t. (if key r == key x then x else r) ∷ t) (put_row-map x rs)

  pub row_at-map :
      (f : Row → Row) (rows : List Row) (id : Text) (r : Row)
      → ((q : Row) → Among q rows → key (f q) ≡ key q)
      → row_at key rows id ≡ some r
      → row_at key (map f rows) id ≡ some (f r)
  row_at-map f [] id r same h = cc
  row_at-map f (x ∷ xs) id r same h = elim (Bool-cases (key x == id)) [
    | inl hit ↦ rw (same x (inl refl), hit) (ap (λ e. some (f e)) (eq_of_some (rw hit at h)))
    | inr miss ↦
        rw (same x (inl refl), miss) (row_at-map f xs id r (λ q k. same q (inr k)) (rw miss at h))
  ]

  pub row_at-Among :
      (rows : List Row) (r : Row)
      → IsDistinct (map key rows)
      → Among r rows
      → row_at key rows (key r) ≡ some r
  row_at-Among [] r distinct h = elim h [ ]
  row_at-Among (q ∷ qs) r distinct h = elim (Bool-cases (key q == key r)) [
    | inl hit ↦
        rw hit
          (ap some (same_row (q ∷ qs) q r distinct (inl refl) h (beq_sound (key q) (key r) hit)))
    | inr miss ↦ rw miss (row_at-Among qs r distinct.1 (elsewhere miss h))
  ]
    where
      elsewhere : (key q == key r) ≡ false → Among r (q ∷ qs) → Among r qs
      elsewhere miss (inl same) =
          clash (sym miss ∙ (ap (λ u. key q == u) (ap key same) ∙ beq_self (key q)))
      elsewhere miss (inr more) = more

  module _ (f : Row → Row) (keeps : (r : Row) → key (f r) ≡ key r) where
    -- `for x in xs: x := f(x)`, on the table
    unfoldable pub put_each : List Row → List Row → List Row
    put_each [] rows = rows
    put_each (x ∷ xs) rows = put_each xs (put_row key (f x) rows)

    settle : List Row → Row → Row
    settle [] r = r
    settle (x ∷ xs) r = settle xs (if key r == key (f x) then f x else r)

    put_each-map : (xs rows : List Row) → put_each xs rows ≡ map (settle xs) rows
    unfolding put_each settle
    put_each-map [] [] = refl
    put_each-map [] (r ∷ rs) = ap (λ t. r ∷ t) (put_each-map [] rs)
    put_each-map (x ∷ xs) rows =
        put_each-map xs (put_row key (f x) rows)
        ∙ ap (map (settle xs)) (put_row-map (f x) rows)
        ∙ map-map (settle xs) (λ r. if key r == key (f x) then f x else r) rows

    settle-eq :
        (xs : List Row) (r cur : Row)
        → ((x : Row) → Among x xs → key x ≡ key r → x ≡ r)
        → key cur ≡ key r
        → settle xs cur ≡ (if any (λ x. key x == key r) xs then f r else cur)
    unfolding settle
    settle-eq [] r cur only same = refl
    settle-eq (x ∷ xs) r cur only same =
        let hits = any (λ y. key y == key r) xs in
        elim (Bool-cases (key x == key r)) [
          | inl hit ↦
              (let at_r = beq_sound (key x) (key r) hit in
                let stored =
                  ap (λ u. key cur == u) (keeps x ∙ (at_r ∙ sym same)) ∙ beq_self (key cur) in
                ap (λ b. settle xs (if b then f x else cur)) stored
                ∙ settle-eq xs r (f x) (λ y h. only y (inr h)) (keeps x ∙ at_r)
                ∙ ap (λ y. if hits then f r else f y) (only x (inl refl) at_r)
                ∙ if_same hits (f r)
                ∙ sym (ap (λ b. if b || hits then f r else cur) hit))
          | inr miss ↦
              (let passed =
                  ap (λ u. u == key (f x)) same
                  ∙ (ap (λ u. key r == u) (keeps x) ∙ (beq_sym (key r) (key x) ∙ miss)) in
                ap (λ b. settle xs (if b then f x else cur)) passed
                ∙ settle-eq xs r cur (λ y h. only y (inr h)) same
                ∙ sym (ap (λ b. if b || hits then f r else cur) miss))
        ]

    any-keep :
        (p : Row → Bool) (rows : List Row) (r : Row)
        → IsDistinct (map key rows)
        → Among r rows
        → any (λ x. key x == key r) (keep p rows) ≡ p r
    any-keep p rows r distinct h = elim (Bool-cases (p r)) [
      | inl taken ↦
          any-Among (λ x. key x == key r) (keep p rows) r (keep-Among p rows r h taken)
            (beq_self (key r))
          ∙ sym taken
      | inr left ↦ elim (Bool-cases (any (λ x. key x == key r) (keep p rows))) [
        | inl hit ↦
            (let (x, within, same) = any-found (λ x. key x == key r) (keep p rows) hit in
              let (among, takes) = Among-keep p rows within in
              let is_r = same_row rows x r distinct among h (beq_sound (key x) (key r) same) in
              clash (sym left ∙ (ap p (sym is_r) ∙ takes)))
        | inr none_hit ↦ none_hit ∙ sym left
      ]
    ]

    -- Where the ids are distinct, the loop over any list of the selected rows is one pass over the table.
    pub put_each-eq :
        (p : Row → Bool) (xs rows : List Row)
        → IsDistinct (map key rows)
        → ((x : Row) → Among x xs → Among x (keep p rows))
        → ((r : Row) → any (λ x. key x == key r) xs ≡ any (λ x. key x == key r) (keep p rows))
        → put_each xs rows ≡ map (λ r. if p r then f r else r) rows
    put_each-eq p xs rows distinct within covers =
        put_each-map xs rows
        ∙ map-eq (settle xs) (λ r. if p r then f r else r) rows
            (λ r h.
              settle-eq xs r r
                (λ x k. same_row rows x r distinct (Among-keep p rows (within x k)).0 h) refl
              ∙ ap (λ b. if b then f r else r) (covers r ∙ any-keep p rows r distinct h))
