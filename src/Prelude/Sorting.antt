-- ===== src/Prelude/Sorting.antt =====
-- Python's `sorted` is a stable sort by a key. Every stable sort returns the same list, so it is
-- modelled by insertion.
use mathlib.Core.Path.{subst}
use one_capture.Prelude.{
  ◌≡◌, refl, ap, ◌∙◌, suc, Bool, List, [], ◌∷◌, if◌then◌else◌, length, arith, any, ◌||◌, Among, ◌⊎◌,
  inl, inr, Bool-cases,
}

module _ {A K : Type 0} (le : K → K → Bool) (key : A → K) where
  unfoldable pub insert_sorted : A → List A → List A
  insert_sorted x [] = x ∷ []
  insert_sorted x (y ∷ ys) =
      let rest = insert_sorted x ys in if le (key x) (key y) then x ∷ y ∷ ys else y ∷ rest

  unfoldable pub sorted : List A → List A
  sorted [] = []
  sorted (x ∷ xs) = insert_sorted x (sorted xs)

  length-insert_sorted : (x : A) (xs : List A) → length (insert_sorted x xs) ≡ suc (length xs)
  unfolding insert_sorted
  length-insert_sorted x [] = refl
  length-insert_sorted x (y ∷ ys) = ground (arith, length-insert_sorted x ys)

  pub length-sorted : (xs : List A) → length (sorted xs) ≡ length xs
  unfolding sorted
  length-sorted [] = refl
  length-sorted (x ∷ xs) = length-insert_sorted x (sorted xs) ∙ ap suc (length-sorted xs)

  any-insert_sorted :
      (p : A → Bool) (x : A) (xs : List A) → any p (insert_sorted x xs) ≡ (p x || any p xs)
  unfolding insert_sorted
  any-insert_sorted p x [] = refl
  any-insert_sorted p x (y ∷ ys) = ground (arith, any-insert_sorted p x ys)

  pub any-sorted : (p : A → Bool) (xs : List A) → any p (sorted xs) ≡ any p xs
  unfolding sorted
  any-sorted p [] = refl
  any-sorted p (x ∷ xs) =
      any-insert_sorted p x (sorted xs) ∙ ap (λ (b : Bool). p x || b) (any-sorted p xs)

  Among-insert_sorted :
      (x : A) (ys : List A) {z : A} → Among z (insert_sorted x ys) → (z ≡ x) ⊎ Among z ys
  unfolding insert_sorted
  Among-insert_sorted x [] (inl same) = inl same
  Among-insert_sorted x [] (inr none_left) = elim none_left [ ]
  Among-insert_sorted x (y ∷ ys) {z} h = elim (Bool-cases (le (key x) (key y))) [
    | inl before ↦ subst (λ b. Among z (if b then x ∷ y ∷ ys else y ∷ insert_sorted x ys)) before h
    | inr later ↦
        past (Among-insert_sorted x ys)
          (subst (λ b. Among z (if b then x ∷ y ∷ ys else y ∷ insert_sorted x ys)) later h)
  ]
    where
      past :
          (Among z (insert_sorted x ys) → (z ≡ x) ⊎ Among z ys)
          → Among z (y ∷ insert_sorted x ys)
          → (z ≡ x) ⊎ Among z (y ∷ ys)
      past deeper (inl same) = inr (inl same)
      past deeper (inr more) = elim (deeper more) [
        | inl same ↦ inl same
        | inr rest ↦ inr (inr rest)
      ]

  -- Sorting brings in no element.
  pub Among-sorted : (xs : List A) (z : A) → Among z (sorted xs) → Among z xs
  unfolding sorted
  Among-sorted [] z h = h
  Among-sorted (x ∷ xs) z h = elim (Among-insert_sorted x (sorted xs) h) [
    | inl same ↦ inl same
    | inr rest ↦ inr (Among-sorted xs z rest)
  ]
