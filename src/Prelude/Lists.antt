-- ===== src/Prelude/Lists.antt =====
-- Lists measured by native numbers, and Boolean searches through them.
use Prim.Native.Nat.{ℕ, suc, ◌+◌, ◌≤◌}
use mathlib.Core.Path.{◌≡◌, refl, sym, ap, ◌∙◌, subst}
use mathlib.Core.Logic.{◌⊎◌, inl, inr}
use mathlib.Core.Bool.{Bool, true, false, ◌&&◌, ◌||◌}
use mathlib.Core.List.{List, [], ◌∷◌, ◌++◌}
use mathlib.Core.Option.{Option, none, some}
use native.Mathlib.Omega.{arith}
use one_capture.Prelude.Tests.{if◌then◌else◌, Bool-cases}

module _ {ℓ} {A : Type ℓ} where
  abbrev pub length : List A → ℕ
  length [] = 0
  length (x ∷ xs) = suc (length xs)

  pub length-append : (xs ys : List A) → length (xs ++ ys) ≡ length xs + length ys
  length-append [] ys = omega arith
  length-append (x ∷ xs) ys = omega (arith, length-append xs ys)

  -- `any(p(x) for x in xs)`
  abbrev pub any : (A → Bool) → List A → Bool
  any p [] = false
  any p (x ∷ xs) = p x || any p xs

  -- `all(p(x) for x in xs)`
  abbrev pub all : (A → Bool) → List A → Bool
  all p [] = true
  all p (x ∷ xs) = p x && all p xs

  -- `[x for x in xs if p(x)]`
  abbrev pub keep : (A → Bool) → List A → List A
  keep p [] = []
  keep p (x ∷ xs) = let rest = keep p xs in if p x then x ∷ rest else rest

  -- `next((x for x in xs if p(x)), None)`
  abbrev pub find_first : (A → Bool) → List A → Option A
  find_first p [] = none
  find_first p (x ∷ xs) = let rest = find_first p xs in if p x then some x else rest

  length-keep : (p : A → Bool) (xs : List A) → length (keep p xs) ≤ length xs
  length-keep p [] = omega arith
  length-keep p (x ∷ xs) = ground (arith, length-keep p xs)

  keep-append : (p : A → Bool) (xs ys : List A) → keep p (xs ++ ys) ≡ keep p xs ++ keep p ys
  keep-append p [] ys = refl
  keep-append p (x ∷ xs) ys = ground (arith, keep-append p xs ys)

-- A predicate by recursion computes to tuples, which the tactics read and build.
abbrev pub All {ℓ κ} : {A : Type ℓ} → (A → Type κ) → List A → Type κ
All P [] = Unit
All P (x ∷ xs) = P x × All P xs

module _ {ℓ κ} {A : Type ℓ} (P : A → Type κ) where
  pub All-append : (xs ys : List A) → All P xs → All P ys → All P (xs ++ ys)
  All-append [] ys hx hy = hy
  All-append (x ∷ xs) ys hx hy = (hx.0, All-append xs ys hx.1 hy)

  All-keep : (p : A → Bool) (xs : List A) → All P xs → All P (keep p xs)
  All-keep p [] h = tt
  All-keep p (x ∷ xs) h = elim (Bool-cases (p x)) [
    | inl e ↦ subst_keep e (h.0, All-keep p xs h.1)
    | inr e ↦ subst_drop e (All-keep p xs h.1)
  ]
    where
      subst_keep : p x ≡ true → P x × All P (keep p xs) → All P (keep p (x ∷ xs))
      subst_keep e g = rw e g

      subst_drop : p x ≡ false → All P (keep p xs) → All P (keep p (x ∷ xs))
      subst_drop e g = rw e g

All-keep_self {ℓ} : {A : Type ℓ} (p : A → Bool) (xs : List A) → All (λ x. p x ≡ true) (keep p xs)
All-keep_self p [] = tt
All-keep_self p (x ∷ xs) = elim (Bool-cases (p x)) [
  | inl e ↦ rw e (e, All-keep_self p xs)
  | inr e ↦ rw e (All-keep_self p xs)
]

pub All-map {ℓ κ} :
    {A : Type ℓ} {P Q : A → Type κ} → ((a : A) → P a → Q a) → (xs : List A) → All P xs → All Q xs
All-map f [] h = tt
All-map f (x ∷ xs) h = (f x h.0, All-map f xs h.1)

-- The element is one of the list.
abbrev pub Among : {A : Type 0} → A → List A → Type 0
Among x [] = ⊥
Among x (y ∷ ys) = (x ≡ y) ⊎ Among x ys

pub find_first-Among :
    {A : Type 0} (p : A → Bool) (xs : List A) {x : A}
    → find_first p xs ≡ some x
    → Among x xs × (p x ≡ true)
find_first-Among p [] h = cc
find_first-Among p (y ∷ ys) h = elim (Bool-cases (p y)) [
  | inl hit ↦
      (let same = some_inj (rw hit at h) in (inl (sym same), subst (λ z. p z ≡ true) same hit))
  | inr miss ↦ (let (among, holds) = find_first-Among p ys (rw miss at h) in (inr among, holds))
]
  where
    some_inj : {A : Type 0} {a b : A} → ◌≡◌ {A = Option A} (some a) (some b) → a ≡ b
    some_inj e = cc

pub find_first-any :
    {A : Type 0} (p : A → Bool) (xs : List A) → find_first p xs ≡ none → any p xs ≡ false
find_first-any p [] h = refl
find_first-any p (y ∷ ys) h = elim (Bool-cases (p y)) [
  | inl hit ↦ (let bad = rw hit at h in cc)
  | inr miss ↦ rw miss (find_first-any p ys (rw miss at h))
]

pub Among-keep :
    {A : Type 0} (p : A → Bool) (xs : List A) {x : A}
    → Among x (keep p xs)
    → Among x xs × (p x ≡ true)
Among-keep p [] h = elim h [ ]
Among-keep p (y ∷ ys) {x} h = elim (Bool-cases (p y)) [
  | inl hit ↦
      first_or_later hit (Among-keep p ys)
        (subst (λ b. Among x (if b then y ∷ keep p ys else keep p ys)) hit h)
  | inr miss ↦
      (let (among, holds) =
          Among-keep p ys (subst (λ b. Among x (if b then y ∷ keep p ys else keep p ys)) miss h) in
        (inr among, holds))
]
  where
    first_or_later :
        p y ≡ true
        → (Among x (keep p ys) → Among x ys × (p x ≡ true))
        → Among x (y ∷ keep p ys)
        → Among x (y ∷ ys) × (p x ≡ true)
    first_or_later hit deeper (inl same) = (inl same, ap p same ∙ hit)
    first_or_later hit deeper (inr later) =
        (let (among, holds) = deeper later in (inr among, holds))

pub append_nil {ℓ} : {A : Type ℓ} (xs : List A) → xs ≡ xs ++ []
append_nil [] = refl
append_nil (x ∷ xs) = ap (λ t. x ∷ t) (append_nil xs)

pub append_assoc {ℓ} : {A : Type ℓ} (xs ys zs : List A) → (xs ++ ys) ++ zs ≡ xs ++ (ys ++ zs)
append_assoc [] ys zs = refl
append_assoc (x ∷ xs) ys zs = ap (λ t. x ∷ t) (append_assoc xs ys zs)

-- What holds of all holds of each.
pub All-Among {ℓ} :
    {A : Type 0} (P : A → Type ℓ) (xs : List A) (x : A) → All P xs → Among x xs → P x
All-Among P [] x every h = elim h [ ]
All-Among P (y ∷ ys) x every (inl same) = subst P (sym same) every.0
All-Among P (y ∷ ys) x every (inr more) = All-Among P ys x every.1 more
