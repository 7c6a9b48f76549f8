-- ===== src/Prelude/Result.antt =====
-- Code that may raise returns a `Result`: the value, or the exception as data.
use one_capture.Prelude.{Bool, true, false, Option, none, some, ◌≡◌, refl, List, [], ◌∷◌}

pub data Result (E : Type 0) (A : Type 0) : Type 0 where
  ok : A → Result E A
  err : E → Result E A

module _ {E : Type 0} where
  infixl 5 ◌>>=◌ ◌>>◌
  abbrev pub ◌>>=◌ : {S T : Type 0} → Result E S → (S → Result E T) → Result E T
  err e >>= next = err e
  ok s >>= next = next s

  abbrev pub ◌>>◌ : {T : Type 0} → Result E (Unit {0}) → Result E T → Result E T
  first >> second = first >>= λ _. second

  -- `if c: raise x`
  abbrev pub raise_if : Bool → E → Result E (Unit {0})
  raise_if true x = err x
  raise_if false x = ok tt

  abbrev pub or_raise : {A : Type 0} → Option A → E → Result E A
  or_raise none x = err x
  or_raise (some a) x = ok a

  -- The two steps of a chain that succeeds.
  pub >>=-eq-ok :
      {S T : Type 0} (r : Result E S) (next : S → Result E T) {t : T}
      → (r >>= next) ≡ ok t
      → (s : S) × (r ≡ ok s) × (next s ≡ ok t)
  >>=-eq-ok (err e) next failed = cc
  >>=-eq-ok (ok s) next rest = (s, refl, rest)

  abbrev map_result : {A B : Type 0} → (A → Result E B) → List A → Result E (List B)
  map_result f [] = ok []
  map_result f (x ∷ xs) = do y ← f x; ys ← map_result f xs; ok (y ∷ ys)

abbrev pub is_ok : {E A : Type 0} → Result E A → Bool
is_ok (ok a) = true
is_ok (err x) = false

pub ok-injective : {E A : Type 0} {a b : A} → ◌≡◌ {A = Result E A} (ok a) (ok b) → a ≡ b
ok-injective h = cc

pub or_raise-some : {E A : Type 0} (o : Option A) (x : E) {a : A} → or_raise o x ≡ ok a → o ≡ some a
or_raise-some none x failed = cc
or_raise-some (some b) x found = cc

-- A guard that lets pass was false.
pub raise_if-eq-ok :
    {E : Type 0} (c : Bool) (x : E) {u : Unit {0}} → raise_if c x ≡ ok u → c ≡ false
raise_if-eq-ok true x h = cc
raise_if-eq-ok false x h = refl

-- Inversion of a guard, with its condition given.
pub guard-eq-ok :
    {E B : Type 0} (c : Bool) (x : E) (k : Unit {0} → Result E B) {b : B}
    → (raise_if c x >>= k) ≡ ok b
    → (c ≡ false) × (k tt ≡ ok b)
guard-eq-ok true x k h = cc
guard-eq-ok false x k h = (refl, h)
