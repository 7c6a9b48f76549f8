-- ===== src/Decimal.antt =====
-- Python's `decimal.Decimal` as the program uses it: finite numbers under the default context, 28
-- digits and half-even rounding of results. An exponent is any integer: the limits of the context
-- at ±999999 are not modelled, and neither are NaN and the infinities.
pub mod Rounding
pub mod Format
pub mod Parse
use one_capture.Prelude.{
  ℕ, zero, suc, ◌+◌, ◌-◌, ◌*◌, ◌/◌, ◌%◌, ◌^◌, ◌≡◌, refl, Bool, true, false, not, ◌&&◌, ◌||◌, Option,
  none, some, ltb, leb, nat_beq, if◌then◌else◌,
}
use one_capture.Prelude.Int.{ℤ, pos, negsuc, pos_part, neg_part, ◌+ℤ◌, ◌-ℤ◌, leb_ℤ, ltb_ℤ}

-- (-1)^negative * coefficient * 10^exponent
pub record Decimal : Type 0 where
  pub negative : Bool
  pub coefficient : ℕ
  pub exponent : ℤ

abbrev precision : ℕ
precision = 28

abbrev pub limit : ℕ
limit = 10 ^ precision

abbrev pub of_ℕ : ℕ → Decimal
of_ℕ n = record { negative = false; coefficient = n; exponent = pos 0 }

-- How many low digits a coefficient has too many.
excess_from : ℕ → ℕ → ℕ → ℕ
excess_from zero k c = k
excess_from (suc fuel) k c =
    let rest = excess_from fuel (k + 1) c in if ltb c (10 ^ (precision + k)) then k else rest

-- ROUND_HALF_EVEN at the k-th digit.
unfoldable pub half_even : ℕ → ℕ → ℕ
half_even c k =
    let q = c / 10 ^ k in
    let r = 2 * (c % 10 ^ k) in
    if ltb r (10 ^ k)
    then q
    else if ltb (10 ^ k) r
    then q + 1
    else if nat_beq (q % 2) 0
    then q
    else q + 1

-- ROUND_HALF_UP at the k-th digit.
pub half_up : ℕ → ℕ → ℕ
half_up c k = let q = c / 10 ^ k in if leb (10 ^ k) (2 * (c % 10 ^ k)) then q + 1 else q

-- The rounding of every result to the precision of the context.
unfoldable pub fix : Decimal → Decimal
unfolding excess_from half_even
fix d =
    if ltb d.coefficient limit
    then d
    else (let k = excess_from d.coefficient 0 d.coefficient in
        let q = half_even d.coefficient k in
        if nat_beq q limit
        then record d { coefficient = q / 10; exponent = d.exponent +ℤ pos (k + 1) }
        else record d { coefficient = q; exponent = d.exponent +ℤ pos k })

abbrev pub xor : Bool → Bool → Bool
xor true b = not b
xor false b = b

-- `a * b`
unfoldable pub mul : Decimal → Decimal → Decimal
unfolding fix ◌+ℤ◌
mul a b = fix (record {
  negative = xor a.negative b.negative;
  coefficient = a.coefficient * b.coefficient;
  exponent = a.exponent +ℤ b.exponent;
})

-- Drops at most `n` trailing zeros.
unfoldable pub strip_zeros : ℕ → Decimal → Decimal
strip_zeros zero d = d
strip_zeros (suc n) d =
    let rest =
      strip_zeros n
        (record d { coefficient = d.coefficient / 10; exponent = d.exponent +ℤ pos 1 }) in
    if nat_beq (d.coefficient % 10) 0 then rest else d

-- `d / Decimal(1000)` of a number within the precision: always exact, and written with the
-- exponent nearest to that of `d`.
unfoldable pub div_thousand : Decimal → Decimal
unfolding strip_zeros ◌+ℤ◌ ◌-ℤ◌
div_thousand d =
    if nat_beq d.coefficient 0
    then d
    else strip_zeros 3 (record d { exponent = d.exponent -ℤ pos 3 })

-- The coefficient of `d` at the exponent -6: `shift` is `exponent + 6`.
unfoldable pub rescale : ℕ → ℤ → ℕ
rescale c (pos n) = c * 10 ^ n
rescale c (negsuc n) = half_up c (suc n)

-- `d.quantize(Decimal("0.000001"), rounding=ROUND_HALF_UP)`; `none` is InvalidOperation, which
-- is raised when the result has more digits than the context allows.
unfoldable pub quantize_micro : Decimal → Option Decimal
quantize_micro d =
    let c = rescale d.coefficient (d.exponent +ℤ pos 6) in
    if ltb c limit then some (record d { coefficient = c; exponent = negsuc 5 }) else none

-- An integer with the given sign.
abbrev pub signed : Bool → ℕ → ℤ
signed false n = pos n
signed true zero = pos 0
signed true (suc n) = negsuc n

-- The coefficients of two numbers at their lower exponent.
left_scaled : Decimal → Decimal → ℤ
left_scaled a b = signed a.negative (a.coefficient * 10 ^ pos_part (a.exponent -ℤ b.exponent))

right_scaled : Decimal → Decimal → ℤ
right_scaled a b = signed b.negative (b.coefficient * 10 ^ neg_part (a.exponent -ℤ b.exponent))

-- `a <= b`
unfoldable pub dec_leb : Decimal → Decimal → Bool
unfolding left_scaled right_scaled ◌-ℤ◌
dec_leb a b = leb_ℤ (left_scaled a b) (right_scaled a b)

-- `a > b`
unfoldable pub dec_gtb : Decimal → Decimal → Bool
unfolding left_scaled right_scaled ◌-ℤ◌
dec_gtb a b = ltb_ℤ (right_scaled a b) (left_scaled a b)

-- `a == b`, by value
unfoldable pub dec_beq : Decimal → Decimal → Bool
unfolding dec_leb dec_gtb
dec_beq a b = dec_leb a b && not (ltb_ℤ (left_scaled a b) (right_scaled a b))

-- `d > 0`
abbrev pub is_positive : Decimal → Bool
is_positive d = not d.negative && not (nat_beq d.coefficient 0)

magnitude : ℤ → ℕ
magnitude z = pos_part z + neg_part z

-- `a + b`
unfoldable pub add : Decimal → Decimal → Decimal
unfolding fix left_scaled right_scaled magnitude ◌+ℤ◌ ◌-ℤ◌
add a b =
    let s = left_scaled a b +ℤ right_scaled a b in
    fix (record {
      negative = ltb_ℤ s (pos 0) || (a.negative && b.negative);
      coefficient = magnitude s;
      exponent = if leb_ℤ a.exponent b.exponent then a.exponent else b.exponent;
    })

-- 12.5 * 2.68 = 33.500
mul-sample :
    mul
      (record { negative = false; coefficient = 125; exponent = negsuc 0 })
      (record { negative = false; coefficient = 268; exponent = negsuc 1 })
    ≡ record { negative = false; coefficient = 33500; exponent = negsuc 2 }
unfolding mul
mul-sample = refl

div_thousand-sample :
    div_thousand (record { negative = false; coefficient = 33500; exponent = negsuc 2 })
    ≡ record { negative = false; coefficient = 335; exponent = negsuc 3 }
unfolding div_thousand
div_thousand-sample = refl

-- 0.0335005 rounds up in the sixth place.
quantize_micro-sample :
    quantize_micro (record { negative = false; coefficient = 335005; exponent = negsuc 6 })
    ≡ some (record { negative = false; coefficient = 33501; exponent = negsuc 5 })
unfolding quantize_micro rescale half_up ◌+ℤ◌
quantize_micro-sample = refl

add-sample :
    add
      (record { negative = true; coefficient = 125; exponent = negsuc 0 })
      (record { negative = false; coefficient = 3; exponent = pos 1 })
    ≡ record { negative = false; coefficient = 175; exponent = negsuc 0 }
unfolding add
add-sample = refl

-- A product past 28 digits is rounded half to even.
mul_rounds :
    mul (of_ℕ (10 ^ 14 + 1)) (of_ℕ (10 ^ 14 + 5))
    ≡ record { negative = false; coefficient = 10 ^ 27 + 6 * 10 ^ 13; exponent = pos 1 }
unfolding mul
mul_rounds = refl
