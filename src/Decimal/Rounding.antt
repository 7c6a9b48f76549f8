-- ===== src/Decimal/Rounding.antt =====
-- Rounding is to a nearest number, and stripping zeros before it changes nothing.
use native.Mathlib.Nat.{one-le-pow, div-add-mod, mod-lt, pow-suc, mul-div-mul_right}
use native.Mathlib.Numerals.{add-one}
use one_capture.Prelude.{
  ℕ, zero, suc, ◌+◌, ◌*◌, ◌/◌, ◌%◌, ◌^◌, ◌≤◌, ◌<◌, ◌≡◌, refl, ap, ◌∙◌, arith, nat_beq, lt→ltb,
  Bool-cases, inl, inr, sym,
}
use one_capture.Prelude.Int.{ℤ, pos, negsuc, pos_part, neg_part, ◌+ℤ◌, ◌-ℤ◌, int_laws}
use one_capture.Decimal.{Decimal, half_up, rescale, strip_zeros, limit, div_thousand, mul, xor}

pow_pos : (k : ℕ) → 0 < 10 ^ k
pow_pos k = one-le-pow k 10 (omega arith)

half_up_bounds :
    (c k : ℕ)
    → (2 * half_up c k * 10 ^ k ≤ 2 * c + 10 ^ k) × (2 * c < 2 * half_up c k * 10 ^ k + 10 ^ k)
unfolding half_up
half_up_bounds c k = grind (arith, div-add-mod c (10 ^ k), mod-lt c (pow_pos k))

pub rescale_bounds :
    (c : ℕ) (s : ℤ)
    → (2 * rescale c s * 10 ^ neg_part s ≤ 2 * (c * 10 ^ pos_part s) + 10 ^ neg_part s)
      × (2 * (c * 10 ^ pos_part s) < 2 * rescale c s * 10 ^ neg_part s + 10 ^ neg_part s)
unfolding rescale
rescale_bounds c (pos n) = omega arith
rescale_bounds c (negsuc n) = omega (arith, half_up_bounds c (suc n))

mod-ten : (m k : ℕ) → m * 10 % (10 ^ k * 10) ≡ m % 10 ^ k * 10
mod-ten m k = omega (
  arith,
  div-add-mod (m * 10) (10 ^ k * 10),
  div-add-mod m (10 ^ k),
  ap (λ (q : ℕ). 10 ^ k * 10 * q) (mul-div-mul_right {m = 10} m (10 ^ k) (omega arith)),
)

half_up-ten : (m k : ℕ) → half_up (m * 10) (suc k) ≡ half_up m k
unfolding half_up
half_up-ten m k =
    rw (pow-suc 10 k, mul-div-mul_right {m = 10} m (10 ^ k) (omega arith), mod-ten m k)
      (ground arith)

half_up_one : (m : ℕ) → half_up (m * 10) 1 ≡ m
unfolding half_up
half_up_one m = ground arith

pow-add_one : (n : ℕ) → 10 ^ (n + 1) ≡ 10 * 10 ^ n
pow-add_one n = simp (add-one, pow-suc) (omega arith)

pos-add_one : (n : ℕ) → pos n +ℤ pos 1 ≡ pos (n + 1)
unfolding ◌+ℤ◌
pos-add_one n = ground arith

negsuc-add_one : (n : ℕ) → negsuc (suc n) +ℤ pos 1 ≡ negsuc n
unfolding ◌+ℤ◌
negsuc-add_one n = ground arith

rescale-ten : (m : ℕ) (s : ℤ) → rescale (m * 10) s ≡ rescale m (s +ℤ pos 1)
unfolding rescale
rescale-ten m (pos n) = rw pos-add_one (omega (arith, ap (λ (p : ℕ). m * p) (pow-add_one n)))
rescale-ten m (negsuc zero) = half_up_one m ∙ (unfold ◌+ℤ◌ in omega arith)
rescale-ten m (negsuc (suc n)) = rw negsuc-add_one (half_up-ten m (suc n))

abbrev pub rescaled : Decimal → ℕ
rescaled d = rescale d.coefficient (d.exponent +ℤ pos 6)

shift_comm : (e : ℤ) → e +ℤ pos 1 +ℤ pos 6 ≡ e +ℤ pos 6 +ℤ pos 1
shift_comm e = omega int_laws

rescale-drop_zero :
    (c : ℕ) (e : ℤ) → c % 10 ≡ 0 → rescale (c / 10) (e +ℤ pos 1 +ℤ pos 6) ≡ rescale c (e +ℤ pos 6)
rescale-drop_zero c e h =
    rw shift_comm (
      sym (rescale-ten (c / 10) (e +ℤ pos 6))
      ∙ ap (λ (m : ℕ). rescale m (e +ℤ pos 6)) (omega arith))

rescaled-strip_zeros : (n : ℕ) (d : Decimal) → rescaled (strip_zeros n d) ≡ rescaled d
unfolding strip_zeros
rescaled-strip_zeros zero d = refl
rescaled-strip_zeros (suc n) d = elim (Bool-cases (nat_beq (d.coefficient % 10) 0)) [
  | inl trailing ↦ rw trailing (
      rescaled-strip_zeros n
        (record d { coefficient = d.coefficient / 10; exponent = d.exponent +ℤ pos 1 })
      ∙ rescale-drop_zero d.coefficient d.exponent (ground arith))
  | inr done ↦ rw done
]

strip_zeros-negative : (n : ℕ) (d : Decimal) → (strip_zeros n d).negative ≡ d.negative
unfolding strip_zeros
strip_zeros-negative zero d = refl
strip_zeros-negative (suc n) d = ground (
  arith,
  strip_zeros-negative n
      (record d { coefficient = d.coefficient / 10; exponent = d.exponent +ℤ pos 1 }),
)

rescale-zero : (s : ℤ) → rescale 0 s ≡ 0
unfolding rescale half_up
rescale-zero (pos n) = omega arith
rescale-zero (negsuc n) =
    ground (arith, pow_pos (suc n), mod-lt 0 (pow_pos (suc n)), div-add-mod 0 (10 ^ suc n))

rescale-of_zero : (c : ℕ) (s : ℤ) → c ≡ 0 → rescale c s ≡ 0
rescale-of_zero c s h = rw h (rescale-zero s)

kilo : (e : ℤ) → e -ℤ pos 3 +ℤ pos 6 ≡ e +ℤ pos 3
kilo e = omega int_laws

pub rescaled-div_thousand :
    (d : Decimal) → rescaled (div_thousand d) ≡ rescale d.coefficient (d.exponent +ℤ pos 3)
unfolding div_thousand
rescaled-div_thousand d = elim (Bool-cases (nat_beq d.coefficient 0)) [
  | inl nil ↦ rw nil (rescale-of_zero _ _ (ground arith) ∙ sym (rescale-of_zero _ _ (ground arith)))
  | inr other ↦ rw other (
      rescaled-strip_zeros 3 (record d { exponent = d.exponent -ℤ pos 3 })
      ∙ ap (rescale d.coefficient) (kilo d.exponent))
]

pub div_thousand-negative : (d : Decimal) → (div_thousand d).negative ≡ d.negative
unfolding div_thousand
div_thousand-negative d =
    ground (arith, strip_zeros-negative 3 (record d { exponent = d.exponent -ℤ pos 3 }))

-- A product that fits the precision is exact.
pub mul_exact :
    (a b : Decimal)
    → a.coefficient * b.coefficient < limit
    → mul a b ≡ record {
      negative = xor a.negative b.negative;
      coefficient = a.coefficient * b.coefficient;
      exponent = a.exponent +ℤ b.exponent;
    }
unfolding mul
mul_exact a b h = rw (lt→ltb _ _ h)
