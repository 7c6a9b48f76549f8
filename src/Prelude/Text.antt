-- ===== src/Prelude/Text.antt =====
-- Python's `str` as the list of its code points, with the methods that the program calls. `strip`
-- knows every code point that `str.isspace` accepts; `upper`, `lower` and `casefold` are those of
-- ASCII letters and leave every other code point alone.
use Prim.Native.Char.{code}
use one_capture.Prelude.{
  sym, ◌++◌, any, not, ◌∙◌, ℕ, zero, suc, ◌+◌, ◌-◌, ◌≡◌, refl, Bool, true, false, ◌&&◌, ◌||◌, List,
  [], ◌∷◌, map, arith, leb, nat_beq, if◌then◌else◌, String, Option, none, some,
}
use mathlib.Core.List.{reverse, reverse-cons}

abbrev pub Text : Type 0
Text = List ℕ

abbrev pub codes : String → Text
codes String.[] = []
codes (String.◌∷◌ c s) = code c ∷ codes s

-- `str.isspace` on one code point.
unfoldable pub is_space : ℕ → Bool
is_space c =
    (leb 9 c && leb c 13)
    || (leb 28 c && leb c 32)
    || nat_beq c 133
    || nat_beq c 160
    || nat_beq c 5760
    || (leb 8192 c && leb c 8202)
    || nat_beq c 8232
    || nat_beq c 8233
    || nat_beq c 8239
    || nat_beq c 8287
    || nat_beq c 12288

unfoldable pub lstrip : Text → Text
lstrip [] = []
lstrip (c ∷ s) = let rest = lstrip s in if is_space c then rest else c ∷ s

-- `s.strip()`
unfoldable pub strip : Text → Text
strip s = reverse (lstrip (reverse (lstrip s)))

unfoldable pub upper_code : ℕ → ℕ
upper_code c = if leb b'a' c && leb c b'z' then c - 32 else c

lower_code : ℕ → ℕ
lower_code c = if leb b'A' c && leb c b'Z' then c + 32 else c

-- `s.upper()`
unfoldable pub upper : Text → Text
unfolding upper_code
upper = map upper_code

-- `s.lower()`, and `s.casefold()`
unfoldable pub lower : Text → Text
unfolding lower_code
lower = map lower_code

is_prefix : Text → Text → Bool
is_prefix [] s = true
is_prefix (c ∷ p) [] = false
is_prefix (c ∷ p) (d ∷ s) = nat_beq c d && is_prefix p s

-- `p in s`
unfoldable pub is_infix : Text → Text → Bool
unfolding is_prefix
is_infix p [] = is_prefix p []
is_infix p (c ∷ s) = is_prefix p (c ∷ s) || is_infix p s

-- `s[:n]`
unfoldable pub take_text : ℕ → Text → Text
take_text zero s = []
take_text (suc n) [] = []
take_text (suc n) (c ∷ s) = c ∷ take_text n s

-- `s[n:]`
unfoldable pub drop_text : ℕ → Text → Text
drop_text zero s = s
drop_text (suc n) [] = []
drop_text (suc n) (c ∷ s) = drop_text n s

-- The truth value of a text: false for the empty one.
abbrev pub truthy : Text → Bool
truthy [] = false
truthy (c ∷ s) = true

-- The truth value of an optional text: false for `None` and for the empty one.
abbrev pub truthy? : Option Text → Bool
truthy? none = false
truthy? (some s) = truthy s

-- `s or None`
abbrev pub or_none : Text → Option Text
or_none [] = none
or_none (c ∷ s) = some (c ∷ s)

-- `s or d`
abbrev pub or_default : Text → Text → Text
or_default [] d = d
or_default (c ∷ s) d = c ∷ s

-- Whether a text has more than white space.
abbrev has_more : Text → Bool
has_more s = any (λ c. not (is_space c)) s

has_more-append : (s t : Text) → has_more (s ++ t) ≡ (has_more s || has_more t)
has_more-append [] t = refl
has_more-append (c ∷ s) t = ground (arith, has_more-append s t)

has_more-reverse : (s : Text) → has_more (reverse s) ≡ has_more s
has_more-reverse [] = refl
has_more-reverse (c ∷ s) = rw (reverse-cons, has_more-append) (ground (arith, has_more-reverse s))

has_more-lstrip : (s : Text) → has_more (lstrip s) ≡ has_more s
unfolding lstrip
has_more-lstrip [] = refl
has_more-lstrip (c ∷ s) = ground (arith, has_more-lstrip s)

truthy-lstrip : (s : Text) → truthy (lstrip s) ≡ has_more s
unfolding lstrip
truthy-lstrip [] = refl
truthy-lstrip (c ∷ s) = ground (arith, truthy-lstrip s)

truthy-append_one : (s : Text) (c : ℕ) → truthy (s ++ c ∷ []) ≡ true
truthy-append_one [] c = refl
truthy-append_one (d ∷ s) c = refl

truthy-reverse : (s : Text) → truthy (reverse s) ≡ truthy s
truthy-reverse [] = refl
truthy-reverse (c ∷ s) = rw reverse-cons (truthy-append_one (reverse s) c)

truthy-strip : (s : Text) → truthy (strip s) ≡ has_more s
unfolding strip
truthy-strip s =
    truthy-reverse (lstrip (reverse (lstrip s)))
    ∙ truthy-lstrip (reverse (lstrip s))
    ∙ has_more-reverse (lstrip s)
    ∙ has_more-lstrip s

has_more-strip : (s : Text) → has_more (strip s) ≡ has_more s
unfolding strip
has_more-strip s =
    has_more-reverse (lstrip (reverse (lstrip s)))
    ∙ has_more-lstrip (reverse (lstrip s))
    ∙ has_more-reverse (lstrip s)
    ∙ has_more-lstrip s

-- A text that is not blank stays so when it is stripped again.
pub truthy-strip-strip : (s : Text) → truthy (strip (strip s)) ≡ truthy (strip s)
truthy-strip-strip s = truthy-strip (strip s) ∙ has_more-strip s ∙ sym (truthy-strip s)

strip-sample : strip (codes "  a b ") ≡ codes "a b"
unfolding strip lstrip is_space
strip-sample = refl

upper-sample : upper (codes "kWh") ≡ codes "KWH"
unfolding upper
upper-sample = refl

is_infix-sample : is_infix (codes "tnb") (codes "the tnb bill") ≡ true
unfolding is_infix
is_infix-sample = refl
