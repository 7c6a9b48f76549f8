-- ===== src/Core/Json.antt =====
-- `json.dumps(obj, sort_keys=True, ensure_ascii=False, separators=(",", ":"))`, which is
-- `_canonical_json` of src/core/audit.py and src/core/release.py. Objects have text keys, and
-- numbers are integers: the callers render decimals as text.
use one_capture.Prelude.{
  ℕ, zero, suc, ◌+◌, ◌-◌, ◌/◌, ◌%◌, ◌≡◌, refl, Bool, true, false, ◌||◌, ◌&&◌, Option, none, some,
  List, [], ◌∷◌, ◌++◌, ltb, nat_beq, if◌then◌else◌,
}
use one_capture.Prelude.Int.{ℤ, pos, negsuc}
use one_capture.Prelude.Text.{Text, codes}

mutual
  pub data Json : Type 0 where
    null : Json
    bool : Bool → Json
    number : ℤ → Json
    text : Text → Json
    array : Items → Json
    object : Fields → Json

  pub data Items : Type 0 where
    nil : Items
    cons : Json → Items → Items

  pub data Fields : Type 0 where
    end : Fields
    field : Text → Json → Fields → Fields

-- The decimal digits of a number.
show_from : ℕ → ℕ → Text
show_from zero n = []
show_from (suc fuel) n =
    let more = show_from fuel (n / 10) ++ (b'0' + n % 10) ∷ [] in
    if ltb n 10 then (b'0' + n) ∷ [] else more

unfoldable pub show : ℕ → Text
unfolding show_from
show n = show_from (suc n) n

show_int : ℤ → Text
unfolding show
show_int (pos n) = show n
show_int (negsuc n) = b'-' ∷ show (suc n)

hex : ℕ → ℕ
hex n = if ltb n 10 then b'0' + n else b'a' + (n - 10)

-- A character of a JSON string.
escape : ℕ → Text
escape c =
    if nat_beq c b'"' || nat_beq c 92
    then 92 ∷ c ∷ []
    else if nat_beq c 10
    then codes "\\n"
    else if nat_beq c 13
    then codes "\\r"
    else if nat_beq c 9
    then codes "\\t"
    else if nat_beq c 12
    then codes "\\f"
    else if nat_beq c 8
    then codes "\\b"
    else if ltb c 32
    then codes "\\u00" ++ hex (c / 16) ∷ hex (c % 16) ∷ []
    else c ∷ []

escape_all : Text → Text
escape_all [] = []
escape_all (c ∷ s) = escape c ++ escape_all s

quote : Text → Text
quote s = b'"' ∷ (escape_all s ++ b'"' ∷ [])

-- Python's order of texts: by code points, from the left.
pub text_leb : Text → Text → Bool
text_leb [] t = true
text_leb (c ∷ s) [] = false
text_leb (c ∷ s) (d ∷ t) = ltb c d || (nat_beq c d && text_leb s t)

insert_field : Text → Json → Fields → Fields
insert_field k v end = field k v end
insert_field k v (field j w fs) =
    let rest = insert_field k v fs in
    if text_leb k j then field k v (field j w fs) else field j w rest

sort_fields : Fields → Fields
sort_fields end = end
sort_fields (field k v fs) = insert_field k v (sort_fields fs)

separated : Text → Text → Text
separated s [] = s
separated s (c ∷ t) = s ++ b',' ∷ c ∷ t

-- Every object inside with its keys sorted.
mutual
  unfolding sort_fields insert_field

  canonical : Json → Json
  canonical (array xs) = array (canonical_items xs)
  canonical (object fs) = object (sort_fields (canonical_fields fs))
  canonical null = null
  canonical (bool b) = bool b
  canonical (number n) = number n
  canonical (text s) = text s

  canonical_items : Items → Items
  canonical_items nil = nil
  canonical_items (cons x xs) = cons (canonical x) (canonical_items xs)

  canonical_fields : Fields → Fields
  canonical_fields end = end
  canonical_fields (field k v fs) = field k (canonical v) (canonical_fields fs)

mutual
  unfolding show_int quote escape_all escape hex separated

  print : Json → Text
  print null = codes "null"
  print (bool true) = codes "true"
  print (bool false) = codes "false"
  print (number n) = show_int n
  print (text s) = quote s
  print (array xs) = b'[' ∷ (print_items xs ++ b']' ∷ [])
  print (object fs) = b'{' ∷ (print_fields fs ++ b'}' ∷ [])

  print_items : Items → Text
  print_items nil = []
  print_items (cons x xs) = separated (print x) (print_items xs)

  print_fields : Fields → Text
  print_fields end = []
  print_fields (field k v fs) = separated (quote k ++ b':' ∷ print v) (print_fields fs)

-- `_canonical_json(obj)`
unfoldable pub canonical_json : Json → Text
unfolding canonical print
canonical_json j = print (canonical j)

pub items_of : List Json → Items
items_of [] = nil
items_of (x ∷ xs) = cons x (items_of xs)

pub fields_of : List (Text × Json) → Fields
fields_of [] = end
fields_of ((k, v) ∷ fs) = field k v (fields_of fs)

-- `None` is null.
abbrev pub optional_text : Option Text → Json
optional_text none = null
optional_text (some s) = text s

canonical_json-sample :
    canonical_json (
      object (
        field
          (codes "b")
          (number (negsuc 11))
          (field (codes "a") (array (cons (text (codes "x\"y")) (cons null nil))) end)))
    ≡ codes "{\"a\":[\"x\\\"y\",null],\"b\":-12}"
unfolding canonical_json text_leb
canonical_json-sample = refl
