-- ===== src/ErpSync/Dedup/Hits.antt =====
-- Which lines `screen` of src/erpsync/dedup/crosschannel.py names.
use one_capture.Prelude.{
  ◌≡◌, refl, Bool, true, false, ◌&&◌, ◌||◌, Option, none, some, List, [], ◌∷◌, map, any, arith,
  contains, ◌==◌, list_eq, nat_eq,
}
use one_capture.Prelude.Text.{Text, strip, truthy}
use one_capture.ErpSync.Domain.{
  Channel, erp_sync, e_claim, LineKey, key_eq, EmissionEntry, DuplicateHit,
}
use one_capture.ErpSync.Dedup.{
  OwnershipMatrix, owner_of, stripped, hit_document, hit_owner, screen_entry, screen_entries,
  screen, cons_option,
}

-- e-Claim owns the category.
abbrev is_owned : Option Channel → Bool
is_owned (some e_claim) = true
is_owned _ = false

-- e-Claim has the document.
abbrev has_document : List Text → Option Text → Bool
has_document docs none = false
has_document docs (some number) = truthy number && contains docs (strip number)

-- The line repeats one of e-Claim.
abbrev pub is_repeat : OwnershipMatrix → List Text → EmissionEntry → Bool
is_repeat matrix docs e = is_owned (owner_of matrix e.category) || has_document docs e.doc_number

abbrev keys_of : Option DuplicateHit → List LineKey
keys_of none = []
keys_of (some h) = h.line_key ∷ []

abbrev found : List DuplicateHit → LineKey → Bool
found hits key = contains (map (λ h. h.line_key) hits) key

hit_document-key :
    (e : EmissionEntry) (docs : List Text) (number : Option Text) (key : LineKey)
    → contains (keys_of (hit_document e docs number)) key
      ≡ (has_document docs number && key == e.line_key)
unfolding hit_document
hit_document-key e docs none key = refl
hit_document-key e docs (some number) key = ground arith

hit_owner-key :
    (e : EmissionEntry) (docs : List Text) (owner : Option Channel) (key : LineKey)
    → contains (keys_of (hit_owner e docs owner)) key
      ≡ ((is_owned owner || has_document docs e.doc_number) && key == e.line_key)
unfolding hit_owner
hit_owner-key e docs (some e_claim) key = ground arith
hit_owner-key e docs (some erp_sync) key = hit_document-key e docs e.doc_number key
hit_owner-key e docs none key = hit_document-key e docs e.doc_number key

by_hit :
    (hit : Option DuplicateHit) (hits : List DuplicateHit) (key : LineKey) {b c : Bool}
    → contains (keys_of hit) key ≡ b
    → found hits key ≡ c
    → found (cons_option hit hits) key ≡ (b || c)
by_hit none hits key same rest = ground (arith, same, rest)
by_hit (some h) hits key same rest = ground (arith, same, rest)

screen_entries-keys :
    (matrix : OwnershipMatrix) (docs : List Text) (es : List EmissionEntry) (key : LineKey)
    → found (screen_entries matrix docs es) key
      ≡ any (λ e. is_repeat matrix docs e && key == e.line_key) es
unfolding screen_entries screen_entry
screen_entries-keys matrix docs [] key = refl
screen_entries-keys matrix docs (e ∷ es) key =
    by_hit (hit_owner e docs (owner_of matrix e.category)) (screen_entries matrix docs es) key
      (hit_owner-key e docs (owner_of matrix e.category) key)
      (screen_entries-keys matrix docs es key)

-- A key has a hit exactly when a line with this key repeats one of e-Claim.
pub screen-keys :
    (matrix : OwnershipMatrix) (docs : List Text) (es : List EmissionEntry) (key : LineKey)
    → found (screen es matrix docs) key
      ≡ any (λ e. is_repeat matrix (stripped docs) e && key == e.line_key) es
unfolding screen
screen-keys matrix docs es key = screen_entries-keys matrix (stripped docs) es key
