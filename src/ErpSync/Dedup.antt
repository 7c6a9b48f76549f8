-- ===== src/ErpSync/Dedup.antt =====
-- Cross-channel duplicate screening: src/erpsync/dedup/crosschannel.py.
pub mod Hits
use one_capture.Prelude.{
  Option, none, some, List, [], ◌∷◌, if◌then◌else◌, ◌&&◌, keep, map, contains, lookup, list_eq,
  nat_eq,
}
use one_capture.Prelude.Text.{Text, strip, truthy}
use one_capture.ErpSync.Domain.{
  Channel, erp_sync, e_claim, EmissionEntry, DuplicateHit, category_owned_by, document_in_eclaim,
}

pub record OwnershipMatrix : Type 0 where
  pub client_id : Text
  pub owner_by_category : List (Text × Channel)

-- `OwnershipMatrix.owner_of(category)`
abbrev pub owner_of : OwnershipMatrix → Text → Option Channel
owner_of m category = lookup category m.owner_by_category

-- {d.strip() for d in docs if d}
abbrev pub stripped : List Text → List Text
stripped docs = map strip (keep truthy docs)

unfoldable pub hit_document : EmissionEntry → List Text → Option Text → Option DuplicateHit
hit_document entry docs none = none
hit_document entry docs (some number) =
    if truthy number && contains docs (strip number)
    then some (record {
      line_key = entry.line_key;
      doc_number = strip number;
      category = entry.category;
      owning_channel = e_claim;
      other_channel = erp_sync;
      reason = document_in_eclaim (some number);
    })
    else none

abbrev text_or_empty : Option Text → Text
text_or_empty none = []
text_or_empty (some s) = s

unfoldable pub hit_owner : EmissionEntry → List Text → Option Channel → Option DuplicateHit
hit_owner entry docs (some e_claim) = some (record {
  line_key = entry.line_key;
  doc_number = text_or_empty entry.doc_number;
  category = entry.category;
  owning_channel = e_claim;
  other_channel = erp_sync;
  reason = category_owned_by entry.category e_claim;
})
hit_owner entry docs _ = hit_document entry docs entry.doc_number

-- The body of the loop of `screen`.
unfoldable pub screen_entry : OwnershipMatrix → List Text → EmissionEntry → Option DuplicateHit
unfolding hit_owner hit_document
screen_entry matrix docs entry = hit_owner entry docs (owner_of matrix entry.category)

abbrev pub cons_option {ℓ} : {A : Type ℓ} → Option A → List A → List A
cons_option none xs = xs
cons_option (some x) xs = x ∷ xs

unfoldable pub screen_entries : OwnershipMatrix → List Text → List EmissionEntry → List DuplicateHit
screen_entries matrix docs [] = []
screen_entries matrix docs (e ∷ es) =
    cons_option (screen_entry matrix docs e) (screen_entries matrix docs es)

-- `screen(entries, matrix, eclaim_doc_numbers=docs)`
unfoldable pub screen : List EmissionEntry → OwnershipMatrix → List Text → List DuplicateHit
unfolding screen_entries
screen entries matrix docs = screen_entries matrix (stripped docs) entries
