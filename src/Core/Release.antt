-- ===== src/Core/Release.antt =====
-- Canonical batch hashing and the release stubs: src/core/release.py. An item is a value with its
-- JSON object; SHA-256 of a text is a parameter.
use one_capture.Prelude.{ℕ, Bool, List, [], ◌∷◌, ◌++◌, map}
use one_capture.Prelude.Sorting.{sorted}
use one_capture.Prelude.Text.{Text, codes, take_text}
use one_capture.Core.Json.{Json, array, items_of, canonical_json, text_leb, show}

module _ (sha256 : Text → Text) where
  -- `canonical_hash(items, sort_key=key)`; `le` is the order of the keys.
  unfoldable pub canonical_hash :
      {A K : Type 0} → (A → Json) → (K → K → Bool) → (A → K) → List A → Text
  canonical_hash json le key items =
      sha256 (canonical_json (array (items_of (map json (sorted le key items)))))

  -- `canonical_hash(items)`: sorted by their own canonical JSON.
  unfoldable pub canonical_hash_default : {A : Type 0} → (A → Json) → List A → Text
  unfolding canonical_hash
  canonical_hash_default json items =
      canonical_hash json text_leb (λ a. canonical_json (json a)) items

-- `StubTSA.stamp(digest_hex)`
unfoldable pub stamp : Text → Text
stamp digest_hex = codes "STUB-TSA:" ++ take_text 16 digest_hex

-- `StubSink.post(batch_hash_hex, count)`: the receipt, and the receipts so far.
unfoldable pub post : List Text → Text → ℕ → Text × List Text
post posted batch_hash_hex count =
    let receipt = codes "STUB-CARBONNEXT:" ++ (take_text 16 batch_hash_hex ++ b':' ∷ show count) in
    (receipt, posted ++ receipt ∷ [])
