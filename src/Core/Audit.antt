-- ===== src/Core/Audit.antt =====
-- The hash-chained audit trail: src/core/audit.py. SHA-256 of the UTF-8 bytes of a text, in hex, is
-- a parameter.
pub mod Chain
use one_capture.Prelude.{
  Bool, true, false, not, Option, none, some, List, [], ◌∷◌, ◌++◌, if◌then◌else◌, ◌==◌, list_eq,
  nat_eq,
}
use one_capture.Prelude.Text.{Text}
use one_capture.Core.Json.{Json, canonical_json}

-- (prev_hash, payload, hash)
abbrev pub Event : Type 0
Event = Option Text × Json × Text

-- `prev_hash or GENESIS`, where GENESIS is the empty text
abbrev pub or_genesis : Option Text → Text
or_genesis none = []
or_genesis (some h) = h

module _ (sha256 : Text → Text) where
  -- `chain_hash(prev_hash, payload)`
  pub chain_hash : Option Text → Json → Text
  chain_hash prev_hash payload = sha256 (or_genesis prev_hash ++ canonical_json payload)

  pub verify_from : Option Text → List Event → Bool
  verify_from expected_prev [] = true
  verify_from expected_prev ((prev_hash, payload, digest) ∷ events) =
      let rest = verify_from (some digest) events in
      if not (or_genesis prev_hash == or_genesis expected_prev)
      then false
      else if not (chain_hash prev_hash payload == digest)
      then false
      else rest

  -- `verify_chain(events)`
  pub verify_chain : List Event → Bool
  verify_chain events = verify_from (some []) events

  -- A chain of payloads behind a hash: each event has the hash of the one before it.
  pub link_all : Option Text → List Json → List Event
  link_all prev [] = []
  link_all prev (payload ∷ payloads) =
      let digest = chain_hash prev payload in
      (prev, payload, digest) ∷ link_all (some digest) payloads
