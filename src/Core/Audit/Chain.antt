-- ===== src/Core/Audit/Chain.antt =====
-- Two chains of src/core/audit.py that verify and end in the same hash.
use one_capture.Prelude.{
  ◌≡◌, ◌≢◌, refl, sym, ap, ◌∙◌, ◌⊎◌, inl, inr, true, Option, none, some, List, [], ◌∷◌, ◌++◌, ◌==◌,
  list_eq, nat_eq, list_beq_iff, Bool-cases, length, arith, beq_self, beq_sound,
}
use one_capture.Prelude.Text.{Text}
use one_capture.Core.Json.{Json, canonical_json}
use one_capture.Core.Audit.{Event, or_genesis, chain_hash, verify_from, verify_chain, link_all}

-- Two texts with one digest.
abbrev pub Collision : (Text → Text) → Type 0
Collision sha256 = (x : Text) × (y : Text) × (x ≢ y) × (sha256 x ≡ sha256 y)

-- The hash at the end of a chain that begins behind `prev`.
abbrev tip : Option Text → List Event → Option Text
tip prev [] = prev
tip prev ((p, payload, digest) ∷ events) = tip (some digest) events

-- What the events of a chain assert.
abbrev pub assertions : List Event → List Text
assertions [] = []
assertions ((p, payload, digest) ∷ events) = canonical_json payload ∷ assertions events

module _ (sha256 : Text → Text) where
  verify_from-link_all :
      (prev : Option Text) (payloads : List Json)
      → verify_from sha256 prev (link_all sha256 prev payloads) ≡ true
  unfolding verify_from link_all
  verify_from-link_all prev [] = refl
  verify_from-link_all prev (payload ∷ payloads) =
      simp (beq_self (or_genesis prev), beq_self (chain_hash sha256 prev payload))
        (verify_from-link_all (some (chain_hash sha256 prev payload)) payloads)

append-injective :
    {A : Type 0} (a b c d : List A) → length a ≡ length b → a ++ c ≡ b ++ d → (a ≡ b) × (c ≡ d)
append-injective [] [] c d h e = (refl, e)
append-injective [] (y ∷ b) c d h e = absurd (omega arith)
append-injective (x ∷ a) [] c d h e = absurd (omega arith)
append-injective (x ∷ a) (y ∷ b) c d h e =
    let (p, q) = append-injective a b c d (omega arith) (cc) in (cc, q)

module _ (sha256 : Text → Text) (digest_length : (t : Text) → length (sha256 t) ≡ 64) where
  same_or_Collision : (x y : Text) → sha256 x ≡ sha256 y → (x ≡ y) ⊎ Collision sha256
  same_or_Collision x y h = elim (Bool-cases (x == y)) [
    | inl same ↦ inl (beq_sound x y same)
    | inr other ↦ inr (x, y, (λ e. cc ((list_beq_iff x y).1 e)), h)
  ]

  same_step :
      (p q : Option Text) (j k : Json)
      → length (or_genesis p) ≡ length (or_genesis q)
      → chain_hash sha256 p j ≡ chain_hash sha256 q k
      → ((or_genesis p ≡ or_genesis q) × (canonical_json j ≡ canonical_json k)) ⊎ Collision sha256
  unfolding chain_hash
  same_step p q j k l h = elim (same_or_Collision _ _ h) [
    | inl e ↦ inl (append-injective (or_genesis p) (or_genesis q) _ _ l e)
    | inr c ↦ inr c
  ]

  verify_from-cons :
      (e p : Option Text) (j : Json) (d : Text) (events : List Event)
      → verify_from sha256 e ((p, j, d) ∷ events) ≡ true
      → (or_genesis p ≡ or_genesis e)
        × (chain_hash sha256 p j ≡ d)
        × (verify_from sha256 (some d) events ≡ true)
  unfolding verify_from
  verify_from-cons e p j d events h =
      ground
        (arith, list_beq_iff (or_genesis p) (or_genesis e), list_beq_iff (chain_hash sha256 p j) d)

  digest_lengths :
      (p q : Option Text) (j k : Json) {d d' : Text}
      → chain_hash sha256 p j ≡ d
      → chain_hash sha256 q k ≡ d'
      → length d ≡ length d'
  unfolding chain_hash
  digest_lengths p q j k h h' =
      ap length (sym h) ∙ digest_length _ ∙ sym (digest_length _) ∙ ap length h'

  chain_step :
      (e e' p p' : Option Text) (j j' : Json) {rest rest' : List Text}
      → or_genesis p ≡ or_genesis e
      → or_genesis p' ≡ or_genesis e'
      → rest ≡ rest'
      → ((or_genesis p ≡ or_genesis p') × (canonical_json j ≡ canonical_json j')) ⊎ Collision sha256
      → ((or_genesis e ≡ or_genesis e') × (canonical_json j ∷ rest ≡ canonical_json j' ∷ rest'))
        ⊎ Collision sha256
  chain_step e e' p p' j j' pe pe' same (inl (pp, jj)) = inl (sym pe ∙ pp ∙ pe', cc)
  chain_step e e' p p' j j' pe pe' same (inr c) = inr c

  same_chain :
      (e e' : Option Text) (events events' : List Event)
      → length events ≡ length events'
      → length (or_genesis e) ≡ length (or_genesis e')
      → verify_from sha256 e events ≡ true
      → verify_from sha256 e' events' ≡ true
      → or_genesis (tip e events) ≡ or_genesis (tip e' events')
      → ((or_genesis e ≡ or_genesis e') × (assertions events ≡ assertions events'))
        ⊎ Collision sha256
  same_chain e e' [] [] l g v v' t = inl (t, refl)
  same_chain e e' [] (x ∷ xs) l g v v' t = absurd (omega arith)
  same_chain e e' (x ∷ xs) [] l g v v' t = absurd (omega arith)
  same_chain e e' ((p, j, d) ∷ xs) ((p', j', d') ∷ xs') l g v v' t =
      let (pe, hd, vs) = verify_from-cons e p j d xs v in
      let (pe', hd', vs') = verify_from-cons e' p' j' d' xs' v' in
      let lengths = digest_lengths p p' j j' hd hd' in
      elim (same_chain (some d) (some d') xs xs' (omega arith) lengths vs vs' t) [
        | inl (dd, found) ↦
            chain_step e e' p p' j j' pe pe' found
              (same_step p p' j j' (rw (pe, pe') g) (hd ∙ dd ∙ sym hd'))
        | inr c ↦ inr c
      ]

  -- Where every digest has 64 characters, two chains of as many events that verify and end in the
  -- same hash assert the same, event by event, or two different texts with one digest are at hand.
  pub tamper_evident :
      (events events' : List Event)
      → length events ≡ length events'
      → verify_chain sha256 events ≡ true
      → verify_chain sha256 events' ≡ true
      → tip (some []) events ≡ tip (some []) events'
      → (assertions events ≡ assertions events') ⊎ Collision sha256
  unfolding verify_chain
  tamper_evident events events' l v v' t =
      elim (same_chain (some []) (some []) events events' l refl v v' (ap or_genesis t)) [
        | inl (_, same) ↦ inl same
        | inr c ↦ inr c
      ]

module _ (sha256 : Text → Text) where
  -- A chain that is linked from the start verifies.
  pub verify_chain-link_all :
      (payloads : List Json) → verify_chain sha256 (link_all sha256 none payloads) ≡ true
  unfolding verify_chain link_all verify_from
  verify_chain-link_all [] = refl
  verify_chain-link_all (payload ∷ payloads) =
      simp (beq_self (chain_hash sha256 none payload))
        (verify_from-link_all sha256 (some (chain_hash sha256 none payload)) payloads)
