-- ===== src/ErpSync/Store/Commit.antt =====
-- Commits are idempotent, keep one entry for each key, and survive a restart.
use mathlib.Core.Path.{subst}
use mathlib.Core.List.{append_assoc, append-nil}
use one_capture.Prelude.{
  ℕ, ◌+◌, ◌≡◌, ◌≢◌, refl, sym, ap, ◌∙◌, true, false, Option, some, List, [], ◌∷◌, ◌++◌, map, arith,
  length, length-append, contains, contains-append, IsDistinct, IsDistinct-append_one, list_eq,
  nat_eq, All, Bool-cases, inl, inr,
}
use one_capture.ErpSync.Domain.{LineKey, key_eq, key_beq_iff, EmissionEntry}
use one_capture.ErpSync.Store.{Store, commit_one, commit_all, commit, open_store, load_raw}

abbrev entry_keys : List EmissionEntry → List LineKey
entry_keys es = map (λ e. e.line_key) es

entry_keys-append :
    (es : List EmissionEntry) (e : EmissionEntry)
    → entry_keys (es ++ e ∷ []) ≡ entry_keys es ++ e.line_key ∷ []
entry_keys-append [] e = refl
entry_keys-append (x ∷ es) e = ap (◌∷◌ x.line_key) (entry_keys-append es e)

module _ {Raw : Type 0} where
  -- The key set is that of the entries, and no key has two entries.
  pub record IsConsistent (s : Store Raw) : Type 0 where
    pub mirrored : (k : LineKey) → contains s.keys k ≡ contains (entry_keys s.entries) k
    pub distinct : IsDistinct (entry_keys s.entries)

module _ {Raw : Type 0} where
  abbrev added_to : Store Raw → EmissionEntry → Store Raw
  added_to s e = record s { keys = e.line_key ∷ s.keys; entries = s.entries ++ e ∷ [] }

  added_to-IsConsistent :
      (s : Store Raw) (e : EmissionEntry)
      → IsConsistent s
      → contains s.keys e.line_key ≡ false
      → IsConsistent (added_to s e)
  added_to-IsConsistent s e v new = record {
    mirrored = λ k.
        rw
          (
            entry_keys-append s.entries e,
            contains-append k (entry_keys s.entries) (e.line_key ∷ []),
          )
          (ground (arith, v.mirrored k));
    distinct = rw entry_keys-append (
        IsDistinct-append_one (entry_keys s.entries) e.line_key v.distinct
          (sym (v.mirrored e.line_key) ∙ new));
  }

  commit_one-IsConsistent :
      (acc : Store Raw × ℕ) (e : EmissionEntry)
      → IsConsistent acc.0
      → IsConsistent (commit_one acc e).0
  commit_one-IsConsistent (s, n) e v = elim (Bool-cases (contains s.keys e.line_key)) [
    | inl known ↦ rw known v
    | inr new ↦ rw new (added_to-IsConsistent s e v new)
  ]

  commit_all-IsConsistent :
      (acc : Store Raw × ℕ) (es : List EmissionEntry)
      → IsConsistent acc.0
      → IsConsistent (commit_all acc es).0
  unfolding commit_all
  commit_all-IsConsistent acc [] v = v
  commit_all-IsConsistent acc (e ∷ es) v =
      commit_all-IsConsistent (commit_one acc e) es (commit_one-IsConsistent acc e v)

  -- A key that is known stays known.
  known-commit_one :
      (acc : Store Raw × ℕ) (e : EmissionEntry) (k : LineKey)
      → contains acc.0.keys k ≡ true
      → contains (commit_one acc e).0.keys k ≡ true
  known-commit_one (s, n) e k h = ground arith

  known-commit_all :
      (acc : Store Raw × ℕ) (es : List EmissionEntry) (k : LineKey)
      → contains acc.0.keys k ≡ true
      → contains (commit_all acc es).0.keys k ≡ true
  unfolding commit_all
  known-commit_all acc [] k h = h
  known-commit_all acc (e ∷ es) k h =
      known-commit_all (commit_one acc e) es k (known-commit_one acc e k h)

  commit_one_knows :
      (acc : Store Raw × ℕ) (e : EmissionEntry)
      → contains (commit_one acc e).0.keys e.line_key ≡ true
  commit_one_knows (s, n) e = ground (arith, key_beq_iff e.line_key e.line_key)

  abbrev pub Known : Store Raw → List EmissionEntry → Type 0
  Known s es = All (λ e. contains s.keys e.line_key ≡ true) es

  commit_all_knows :
      (acc : Store Raw × ℕ) (es : List EmissionEntry) → Known (commit_all acc es).0 es
  unfolding commit_all
  commit_all_knows acc [] = tt
  commit_all_knows acc (e ∷ es) = (
    known-commit_all (commit_one acc e) es e.line_key (commit_one_knows acc e),
    commit_all_knows (commit_one acc e) es,
  )

  commit_all_again :
      (acc : Store Raw × ℕ) (es : List EmissionEntry) → Known acc.0 es → commit_all acc es ≡ acc
  unfolding commit_all
  commit_all_again acc [] h = refl
  commit_all_again (s, n) (e ∷ es) h = rw h.0 (commit_all_again (s, n) es h.1)

  commit_one_known :
      (s : Store Raw) (n : ℕ) (e : EmissionEntry)
      → contains s.keys e.line_key ≡ true
      → commit_one (s, n) e ≡ (s, n)
  commit_one_known s n e h = rw h

  commit_one_new :
      (s : Store Raw) (n : ℕ) (e : EmissionEntry)
      → contains s.keys e.line_key ≡ false
      → commit_one (s, n) e ≡ (added_to s e, n + 1)
  commit_one_new s n e h = rw h

  abbrev Grown : ℕ → Store Raw × ℕ → Store Raw × ℕ → Type 0
  Grown n acc acc' = length acc'.0.entries + n ≡ length acc.0.entries + acc'.1

  length-commit_all :
      (acc : Store Raw × ℕ) (es : List EmissionEntry) → Grown acc.1 acc (commit_all acc es)
  unfolding commit_all
  length-commit_all acc [] = omega arith
  length-commit_all (s, n) (e ∷ es) = elim (Bool-cases (contains s.keys e.line_key)) [
    | inl known ↦
        subst (λ acc. Grown n (s, n) (commit_all acc es)) (sym (commit_one_known s n e known))
          (length-commit_all (s, n) es)
    | inr new ↦
        subst (λ acc. Grown n (s, n) (commit_all acc es)) (sym (commit_one_new s n e new))
          (omega
            (arith, length-commit_all (added_to s e, n + 1) es, length-append s.entries (e ∷ [])))
  ]

module _ {Raw : Type 0} (dump : EmissionEntry → Raw) where
  keys-commit :
      (s : Store Raw) (es : List EmissionEntry)
      → (commit dump s es).0.keys ≡ (commit_all (s, 0) es).0.keys
  unfolding commit
  keys-commit s es = ground arith

  entries-commit :
      (s : Store Raw) (es : List EmissionEntry)
      → (commit dump s es).0.entries ≡ (commit_all (s, 0) es).0.entries
  unfolding commit
  entries-commit s es = ground arith

  path-commit_all :
      (acc : Store Raw × ℕ) (es : List EmissionEntry) → (commit_all acc es).0.path ≡ acc.0.path
  unfolding commit_all
  path-commit_all acc [] = refl
  path-commit_all (s, n) (e ∷ es) = path-commit_all (commit_one (s, n) e) es ∙ ground arith

  file-commit :
      (s : Store Raw) (es : List EmissionEntry)
      → s.path ≡ true
      → (commit dump s es).1 ≢ 0
      → (commit dump s es).0.file ≡ some (map dump (commit dump s es).0.entries)
  unfolding commit
  file-commit s es p n = ground (arith, path-commit_all (s, 0) es)

  added-commit :
      (s : Store Raw) (es : List EmissionEntry) → (commit dump s es).1 ≡ (commit_all (s, 0) es).1
  unfolding commit
  added-commit s es = ground arith

  IsConsistent-parts :
      (s t : Store Raw) → t.keys ≡ s.keys → t.entries ≡ s.entries → IsConsistent s → IsConsistent t
  IsConsistent-parts s t k e v = record {
    mirrored = rw (k, e) v.mirrored;
    distinct = rw e v.distinct;
  }

  commit-Known : (s : Store Raw) (es : List EmissionEntry) → Known s es → commit dump s es ≡ (s, 0)
  unfolding commit
  commit-Known s es h = rw (commit_all_again (s, 0) es h)

  -- Committing the same entries again adds nothing and leaves the store and its file alone.
  pub commit_idempotent :
      (s : Store Raw) (es : List EmissionEntry)
      → commit dump (commit dump s es).0 es ≡ ((commit dump s es).0, 0)
  commit_idempotent s es = commit-Known (commit dump s es).0 es (
      subst (λ ks. All (λ (e : EmissionEntry). contains ks e.line_key ≡ true) es)
        (sym (keys-commit s es)) (commit_all_knows (s, 0) es))

  -- When the key set of a store is that of its entries and no key has two entries, the same holds
  -- after a commit; the commit reports how many entries it added, and makes every key of its
  -- argument known.
  pub commit-IsConsistent :
      (s : Store Raw) (es : List EmissionEntry)
      → IsConsistent s
      → IsConsistent (commit dump s es).0
        × (length (commit dump s es).0.entries ≡ length s.entries + (commit dump s es).1)
        × Known (commit dump s es).0 es
  commit-IsConsistent s es v = (
    IsConsistent-parts (commit_all (s, 0) es).0 (commit dump s es).0 (keys-commit s es)
        (entries-commit s es) (commit_all-IsConsistent (s, 0) es v),
    rw (entries-commit, added-commit) (omega (arith, length-commit_all (s, 0) es)),
    subst (λ ks. All (λ (e : EmissionEntry). contains ks e.line_key ≡ true) es)
        (sym (keys-commit s es)) (commit_all_knows (s, 0) es),
  )

module _ {Raw : Type 0} (dump : EmissionEntry → Raw) (validate : Raw → EmissionEntry) where
  module _ (round_trip : (e : EmissionEntry) → validate (dump e) ≡ e) where
    load_raw-dump :
        (es : List EmissionEntry) (ks : List LineKey) (xs : List EmissionEntry)
        → (load_raw validate es ks (map dump xs)).0 ≡ es ++ xs
    unfolding load_raw
    load_raw-dump es ks [] = rw append-nil
    load_raw-dump es ks (x ∷ xs) =
        load_raw-dump (es ++ validate (dump x) ∷ []) ((validate (dump x)).line_key ∷ ks) xs
        ∙ (rw (round_trip, append_assoc))

    entries-open_store :
        (raws : Option (List Raw)) (xs : List EmissionEntry)
        → raws ≡ some (map dump xs)
        → (open_store validate true raws).entries ≡ xs
    unfolding open_store
    entries-open_store raws xs h = rw h (load_raw-dump [] [] xs)

    -- A store with a file that added something is the same after a restart: the reopened store has
    -- the entries of the store that was committed to. It needs that pydantic reads an entry back
    -- from its own JSON.
    pub reopen-commit :
        (s : Store Raw) (es : List EmissionEntry)
        → s.path ≡ true
        → (commit dump s es).1 ≢ 0
        → (open_store validate true (commit dump s es).0.file).entries
          ≡ (commit dump s es).0.entries
    reopen-commit s es p n = entries-open_store _ _ (file-commit dump s es p n)
