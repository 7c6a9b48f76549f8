-- ===== src/ErpSync/Validate/Keys.antt =====
-- What validation promises of the rows that it accepts.
use native.Mathlib.Nat.{add-zero}
use mathlib.Core.Path.{subst}
use one_capture.Prelude.{
  ℕ, ◌+◌, ◌≡◌, refl, sym, ap, ◌∙◌, Bool, true, false, Option, none, some, List, [], ◌∷◌, ◌++◌, map,
  arith, length, length-append, contains, contains-append, IsDistinct, IsDistinct-append_one,
  list_eq, nat_eq, All, All-append, is_some, lookup,
}
use one_capture.Prelude.Int.{ℤ}
use one_capture.Prelude.Text.{Text, codes, strip, lstrip, truthy, truthy-strip-strip}
use one_capture.Prelude.Result.{ok, >>=-eq-ok, ok-injective}
use one_capture.Decimal.Parse.{Parsed, finite, special, invalid, decimal_of_text}
use one_capture.ErpSync.Domain.{LineKey, key_eq, SourceRecord, RowStatus, RowOutcome, duplicate}
use one_capture.ErpSync.Validate.{
  Row, Mapping, ParsedRow, ValidationResult, Verdict, reject, repeat_of, accept, abort, Cell, blank,
  get, key_of, Scan, outcome, start, judge, judge_key, judge_numbers, apply_verdict, validate_from,
  validate_rows, record_of, is_bad, is_not_finite, parse_decimal, judge_missing, missing, cell_at,
  cell_text, cell_of, cleaned,
}

abbrev pub keys : List ParsedRow → List LineKey
keys ps = map (λ p. key_of p.source) ps

truthy-strip-cell_text : (v : Option Text) → truthy (strip (cell_text v)) ≡ truthy (cell_text v)
truthy-strip-cell_text none = unfold strip lstrip in refl
truthy-strip-cell_text (some v) = truthy-strip-strip v

truthy-strip-cell_at :
    (h : Option Text) (raw : Row) → truthy (strip (cell_at h raw)) ≡ truthy (cell_at h raw)
truthy-strip-cell_at none raw = unfold strip lstrip in refl
truthy-strip-cell_at (some header) raw = truthy-strip-cell_text (lookup header raw)

truthy-strip-get :
    (raw : Row) (preset : Mapping) (f : Text)
    → truthy (strip (get raw preset f)) ≡ truthy (get raw preset f)
unfolding get
truthy-strip-get raw preset f = truthy-strip-cell_at (lookup f preset) raw

abbrev is_blank : Cell → Bool
is_blank blank = true
is_blank _ = false

parse_decimal_filled : (s : Text) → truthy (strip s) ≡ true → is_blank (parse_decimal s) ≡ false
unfolding parse_decimal
parse_decimal_filled s h = rw h (cell_of_filled (decimal_of_text (cleaned (strip s))))
  where
    cell_of_filled : (p : Parsed) → is_blank (cell_of p) ≡ false
    cell_of_filled (finite d) = refl
    cell_of_filled special = refl
    cell_of_filled invalid = refl

module _ (preset : Mapping) (client_id : Text) where
  missing_none :
      (raw : Row)
      → missing preset client_id raw ≡ []
      → is_blank (parse_decimal (get raw preset (codes "amount"))) ≡ false
  missing_none raw h =
      parse_decimal_filled _
        (truthy-strip-get raw preset (codes "amount") ∙ (unfold missing in ground arith))

  -- What is known of an accepted record: its key is new, and it has an amount.
  abbrev Accepted : List LineKey → List LineKey → SourceRecord → Type 0
  Accepted seen in_file r =
      (contains seen (key_of r) ≡ false)
      × (contains in_file (key_of r) ≡ false)
      × (is_some r.amount ≡ true)

  judge_key_fresh :
      (raw : Row) (seen in_file : List LineKey) (n : ℤ) (a q : Cell) {r : SourceRecord}
      → is_blank a ≡ false
      → is_bad a ≡ false
      → judge_key preset client_id raw seen in_file n a q ≡ accept r
      → Accepted seen in_file r
  unfolding judge_key record_of is_not_finite is_bad
  judge_key_fresh raw seen in_file n a q filled good h = ground arith

  judge_numbers_fresh :
      (raw : Row) (seen in_file : List LineKey) (n : Option ℤ) {r : SourceRecord}
      → is_blank (parse_decimal (get raw preset (codes "amount"))) ≡ false
      → judge_numbers preset client_id raw seen in_file n ≡ accept r
      → Accepted seen in_file r
  unfolding judge_numbers
  judge_numbers_fresh raw seen in_file none filled h = cc
  judge_numbers_fresh raw seen in_file (some n) {r} filled h = ground (
    arith,
    judge_key_fresh raw seen in_file n (parse_decimal (get raw preset (codes "amount")))
        (parse_decimal (get raw preset (codes "quantity"))) {r = r},
  )

  judge_missing_fresh :
      (raw : Row) (seen in_file : List LineKey) (fs : List Text) {r : SourceRecord}
      → missing preset client_id raw ≡ fs
      → judge_missing preset client_id raw seen in_file fs ≡ accept r
      → Accepted seen in_file r
  unfolding judge_missing
  judge_missing_fresh raw seen in_file [] e h =
      judge_numbers_fresh raw seen in_file _ (missing_none raw e) h
  judge_missing_fresh raw seen in_file (f ∷ fs) e h = cc

  judge_fresh :
      (raw : Row) (seen in_file : List LineKey) {r : SourceRecord}
      → judge preset client_id raw seen in_file ≡ accept r
      → Accepted seen in_file r
  unfolding judge
  judge_fresh raw seen in_file h = judge_missing_fresh raw seen in_file _ refl h

-- The invariant of the loop over the rows.
record Inv (seen : List LineKey) (i : ℕ) (s : Scan) : Type 0 where
  counted : length s.result.accepted + length s.result.outcomes + 1 ≡ i
  distinct : IsDistinct (keys s.result.accepted)
  fresh : All (λ k. contains seen k ≡ false) (keys s.result.accepted)
  priced : All (λ (p : ParsedRow). is_some p.source.amount ≡ true) s.result.accepted
  remembered : (k : LineKey) → contains s.in_file k ≡ contains (keys s.result.accepted) k

keys-append :
    (ps : List ParsedRow) (p : ParsedRow) → keys (ps ++ p ∷ []) ≡ keys ps ++ key_of p.source ∷ []
keys-append [] p = refl
keys-append (q ∷ ps) p = ap (◌∷◌ (key_of q.source)) (keys-append ps p)

module _ (seen : List LineKey) where
  Inv-outcome :
      (i : ℕ) (s : Scan) (o : RowOutcome)
      → Inv seen i s
      → Inv seen
          (i + 1)
          (record s { result = record s.result { outcomes = s.result.outcomes ++ o ∷ [] } })
  Inv-outcome i s o v = record {
    counted = omega (arith, v.counted, length-append s.result.outcomes (o ∷ []));
    distinct = v.distinct;
    fresh = v.fresh;
    priced = v.priced;
    remembered = v.remembered;
  }

  abbrev accepting : ℕ → Scan → SourceRecord → Scan
  accepting i s r = record s {
    result = record s.result {
      accepted = s.result.accepted ++ (record { row_index = i; source = r }) ∷ [];
    };
    in_file = key_of r ∷ s.in_file;
  }

  Inv-accept :
      (preset : Mapping) (client_id : Text) (i : ℕ) (s : Scan) (r : SourceRecord)
      → Accepted preset client_id seen s.in_file r
      → Inv seen i s
      → Inv seen (i + 1) (accepting i s r)
  Inv-accept preset client_id i s r (new, unseen, amount) v =
      let p : ParsedRow = record { row_index = i; source = r } in
      record {
        counted = omega (arith, v.counted, length-append s.result.accepted (p ∷ []));
        distinct = rw keys-append (
            IsDistinct-append_one (keys s.result.accepted) (key_of r) v.distinct
              (sym (v.remembered (key_of r)) ∙ unseen));
        fresh =
            rw keys-append
              (All-append _ (keys s.result.accepted) (key_of r ∷ []) v.fresh (new, tt));
        priced = All-append _ s.result.accepted (p ∷ []) v.priced (amount, tt);
        remembered = λ k.
            rw
              (
                keys-append s.result.accepted p,
                contains-append k (keys s.result.accepted) (key_of r ∷ []),
              )
              (ground (arith, v.remembered k));
      }

  module _ (preset : Mapping) (client_id : Text) where
    Inv-verdict :
        (raw : Row) (i : ℕ) (s : Scan) (v : Verdict) {s' : Scan}
        → judge preset client_id raw seen s.in_file ≡ v
        → Inv seen i s
        → apply_verdict i s v ≡ ok s'
        → Inv seen (i + 1) s'
    Inv-verdict raw i s (reject m) e inv h =
        subst (Inv seen (i + 1)) (ok-injective h)
          (Inv-outcome i s (outcome i RowStatus.rejected none m) inv)
    Inv-verdict raw i s (repeat_of k m) e inv h =
        subst (Inv seen (i + 1)) (ok-injective h)
          (Inv-outcome i s (outcome i duplicate (some k) m) inv)
    Inv-verdict raw i s (accept r) e inv h =
        subst (Inv seen (i + 1)) (ok-injective h) (
          Inv-accept preset client_id i s r (judge_fresh preset client_id raw seen s.in_file e) inv)
    Inv-verdict raw i s abort e inv h = cc

    validate_from-Inv :
        (i : ℕ) (s : Scan) (rows : List Row) {s' : Scan}
        → Inv seen i s
        → validate_from preset client_id seen i s rows ≡ ok s'
        → Inv seen (i + length rows) s'
    unfolding validate_from
    validate_from-Inv i s [] inv h = subst (Inv seen (i + 0)) (ok-injective h) (rw add-zero inv)
    validate_from-Inv i s (raw ∷ rows) {s'} inv h =
        let (s₁, e, rest) = >>=-eq-ok _ _ h in
        subst (λ n. Inv seen n s') (omega arith)
          (validate_from-Inv (i + 1) s₁ rows (Inv-verdict raw i s _ refl inv e) rest)

-- What a validated file is: every row is accepted or has an outcome, and never both; the accepted
-- keys are distinct and none is known; and every accepted line has an amount.
pub record IsValidated (seen : List LineKey) (total : ℕ) (v : ValidationResult) : Type 0 where
  pub partition : length v.accepted + length v.outcomes ≡ total
  pub distinct : IsDistinct (keys v.accepted)
  pub fresh : All (λ k. contains seen k ≡ false) (keys v.accepted)
  pub priced : All (λ (p : ParsedRow). is_some p.source.amount ≡ true) v.accepted

-- Whenever validation returns, there are as many accepted rows and outcomes together as the file
-- has rows, the accepted keys are distinct and none was known, and every accepted line has an
-- amount.
pub validate_rows-IsValidated :
    (preset : Mapping) (client_id : Text) (seen : List LineKey) (rows : List Row)
    {v : ValidationResult}
    → validate_rows preset client_id seen rows ≡ ok v
    → IsValidated seen (length rows) v
unfolding validate_rows
validate_rows-IsValidated preset client_id seen rows h =
    let (s, e, last) = >>=-eq-ok _ _ h in
    let inv =
      validate_from-Inv seen preset client_id 1 (start preset client_id seen) rows
        (record {
          counted = omega arith;
          distinct = tt;
          fresh = tt;
          priced = tt;
          remembered = λ k. refl;
        })
        e in
    subst (IsValidated seen (length rows)) (ok-injective last) (record {
      partition = omega (arith, inv.counted);
      distinct = inv.distinct;
      fresh = inv.fresh;
      priced = inv.priced;
    })
