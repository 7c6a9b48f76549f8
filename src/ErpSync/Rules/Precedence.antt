-- ===== src/ErpSync/Rules/Precedence.antt =====
-- Item rules win over vendor rules, and these over GL rules; a line with a matching rule is mapped.
use mathlib.Core.Path.{subst}
use one_capture.Prelude.{
  ◌≡◌, refl, sym, ◌∙◌, Bool, true, false, ◌&&◌, Option, none, some, List, [], ◌∷◌, arith,
  Bool-cases, inl, inr, ◌⊎◌, any, keep, find_first, eq_of_some, Among,
}
use one_capture.ErpSync.Domain.{SourceRecord, MappingRule, RuleSet}
use one_capture.ErpSync.Rules.{
  RuleMatch, Dimension, item, vendor, gl, dimension, same_dimension, matches, first_in, precedence,
  match_rule, with_version,
}

-- Some rule of this dimension matches.
abbrev applies : SourceRecord → List MappingRule → Dimension → Bool
applies r rules dim = any (λ rule. same_dimension (dimension rule) dim && matches r rule) rules

abbrev chosen : SourceRecord → Dimension → List MappingRule → Option MappingRule
chosen r dim rules =
    find_first (matches r) (keep (λ rule. same_dimension (dimension rule) dim) rules)

-- What a choice within one dimension is.
record IsChoice (r : SourceRecord) (dim : Dimension) (rules : List MappingRule) (rule : MappingRule)
    : Type 0 where
  stands : Among rule rules
  in_dimension : same_dimension (dimension rule) dim ≡ true
  fits : matches r rule ≡ true

chosen_hit :
    (r : SourceRecord) (dim : Dimension) (x : MappingRule) (xs : List MappingRule)
    → (same_dimension (dimension x) dim && matches r x) ≡ true
    → chosen r dim (x ∷ xs) ≡ some x
chosen_hit r dim x xs h = ground arith

chosen_skip :
    (r : SourceRecord) (dim : Dimension) (x : MappingRule) (xs : List MappingRule)
    → (same_dimension (dimension x) dim && matches r x) ≡ false
    → chosen r dim (x ∷ xs) ≡ chosen r dim xs
chosen_skip r dim x xs h = ground arith

chosen_sound :
    (r : SourceRecord) (dim : Dimension) (rules : List MappingRule) (rule : MappingRule)
    → chosen r dim rules ≡ some rule
    → IsChoice r dim rules rule
chosen_sound r dim [] rule h = cc
chosen_sound r dim (x ∷ xs) rule h =
    elim (Bool-cases (same_dimension (dimension x) dim && matches r x)) [
      | inl both ↦
          subst (IsChoice r dim (x ∷ xs)) (eq_of_some (sym (chosen_hit r dim x xs both) ∙ h))
            (record { stands = inl refl; in_dimension = ground arith; fits = ground arith })
      | inr skip ↦ later (chosen_sound r dim xs rule (sym (chosen_skip r dim x xs skip) ∙ h))
    ]
  where
    later : IsChoice r dim xs rule → IsChoice r dim (x ∷ xs) rule
    later c = record { stands = inr c.stands; in_dimension = c.in_dimension; fits = c.fits }

chosen_complete :
    (r : SourceRecord) (dim : Dimension) (rules : List MappingRule)
    → chosen r dim rules ≡ none
    → applies r rules dim ≡ false
chosen_complete r dim [] h = refl
chosen_complete r dim (x ∷ xs) h = ground (arith, chosen_complete r dim xs)

-- What `match_rule` promises of the rule that it returns.
pub record Governs (r : SourceRecord) (rules : RuleSet) (m : RuleMatch) : Type 0 where
  pub stands : Among m.rule rules.rules
  pub fits : matches r m.rule ≡ true
  pub versioned : m.rule_version ≡ rules.version
  pub after_item :
      same_dimension (dimension m.rule) item ≡ false → applies r rules.rules item ≡ false
  pub after_vendor :
      same_dimension (dimension m.rule) gl ≡ true → applies r rules.rules vendor ≡ false

abbrev pub Nothing : SourceRecord → List MappingRule → Type 0
Nothing r rules =
    (applies r rules item ≡ false) × (applies r rules vendor ≡ false) × (applies r rules gl ≡ false)

-- Where the search through the dimensions ends.
first_in_cases :
    (r : SourceRecord) (rules : List MappingRule) (rule : MappingRule)
    → first_in r rules precedence ≡ some rule
    → (chosen r item rules ≡ some rule)
      ⊎ ((chosen r item rules ≡ none)
          × ((chosen r vendor rules ≡ some rule)
              ⊎ ((chosen r vendor rules ≡ none) × (chosen r gl rules ≡ some rule))))
unfolding first_in
first_in_cases r rules rule h = ground arith

first_in-none :
    (r : SourceRecord) (rules : List MappingRule)
    → first_in r rules precedence ≡ none
    → (chosen r item rules ≡ none) × (chosen r vendor rules ≡ none) × (chosen r gl rules ≡ none)
unfolding first_in
first_in-none r rules h = ground arith

module _ (r : SourceRecord) (rules : List MappingRule) (rule : MappingRule) where
  -- The rule and the version that a hit in the list of rules gives.
  abbrev Choice : Type 0
  Choice =
      Among rule rules
      × (matches r rule ≡ true)
      × (same_dimension (dimension rule) item ≡ false → applies r rules item ≡ false)
      × (same_dimension (dimension rule) gl ≡ true → applies r rules vendor ≡ false)

  same_gl_item : (d : Dimension) → same_dimension d gl ≡ true → same_dimension d item ≡ true → ⊥
  same_gl_item item h k = cc
  same_gl_item vendor h k = cc
  same_gl_item gl h k = cc

  same_gl_vendor : (d : Dimension) → same_dimension d gl ≡ true → same_dimension d vendor ≡ true → ⊥
  same_gl_vendor item h k = cc
  same_gl_vendor vendor h k = cc
  same_gl_vendor gl h k = cc

  first_in_sound : first_in r rules precedence ≡ some rule → Choice
  first_in_sound h = elim (first_in_cases r rules rule h) [
    | inl i ↦ by_item (chosen_sound r item rules rule i)
    | inr (ni, inl v) ↦
        by_vendor (chosen_complete r item rules ni) (chosen_sound r vendor rules rule v)
    | inr (ni, inr (nv, g)) ↦
        by_gl (chosen_complete r item rules ni) (chosen_complete r vendor rules nv)
          (chosen_sound r gl rules rule g)
  ]
    where
      by_item : IsChoice r item rules rule → Choice
      by_item c = (
        c.stands,
        c.fits,
        (λ h. cc (sym h ∙ c.in_dimension)),
        λ h. absurd (same_gl_item _ h c.in_dimension),
      )

      by_vendor : applies r rules item ≡ false → IsChoice r vendor rules rule → Choice
      by_vendor ni c =
          (c.stands, c.fits, (λ h. ni), λ h. absurd (same_gl_vendor _ h c.in_dimension))

      by_gl :
          applies r rules item ≡ false
          → applies r rules vendor ≡ false
          → IsChoice r gl rules rule
          → Choice
      by_gl ni nv c = (c.stands, c.fits, (λ h. ni), λ h. nv)

-- A returned rule is one of the ruleset's, matches the line and carries the ruleset's version. If
-- it is no item rule, then no item rule matches; if it is a GL rule, then no vendor rule matches.
pub match_rule-Governs :
    (r : SourceRecord) (rules : RuleSet) {m : RuleMatch}
    → match_rule r rules ≡ some m
    → Governs r rules m
unfolding match_rule
match_rule-Governs r rules h = go (first_in r rules.rules precedence) refl h
  where
    go :
        (o : Option MappingRule) {m : RuleMatch}
        → first_in r rules.rules precedence ≡ o
        → with_version rules.version o ≡ some m
        → Governs r rules m
    go none e h = cc
    go (some rule) e h =
        let (s, f, i, v) = first_in_sound r rules.rules rule e in
        subst (Governs r rules) (eq_of_some h)
          (record { stands = s; fits = f; versioned = refl; after_item = i; after_vendor = v })

-- A line that is left unmapped is matched by no rule of any dimension.
pub match_rule-none :
    (r : SourceRecord) (rules : RuleSet) → match_rule r rules ≡ none → Nothing r rules.rules
unfolding match_rule
match_rule-none r rules h =
    let (i, v, g) = first_in-none r rules.rules (ground arith) in
    (chosen_complete r item _ i, chosen_complete r vendor _ v, chosen_complete r gl _ g)
