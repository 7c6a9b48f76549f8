-- ===== src/ErpSync/Rules.antt =====
-- The rule engine: src/erpsync/rules/engine.py.
pub mod Precedence
use one_capture.Prelude.{
  Bool, true, false, Option, none, some, List, [], ◌∷◌, ◌++◌, ◌==◌, list_eq, nat_eq, option_eq,
  if◌then◌else◌, keep, find_first,
}
use one_capture.Prelude.Text.{Text, strip, upper, lower, is_infix}
use one_capture.ErpSync.Domain.{SourceRecord, MappingRule, RuleSet}

pub record RuleMatch : Type 0 where
  pub rule : MappingRule
  pub rule_version : Text

pub data Dimension : Type 0 where
  item vendor gl : Dimension

-- `MappingRule.dimension`
unfoldable pub dimension_of : Option Text → Option Text → Dimension
dimension_of (some i) v = item
dimension_of none (some v) = vendor
dimension_of none none = gl

unfoldable pub dimension : MappingRule → Dimension
unfolding dimension_of
dimension rule = dimension_of rule.item_code rule.vendor_match

abbrev pub same_dimension : Dimension → Dimension → Bool
same_dimension item item = true
same_dimension vendor vendor = true
same_dimension gl gl = true
same_dimension _ _ = false

-- One text of the record against one of the rule. The rule has its text, by the choice of the
-- dimension; of a rule with none of the three the engine would raise, here it matches nothing.
unfoldable pub compare_texts : (Text → Text → Bool) → Option Text → Option Text → Bool
compare_texts test none _ = false
compare_texts test (some r) none = false
compare_texts test (some r) (some t) = test r t

unfoldable pub matches_in : Dimension → SourceRecord → MappingRule → Bool
matches_in item record_ rule =
    compare_texts (λ r t. upper (strip r) == upper (strip t)) record_.item_code rule.item_code
matches_in vendor record_ rule =
    compare_texts (λ r t. is_infix (lower (strip t)) (lower (strip r))) record_.vendor_name
      rule.vendor_match
matches_in gl record_ rule =
    compare_texts (λ r t. strip r == strip t) record_.gl_account rule.gl_account

-- `_matches(record, rule)`
unfoldable pub matches : SourceRecord → MappingRule → Bool
unfolding matches_in compare_texts
matches record_ rule = matches_in (dimension rule) record_ rule

abbrev pub precedence : List Dimension
precedence = item ∷ vendor ∷ gl ∷ []

unfoldable pub first_in : SourceRecord → List MappingRule → List Dimension → Option MappingRule
first_in record_ rules [] = none
first_in record_ rules (dim ∷ dims) =
    let rest = first_in record_ rules dims in
    elim (find_first (matches record_) (keep (λ r. same_dimension (dimension r) dim) rules)) [
      | some rule ↦ some rule
      | none ↦ rest
    ]

abbrev with_version : Text → Option MappingRule → Option RuleMatch
with_version v none = none
with_version v (some rule) = some (record { rule = rule; rule_version = v })

-- `match_rule(record, ruleset)`
unfoldable pub match_rule : SourceRecord → RuleSet → Option RuleMatch
unfolding first_in
match_rule record_ rules = with_version rules.version (first_in record_ rules.rules precedence)
