-- ===== src/Usage/Costs.antt =====
-- `CostEvidence` of pmqa/usage/contracts.py.
use pmqa.Base.{
  Result, ok, ◌>>=◌, ◌>>◌, raise_if, ℕ, String, Bool, true, false, not, ◌&&◌, ◌||◌, Option, none,
  some, List, [], ◌∷◌, codes, ◌==◌, is_some, length,
}
use pmqa.Base.{
  Result, ok, ◌>>=◌, ◌>>◌, raise_if, ℕ, String, Bool, true, false, not, ◌&&◌, ◌||◌, Option, none,
  some, List, [], ◌∷◌, codes, ◌==◌, is_some, length,
}
use pmqa.Values.{Value}
use pmqa.Run.Texts.{in_range, for_all}
use pmqa.Run.Identifiers.{
  Error, validate_optional, invalid_currency, incomplete_pricing, money_missing, money_unavailable,
  estimate_without_pricing, money_not_allowed, unavailable_without_reason, subscription_unavailable,
}
use pmqa.Run.Dumps.{object_of, version, optional, time_value, check_tree}
use pmqa.Usage.Decimals.{Decimal, canonical_decimal, serialize_decimal, canonical_text}
use pmqa.Usage.Evidence.{CostType, EvidenceUnavailableReason, reason_value}

pub record CostEvidence : Type 0 where
  pub cost_type : CostType
  pub amount : Option Decimal
  pub currency : Option String
  pub pricing_source_id : Option String
  pub pricing_version : Option String
  pub pricing_effective_at : Option ℕ
  pub unavailable_reason : Option EvidenceUnavailableReason

-- `_CURRENCY_PATTERN.fullmatch`
unfoldable pub is_currency : List ℕ → Bool
is_currency value = length value == 3 && for_all (in_range b'A' b'Z') value

abbrev pub check_currency : Option String → Result Error (Unit {0})
check_currency none = ok tt
check_currency (some value) = raise_if (not (is_currency (codes value))) invalid_currency

abbrev pub check_amount : Option Decimal → Result Error (Unit {0})
check_amount none = ok tt
check_amount (some value) = canonical_decimal value >>= λ _. ok tt

unfoldable pub has_all_pricing : CostEvidence → Bool
has_all_pricing c =
    is_some c.pricing_source_id && is_some c.pricing_version && is_some c.pricing_effective_at

unfoldable pub has_any_pricing : CostEvidence → Bool
has_any_pricing c =
    is_some c.pricing_source_id || is_some c.pricing_version || is_some c.pricing_effective_at

-- The tests for a cost in money, which is an estimate or not.
unfoldable pub check_money : Bool → CostEvidence → Result Error (Unit {0})
unfolding has_all_pricing
check_money is_estimate c = do
  raise_if (not (is_some c.amount) || not (is_some c.currency)) money_missing
  raise_if (is_some c.unavailable_reason) money_unavailable
  raise_if (is_estimate && not (has_all_pricing c)) estimate_without_pricing

-- The test for any other cost.
unfoldable pub check_no_money : CostEvidence → Result Error (Unit {0})
unfolding has_any_pricing
check_no_money c =
    raise_if (is_some c.amount || is_some c.currency || has_any_pricing c) money_not_allowed

-- The tests for the type of the cost.
unfoldable pub check_cost_type : CostType → CostEvidence → Result Error (Unit {0})
unfolding check_money check_no_money
check_cost_type CostType.provider_reported c = check_money false c
check_cost_type CostType.estimated c = check_money true c
check_cost_type CostType.subscription_included c = do
  check_no_money c
  raise_if (is_some c.unavailable_reason) subscription_unavailable
check_cost_type CostType.unavailable c = do
  check_no_money c
  raise_if (not (is_some c.unavailable_reason)) unavailable_without_reason

-- `validate_evidence`
unfoldable pub check_cost : CostEvidence → Result Error (Unit {0})
unfolding check_cost_type has_any_pricing has_all_pricing
check_cost c = do
  raise_if (has_any_pricing c && not (has_all_pricing c)) incomplete_pricing
  check_cost_type c.cost_type c

abbrev pub cost_type_value : CostType → String
cost_type_value CostType.provider_reported = "provider_reported"
cost_type_value CostType.estimated = "estimated"
cost_type_value CostType.subscription_included = "subscription_included"
cost_type_value CostType.unavailable = "unavailable"

unfoldable pub dump_cost : CostEvidence → Value
dump_cost c = object_of (
    version
    ∷ ("cost_type", Value.text (cost_type_value c.cost_type))
    ∷ ("amount", optional (λ a. Value.text (serialize_decimal a)) c.amount)
    ∷ ("currency", optional Value.text c.currency)
    ∷ ("pricing_source_id", optional Value.text c.pricing_source_id)
    ∷ ("pricing_version", optional Value.text c.pricing_version)
    ∷ ("pricing_effective_at", optional time_value c.pricing_effective_at)
    ∷ ("unavailable_reason", optional (λ r. Value.text (reason_value r)) c.unavailable_reason)
    ∷ [])

-- The constructor of the class.
unfoldable pub cost_evidence : CostEvidence → Result Error CostEvidence
unfolding check_cost dump_cost
cost_evidence c = do
  check_amount c.amount
  check_currency c.currency
  validate_optional c.pricing_source_id
  validate_optional c.pricing_version
  check_tree (dump_cost c)
  check_cost c
  ok c

-- The amount of a dumped cost, which is a text.
abbrev pub reread_amount : Option Decimal → Result Error (Option Decimal)
reread_amount none = ok none
reread_amount (some value) = canonical_text (serialize_decimal value) >>= λ amount. ok (some amount)

-- The validation of the fields of a dumped cost.
unfoldable pub rebuild_cost : CostEvidence → Result Error CostEvidence
unfolding cost_evidence
rebuild_cost c = do amount ← reread_amount c.amount; cost_evidence (record c { amount = amount })
