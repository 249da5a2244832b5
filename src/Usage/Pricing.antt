-- ===== src/Usage/Pricing.antt =====
-- `PricingComponent` and `ModelPricing` of pmqa/usage/pricing.py.
use pmqa.Usage.Ranks.{has_rank, has_repeated, sort_by}
use pmqa.Base.{
  Result, ok, ◌>>=◌, ◌>>◌, raise_if, ℕ, String, Bool, false, not, ◌&&◌, ◌||◌, Option, none, some,
  List, [], ◌∷◌, codes, ltb, leb, is_some, length,
}
use pmqa.Base.{
  Result, ok, ◌>>=◌, ◌>>◌, raise_if, ℕ, String, Bool, false, not, ◌&&◌, ◌||◌, Option, none, some,
  List, [], ◌∷◌, codes, ltb, leb, is_some, length,
}
use pmqa.Values.{Value}
use pmqa.Workflow.Models.{differs}
use pmqa.Run.Identifiers.{
  Error, validate_identifiers, invalid_currency, late_start, too_many_components,
  duplicate_component, undeclared_component, no_component, reason_missing, reason_without_absence,
}
use pmqa.Run.Dumps.{object_of, version, optional, time_value, array_of, check_tree, from_dict}
use pmqa.Run.Build.{optionally}
use pmqa.Usage.Decimals.{Decimal, canonical_decimal, serialize_decimal, canonical_text}
use pmqa.Usage.Evidence.{EvidenceUnavailableReason, reason_value}
use pmqa.Usage.Costs.{is_currency}

pub data PricingUnit : Type 0 where
  per_token per_1k_tokens per_1m_tokens : PricingUnit

pub data PricingComponentKind : Type 0 where
  input output cached_input : PricingComponentKind

pub record PricingComponent : Type 0 where
  pub amount : Decimal
  pub unit : PricingUnit

pub record ModelPricing : Type 0 where
  pub pricing_id : String
  pub provider : String
  pub model : String
  pub currency : String
  pub pricing_source_id : String
  pub pricing_version : String
  pub effective_from : ℕ
  pub effective_to : Option ℕ
  pub input_price : Option PricingComponent
  pub output_price : Option PricingComponent
  pub cached_input_price : Option PricingComponent
  pub unavailable_components : List PricingComponentKind
  pub unavailable_reason : Option EvidenceUnavailableReason

abbrev pub unit_value : PricingUnit → String
unit_value PricingUnit.per_token = "per_token"
unit_value PricingUnit.per_1k_tokens = "per_1k_tokens"
unit_value PricingUnit.per_1m_tokens = "per_1m_tokens"

abbrev pub kind_value : PricingComponentKind → String
kind_value PricingComponentKind.input = "input"
kind_value PricingComponentKind.output = "output"
kind_value PricingComponentKind.cached_input = "cached_input"

unfoldable pub dump_component : PricingComponent → Value
dump_component c = object_of (
    version
    ∷ ("amount", Value.text (serialize_decimal c.amount))
    ∷ ("unit", Value.text (unit_value c.unit))
    ∷ [])

-- The constructor of the class.
unfoldable pub pricing_component : PricingComponent → Result Error PricingComponent
unfolding dump_component
pricing_component c = do
  amount ← canonical_decimal c.amount
  let kept = record c { amount = amount }
  check_tree (dump_component kept)
  ok kept

-- `PricingComponent.from_dict(value.to_dict())`
unfoldable pub component_snapshot : PricingComponent → Result Error PricingComponent
unfolding pricing_component
component_snapshot c = from_dict dump_component (dump_component c) (
    canonical_text (serialize_decimal c.amount) >>= λ amount.
    pricing_component (record c { amount = amount }))

-- The order of the values of the kinds.
abbrev pub kind_rank : PricingComponentKind → ℕ
kind_rank PricingComponentKind.cached_input = 0
kind_rank PricingComponentKind.input = 1
kind_rank PricingComponentKind.output = 2

unfoldable pub names_kind : PricingComponentKind → List PricingComponentKind → Bool
unfolding has_rank
names_kind kind kinds = has_rank kind_rank (kind_rank kind) kinds

-- `_enum_tuple` of the kinds.
unfoldable pub kinds_of : List PricingComponentKind → Result Error (List PricingComponentKind)
unfolding has_repeated sort_by
kinds_of kinds = do
  raise_if (ltb 3 (length kinds)) too_many_components
  raise_if (has_repeated kind_rank kinds) duplicate_component
  ok (sort_by kind_rank kinds)

abbrev pub price_of : PricingComponentKind → ModelPricing → Option PricingComponent
price_of PricingComponentKind.input p = p.input_price
price_of PricingComponentKind.output p = p.output_price
price_of PricingComponentKind.cached_input p = p.cached_input_price

abbrev pub lacks : PricingComponentKind → ModelPricing → Bool
lacks kind p = not (is_some (price_of kind p))

-- The price is missing exactly if its kind is declared.
abbrev pub is_priced : PricingComponentKind → ModelPricing → Bool
is_priced kind p = not (differs (lacks kind p) (names_kind kind p.unavailable_components))

-- `actual_missing == set(self.unavailable_components)`
unfoldable pub is_declared_pricing : ModelPricing → Bool
unfolding names_kind
is_declared_pricing p =
    is_priced PricingComponentKind.input p
    && is_priced PricingComponentKind.output p
    && is_priced PricingComponentKind.cached_input p

unfoldable pub is_unpriced : ModelPricing → Bool
is_unpriced p =
    lacks PricingComponentKind.input p
    && lacks PricingComponentKind.output p
    && lacks PricingComponentKind.cached_input p

-- Some price is missing.
unfoldable pub is_incomplete : ModelPricing → Bool
is_incomplete p =
    lacks PricingComponentKind.input p
    || lacks PricingComponentKind.output p
    || lacks PricingComponentKind.cached_input p

abbrev pub ends_by : Option ℕ → ℕ → Bool
ends_by none start = false
ends_by (some time) start = leb time start

-- `validate_pricing`
unfoldable pub check_pricing : ModelPricing → Result Error (Unit {0})
unfolding is_declared_pricing is_unpriced is_incomplete
check_pricing p = do
  raise_if (ends_by p.effective_to p.effective_from) late_start
  raise_if (not (is_declared_pricing p)) undeclared_component
  raise_if (is_unpriced p) no_component
  raise_if (is_incomplete p && not (is_some p.unavailable_reason)) reason_missing
  raise_if (not (is_incomplete p) && is_some p.unavailable_reason) reason_without_absence

unfoldable pub dump_pricing : ModelPricing → Value
unfolding dump_component
dump_pricing p = object_of (
    version
    ∷ ("pricing_id", Value.text p.pricing_id)
    ∷ ("provider", Value.text p.provider)
    ∷ ("model", Value.text p.model)
    ∷ ("currency", Value.text p.currency)
    ∷ ("pricing_source_id", Value.text p.pricing_source_id)
    ∷ ("pricing_version", Value.text p.pricing_version)
    ∷ ("effective_from", time_value p.effective_from)
    ∷ ("effective_to", optional time_value p.effective_to)
    ∷ ("input_price", optional dump_component p.input_price)
    ∷ ("output_price", optional dump_component p.output_price)
    ∷ ("cached_input_price", optional dump_component p.cached_input_price)
    ∷ (
      "unavailable_components",
      array_of (λ kind. Value.text (kind_value kind)) p.unavailable_components,
    )
    ∷ ("unavailable_reason", optional (λ r. Value.text (reason_value r)) p.unavailable_reason)
    ∷ [])

-- The constructor of the class.
unfoldable pub model_pricing : ModelPricing → Result Error ModelPricing
unfolding kinds_of component_snapshot check_pricing dump_pricing
model_pricing p = do
  validate_identifiers
      (p.pricing_id ∷ p.provider ∷ p.model ∷ p.pricing_source_id ∷ p.pricing_version ∷ [])
  raise_if (not (is_currency (codes p.currency))) invalid_currency
  input_price ← optionally component_snapshot p.input_price
  output_price ← optionally component_snapshot p.output_price
  cached_price ← optionally component_snapshot p.cached_input_price
  kinds ← kinds_of p.unavailable_components
  let kept = record p {
    input_price = input_price;
    output_price = output_price;
    cached_input_price = cached_price;
    unavailable_components = kinds;
  }
  check_tree (dump_pricing kept)
  check_pricing kept
  ok kept
