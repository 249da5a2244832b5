-- ===== src/Tests/Usage.antt =====
-- The record of an invocation of a model, with partial usage and an estimated cost.
use pmqa.Usage.Ranks.{has_rank, has_repeated, sort_by, insert_by}
use pmqa.Usage.Pricing.{
  PricingUnit, PricingComponentKind, PricingComponent, ModelPricing, model_pricing,
  pricing_component, component_snapshot, dump_component, dump_pricing, check_pricing, kinds_of,
  names_kind, is_declared_pricing, is_unpriced, is_incomplete,
}
use pmqa.Usage.Priced.{IsPricing, model_pricing-IsPricing}
use pmqa.Base.{collect, ok, ◌≡◌, refl, false, none, some, [], ◌∷◌}
use pmqa.Base.Digits.{padded, decimal, decimal_from}
use pmqa.Security.{is_plain}
use pmqa.Run.Timestamps.{serialize_timestamp, month_day}
use pmqa.Run.Dumps.{from_dict, check_tree}
use pmqa.Run.Plain.{
  is_plain_json, count_plain, to_json, plain_json_equal, enter_plain, has_key, has_keys,
}
use pmqa.Run.Identifiers.{
  validate_identifiers, validate_run_identifier, has_double_dot, identifier_matches,
  is_run_identifier,
}
use pmqa.Base.{collect, ok, ◌≡◌, refl, false, none, some, [], ◌∷◌}
use pmqa.Values.{negsuc}
use pmqa.Run.Parts.{RunErrorCategory}
use pmqa.Usage.Decimals.{
  Decimal, finite, canonical_decimal, serialized_length, serialize_decimal, canonical_text,
  read_decimal, read_digits, read_fraction, strip_zeros,
}
use pmqa.Usage.Evidence.{
  TokenUsageEvidence, TokenFieldAbsence, TokenField, UsageSource, CostType,
  EvidenceUnavailableReason, token_usage_evidence, token_field_absence, dump_absence, dump_usage,
  check_usage, is_declared, is_all_missing, declares,
}
use pmqa.Usage.Costs.{
  CostEvidence, cost_evidence, rebuild_cost, dump_cost, check_cost, check_cost_type, check_money,
  check_no_money, has_all_pricing, has_any_pricing, is_currency,
}
use pmqa.Usage.Invocations.{
  AiInvocationRecord, AiInvocationStatus, ai_invocation_record, check_ai_fields, check_ai_lifecycle,
  check_metadata_values, check_category, dump_ai_invocation,
}
use pmqa.Usage.Accounts.{IsAccount, token_usage_evidence-IsAccount}
use pmqa.Usage.Lifecycle.{IsAccounted, ai_invocation_record-IsAccounted}
use pmqa.Usage.Rereading.{IsReread, canonical_text-serialize_decimal}

abbrev cached_absent : TokenFieldAbsence
cached_absent = record {
  field = TokenField.cached_input_tokens;
  reason = EvidenceUnavailableReason.not_reported;
}

abbrev total_absent : TokenFieldAbsence
total_absent = record {
  field = TokenField.total_tokens;
  reason = EvidenceUnavailableReason.not_collected;
}

abbrev reported : TokenUsageEvidence
reported = record {
  source = UsageSource.provider_reported;
  input_tokens = some 120;
  output_tokens = some 30;
  cached_input_tokens = none;
  total_tokens = none;
  unavailable_fields = total_absent ∷ cached_absent ∷ [];
}

abbrev ordered : TokenUsageEvidence
ordered = record reported { unavailable_fields = cached_absent ∷ total_absent ∷ [] }

abbrev price : Decimal
price = finite false 1250 (negsuc 3)

abbrev estimate : CostEvidence
estimate = record {
  cost_type = CostType.estimated;
  amount = some price;
  currency = some "USD";
  pricing_source_id = some "catalog";
  pricing_version = some "1";
  pricing_effective_at = some 5;
  unavailable_reason = none;
}

abbrev call : AiInvocationRecord
call = record {
  invocation_id = "model-call-2";
  session_id = "session-1";
  run_id = "run-1";
  runner_invocation_id = some "call-1";
  provider = "copilot";
  model = none;
  model_unavailable_reason = some EvidenceUnavailableReason.not_reported;
  operation = "explore";
  status = AiInvocationStatus.failed;
  started_at = 20;
  completed_at = 25;
  duration_ms = 5;
  attempt_number = 2;
  retry_of_invocation_id = some "model-call-1";
  fallback_from_invocation_id = none;
  usage = ordered;
  cost = estimate;
  error_category = some RunErrorCategory.timeout;
}

abbrev kept : AiInvocationRecord
kept = record call {
  usage = ordered;
  cost = record estimate { amount = some (finite false 125 (negsuc 2)) };
}

evaluated :
    (token_usage_evidence reported ≡ ok ordered)
    × (ai_invocation_record call ≡ ok kept)
    × (serialize_decimal price ≡ "0.125")
unfolding has_repeated token_usage_evidence token_field_absence dump_absence dump_usage check_usage
    is_declared is_all_missing declares has_rank sort_by insert_by cost_evidence rebuild_cost
    dump_cost check_cost check_cost_type check_money check_no_money has_all_pricing has_any_pricing
    is_currency ai_invocation_record check_ai_fields check_ai_lifecycle check_metadata_values
    check_category dump_ai_invocation canonical_decimal serialized_length serialize_decimal
    canonical_text read_decimal read_digits read_fraction strip_zeros from_dict is_plain_json
    count_plain to_json serialize_timestamp collect validate_identifiers validate_run_identifier
    is_plain check_tree plain_json_equal padded decimal decimal_from has_double_dot
    identifier_matches is_run_identifier enter_plain has_key has_keys month_day
evaluated = (refl, refl, refl)

token_usage_evidence-IsAccount_example : IsAccount reported ordered
token_usage_evidence-IsAccount_example = token_usage_evidence-IsAccount reported ordered evaluated.0

ai_invocation_record-IsAccounted_example : IsAccounted call kept
ai_invocation_record-IsAccounted_example = ai_invocation_record-IsAccounted call kept evaluated.1

price_canonical : canonical_decimal price ≡ ok price
unfolding canonical_decimal serialized_length decimal decimal_from
price_canonical = refl

canonical_text-serialize_decimal_example : IsReread price
canonical_text-serialize_decimal_example =
    canonical_text-serialize_decimal price price price_canonical

abbrev catalog_price : PricingComponent
catalog_price = record { amount = finite false 125 (negsuc 1); unit = PricingUnit.per_1m_tokens }

abbrev catalog_entry : ModelPricing
catalog_entry = record {
  pricing_id = "price-1";
  provider = "copilot";
  model = "model-1";
  currency = "USD";
  pricing_source_id = "catalog";
  pricing_version = "1";
  effective_from = 5;
  effective_to = some 50;
  input_price = some catalog_price;
  output_price = some catalog_price;
  cached_input_price = none;
  unavailable_components = PricingComponentKind.cached_input ∷ [];
  unavailable_reason = some EvidenceUnavailableReason.not_supported;
}

catalog_entry-ok : model_pricing catalog_entry ≡ ok catalog_entry
unfolding model_pricing pricing_component component_snapshot dump_component dump_pricing
    check_pricing kinds_of has_repeated names_kind is_declared_pricing is_unpriced is_incomplete
    token_usage_evidence token_field_absence dump_absence dump_usage check_usage is_declared
    is_all_missing declares has_rank sort_by insert_by cost_evidence rebuild_cost dump_cost
    check_cost check_cost_type check_money check_no_money has_all_pricing has_any_pricing
    is_currency ai_invocation_record check_ai_fields check_ai_lifecycle check_metadata_values
    check_category dump_ai_invocation canonical_decimal serialized_length serialize_decimal
    canonical_text read_decimal read_digits read_fraction strip_zeros from_dict is_plain_json
    count_plain to_json serialize_timestamp collect validate_identifiers validate_run_identifier
    is_plain check_tree plain_json_equal padded decimal decimal_from has_double_dot
    identifier_matches is_run_identifier enter_plain has_key has_keys month_day
catalog_entry-ok = refl

model_pricing-IsPricing_example : IsPricing catalog_entry
model_pricing-IsPricing_example =
    model_pricing-IsPricing catalog_entry catalog_entry catalog_entry-ok
