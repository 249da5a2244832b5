-- ===== src/Usage/Invocations.antt =====
-- `AIInvocationRecord` of pmqa/usage/contracts.py.
use pmqa.Base.{
  Result, ok, err, ◌>>=◌, ◌>>◌, raise_if, ℕ, ◌+◌, String, not, ◌&&◌, Option, none, some, [], ◌∷◌,
  ltb, ◌==◌, is_some,
}
use pmqa.Base.{
  Result, ok, err, ◌>>=◌, ◌>>◌, raise_if, ℕ, ◌+◌, String, not, ◌&&◌, Option, none, some, [], ◌∷◌,
  ltb, ◌==◌, is_some,
}
use pmqa.Values.{Value}
use pmqa.Workflow.Models.{differs}
use pmqa.Run.Parts.{RunErrorCategory}
use pmqa.Run.Identifiers.{
  Error, validate_identifiers, validate_optional, attempt_below_one, integer_out_of_range,
  completed_before_started, retry_of_itself, fallback_from_itself, first_with_predecessor,
  later_without_predecessor, late_pricing, model_or_reason, success_with_error, error_missing,
  not_classified_cancelled, classified_cancelled,
}
use pmqa.Run.Invocations.{is_text, count}
use pmqa.Run.Records.{is_after}
use pmqa.Run.Dumps.{
  object_of, version, optional, number, time_value, category_value, check_tree, from_dict,
}
use pmqa.Runners.Response.{is_cancellation}
use pmqa.Usage.Evidence.{
  TokenUsageEvidence, EvidenceUnavailableReason, reason_value, dump_usage, token_usage_evidence,
  max_usage_integer,
}
use pmqa.Usage.Costs.{CostEvidence, dump_cost, rebuild_cost}

pub data AiInvocationStatus : Type 0 where
  succeeded failed cancelled : AiInvocationStatus

pub record AiInvocationRecord : Type 0 where
  pub invocation_id : String
  pub session_id : String
  pub run_id : String
  pub runner_invocation_id : Option String
  pub provider : String
  pub model : Option String
  pub model_unavailable_reason : Option EvidenceUnavailableReason
  pub operation : String
  pub status : AiInvocationStatus
  pub started_at : ℕ
  pub completed_at : ℕ
  pub duration_ms : ℕ
  pub attempt_number : ℕ
  pub retry_of_invocation_id : Option String
  pub fallback_from_invocation_id : Option String
  pub usage : TokenUsageEvidence
  pub cost : CostEvidence
  pub error_category : Option RunErrorCategory

abbrev pub ai_predecessor_count : AiInvocationRecord → ℕ
ai_predecessor_count r =
    count (is_some r.retry_of_invocation_id) + count (is_some r.fallback_from_invocation_id)

-- `_validate_ai_invocation_metadata_values`
unfoldable pub check_metadata_values : AiInvocationRecord → Result Error (Unit {0})
check_metadata_values r = do
  raise_if (not (differs (is_some r.model) (is_some r.model_unavailable_reason))) model_or_reason
  raise_if (is_text r.retry_of_invocation_id r.invocation_id) retry_of_itself
  raise_if (is_text r.fallback_from_invocation_id r.invocation_id) fallback_from_itself
  raise_if (r.attempt_number == 1 && not (ai_predecessor_count r == 0)) first_with_predecessor
  raise_if (ltb 1 r.attempt_number && not (ai_predecessor_count r == 1)) later_without_predecessor

-- The tests on the category of the error.
unfoldable pub check_category :
    AiInvocationStatus → Option RunErrorCategory → Result Error (Unit {0})
check_category AiInvocationStatus.succeeded category =
    raise_if (is_some category) success_with_error
check_category AiInvocationStatus.failed none = err error_missing
check_category AiInvocationStatus.cancelled none = err error_missing
check_category AiInvocationStatus.cancelled (some category) =
    raise_if (not (is_cancellation category)) not_classified_cancelled
check_category AiInvocationStatus.failed (some category) =
    raise_if (is_cancellation category) classified_cancelled

-- `validate_lifecycle`
unfoldable pub check_ai_lifecycle : AiInvocationRecord → Result Error (Unit {0})
unfolding check_metadata_values check_category
check_ai_lifecycle r = do
  raise_if (ltb r.completed_at r.started_at) completed_before_started
  raise_if (is_after r.cost.pricing_effective_at r.started_at) late_pricing
  check_metadata_values r
  check_category r.status r.error_category

abbrev pub ai_status_value : AiInvocationStatus → String
ai_status_value AiInvocationStatus.succeeded = "succeeded"
ai_status_value AiInvocationStatus.failed = "failed"
ai_status_value AiInvocationStatus.cancelled = "cancelled"

unfoldable pub dump_ai_invocation : AiInvocationRecord → Value
dump_ai_invocation r = object_of (
    version
    ∷ ("invocation_id", Value.text r.invocation_id)
    ∷ ("session_id", Value.text r.session_id)
    ∷ ("run_id", Value.text r.run_id)
    ∷ ("runner_invocation_id", optional Value.text r.runner_invocation_id)
    ∷ ("provider", Value.text r.provider)
    ∷ ("model", optional Value.text r.model)
    ∷ (
      "model_unavailable_reason",
      optional (λ reason. Value.text (reason_value reason)) r.model_unavailable_reason,
    )
    ∷ ("operation", Value.text r.operation)
    ∷ ("status", Value.text (ai_status_value r.status))
    ∷ ("started_at", time_value r.started_at)
    ∷ ("completed_at", time_value r.completed_at)
    ∷ ("duration_ms", number r.duration_ms)
    ∷ ("attempt_number", number r.attempt_number)
    ∷ ("retry_of_invocation_id", optional Value.text r.retry_of_invocation_id)
    ∷ ("fallback_from_invocation_id", optional Value.text r.fallback_from_invocation_id)
    ∷ ("usage", dump_usage r.usage)
    ∷ ("cost", dump_cost r.cost)
    ∷ ("error_category", optional (λ c. Value.text (category_value c)) r.error_category)
    ∷ [])

-- The constraints of the fields and their validators.
unfoldable pub check_ai_fields : AiInvocationRecord → Result Error (Unit {0})
check_ai_fields r = do
  validate_identifiers (r.invocation_id ∷ r.session_id ∷ r.run_id ∷ r.provider ∷ r.operation ∷ [])
  validate_optional r.runner_invocation_id
  validate_optional r.model
  raise_if (ltb max_usage_integer r.duration_ms) integer_out_of_range
  raise_if (r.attempt_number == 0) attempt_below_one
  raise_if (ltb max_usage_integer r.attempt_number) integer_out_of_range
  validate_optional r.retry_of_invocation_id
  validate_optional r.fallback_from_invocation_id

-- The constructor of the class.
unfoldable pub ai_invocation_record : AiInvocationRecord → Result Error AiInvocationRecord
unfolding check_ai_fields check_ai_lifecycle dump_ai_invocation
ai_invocation_record r = do
  check_ai_fields r
  usage ← from_dict dump_usage (dump_usage r.usage) (token_usage_evidence r.usage)
  cost ← from_dict dump_cost (dump_cost r.cost) (rebuild_cost r.cost)
  let kept = record r { usage = usage; cost = cost }
  check_tree (dump_ai_invocation kept)
  check_ai_lifecycle kept
  ok kept
