-- ===== src/Tests/Mocking.antt =====
-- The mock runner at the sample request.
use pmqa.Base.{collect, ok, ◌-◌, ◌≡◌, refl, true, none, some, [], ltb}
use pmqa.Run.Dumps.{
  from_dict, check_tree, dump_reference, dump_result, dump_artifact, dump_error, dump_metrics,
}
use pmqa.Run.Plain.{
  is_plain_json, count_plain, to_json, plain_json_equal, enter_plain, has_key, has_keys,
}
use pmqa.Run.Requests.{
  dump_request, rebuild_request, run_request, dump_context, pmqa_run_context, rebuild_context,
  request_snapshot,
}
use pmqa.Run.Timestamps.{serialize_timestamp, month_day}
use pmqa.Base.{collect, ok, ◌-◌, ◌≡◌, refl, true, none, some, [], ltb}
use pmqa.Run.Identifiers.{
  validate_identifiers, validate_run_identifier, has_double_dot, identifier_matches,
  is_run_identifier,
}
use pmqa.Security.{is_plain, casefold, casefold_char, in_policy, is_prohibited_key}
use pmqa.Run.Json.{
  safe_payload_mapping, validate_safe_json, check_key, check_leaf, enter, is_clean_key,
}
use pmqa.Run.Texts.{check_array, bounded_text, is_bounded_text}
use pmqa.Workflow.Payload.{freeze}
use pmqa.Run.Records.{
  has_duplicate_reference, contains_reference, dump_run, contains, has_duplicate,
}
use pmqa.Base.Digits.{padded}
use pmqa.Run.Build.{run_reference, run_error, run_artifact, rebuild_result, structured_result}
use pmqa.Run.Definitions.{
  dump_definition, definition_snapshot, rebuild_definition, workflow_definition, capabilities_of,
  sort_texts, insert_text, workflow_preview_step, dump_step,
}
use pmqa.Runners.Contracts.{
  dump_metadata, metadata_snapshot, runner_metadata, runner_request, dump_runner_request,
  check_runner_request, runner_request_snapshot, rebuild_runner_request,
}
use pmqa.Run.Invocations.{
  dump_invocation, runner_invocation_record, check_invocation_fields, check_invocation,
  rebuild_invocation,
}
use pmqa.Runners.Response.{
  dump_response, runner_response, rebuild_response, response_snapshot, check_response,
  check_outcome, has_cancellation, validate_runner_response, has_foreign_artifact,
}
use pmqa.Application.Contracts.{dump_application_result}
use pmqa.Application.Service.{
  has_capabilities, validate_workflow_request, validate_workflow_result, validate_live_definition,
  validate_live_metadata,
}
use pmqa.Application.Dispatch.{sample_clock}
use pmqa.Application.Registry.{resolve_workflow, find_workflow, resolve_runner, find_runner}
use pmqa.Values.{is_finite}
use pmqa.Tests.Service.{service, metadata, dispatched}
use pmqa.Run.Invocations.{RunnerInvocationStatus}
use pmqa.Runners.Response.{RunnerResponse}
use pmqa.Runners.Mock.{
  FloatArithmetic, MockRunner, mock_execute, mock_answer, mock_errors, sample_monotonic,
  sample_wall_clock, duration_milliseconds, completed_invocation,
}
use pmqa.Runners.Mocked.{IsMocked, mock_execute-IsMocked}

-- Exact on the floats that it is used on, which are zero.
abbrev floats : FloatArithmetic
floats = record {
  less_than = λ a b. ltb a b;
  minus = λ a b. a - b;
  times = λ a b. 0;
  truncated = λ a. 0;
}

abbrev mock : MockRunner
mock = record {
  outcome = RunnerInvocationStatus.succeeded;
  metadata = metadata;
  output_artifacts = [];
  wall_clock = some (record { instant = 30; is_aware = true });
  started_monotonic = some 0;
  completed_monotonic = some 0;
}

abbrev cancelled_response : RunnerResponse
cancelled_response = record {
  invocation =
      completed_invocation dispatched.invocation RunnerInvocationStatus.cancelled 30 0
        (mock_errors RunnerInvocationStatus.cancelled);
  result = none;
  artifacts = [];
}

mocked : mock_execute service.printable floats mock dispatched true ≡ ok cancelled_response
unfolding mock_execute mock_answer sample_monotonic sample_wall_clock duration_milliseconds
    from_dict is_plain_json count_plain dump_request to_json serialize_timestamp collect
    validate_identifiers validate_run_identifier is_plain safe_payload_mapping validate_safe_json
    check_array check_tree freeze has_duplicate_reference plain_json_equal padded run_reference
    dump_reference has_double_dot identifier_matches is_run_identifier check_key check_leaf enter
    is_clean_key enter_plain has_key has_keys contains_reference rebuild_request run_request
    month_day casefold casefold_char in_policy is_prohibited_key dump_definition definition_snapshot
    dump_metadata metadata_snapshot runner_metadata rebuild_definition workflow_definition
    capabilities_of bounded_text is_bounded_text dump_context pmqa_run_context runner_request
    dump_runner_request check_runner_request runner_request_snapshot rebuild_runner_request
    rebuild_context dump_invocation runner_invocation_record check_invocation_fields
    check_invocation rebuild_invocation dump_response runner_response rebuild_response
    response_snapshot check_response check_outcome has_cancellation run_error run_artifact
    rebuild_result structured_result dump_result dump_artifact dump_error dump_metrics
    validate_runner_response has_foreign_artifact dump_run dump_application_result contains
    has_duplicate has_capabilities validate_workflow_request validate_workflow_result
    validate_live_definition validate_live_metadata resolve_workflow find_workflow resolve_runner
    find_runner sample_clock sort_texts insert_text workflow_preview_step dump_step request_snapshot
    is_finite
mocked = refl

mock_execute-IsMocked_example : IsMocked mock dispatched true cancelled_response
mock_execute-IsMocked_example =
    mock_execute-IsMocked service.printable floats mock dispatched true cancelled_response mocked
