-- ===== src/Tests/Execution.antt =====
-- The execution of the sample request.
use pmqa.Base.{collect, ok, ◌≡◌, refl, true, false, some, [], ◌∷◌, map, arith, All}
use pmqa.Tests.Service.{second, registry}
use pmqa.Application.Lookup.{find_workflow-workflow_registry}
use pmqa.Application.Registry.{
  workflow_registry, register_workflow, has_workflow, has_duplicate_workflow, find_workflow,
}
use pmqa.Run.Dumps.{
  from_dict, check_tree, dump_reference, dump_result, dump_artifact, dump_error, dump_metrics,
}
use pmqa.Run.Plain.{
  is_plain_json, count_plain, to_json, plain_json_equal, enter_plain, has_key, has_keys,
}
use pmqa.Run.Requests.{
  dump_request, rebuild_request, run_request, dump_context, pmqa_run_context, rebuild_context,
  request_snapshot,
}
use pmqa.Run.Timestamps.{serialize_timestamp, month_day}
use pmqa.Base.{collect, ok, ◌≡◌, refl, true, false, some, [], ◌∷◌, map, arith, All}
use pmqa.Run.Identifiers.{
  validate_identifiers, validate_run_identifier, has_double_dot, identifier_matches,
  is_run_identifier,
}
use pmqa.Security.{is_plain, casefold, casefold_char, in_policy, is_prohibited_key}
use pmqa.Run.Json.{
  safe_payload_mapping, validate_safe_json, check_key, check_leaf, enter, is_clean_key,
}
use pmqa.Run.Texts.{check_array, bounded_text, is_bounded_text}
use pmqa.Workflow.Payload.{freeze}
use pmqa.Run.Records.{
  has_duplicate_reference, contains_reference, dump_run, contains, has_duplicate,
}
use pmqa.Base.Digits.{padded}
use pmqa.Run.Build.{run_reference, run_error, run_artifact, rebuild_result, structured_result}
use pmqa.Run.Definitions.{
  dump_definition, definition_snapshot, rebuild_definition, workflow_definition, capabilities_of,
  sort_texts, insert_text, workflow_preview_step, dump_step,
}
use pmqa.Runners.Contracts.{
  dump_metadata, metadata_snapshot, runner_metadata, runner_request, dump_runner_request,
  check_runner_request, runner_request_snapshot, rebuild_runner_request,
}
use pmqa.Run.Invocations.{
  dump_invocation, runner_invocation_record, check_invocation_fields, check_invocation,
  rebuild_invocation,
}
use pmqa.Runners.Response.{
  dump_response, runner_response, rebuild_response, response_snapshot, check_response,
  check_outcome, has_cancellation, validate_runner_response, has_foreign_artifact,
}
use pmqa.Application.Contracts.{dump_application_result}
use pmqa.Application.Service.{
  has_capabilities, validate_workflow_request, validate_workflow_result, validate_live_definition,
  validate_live_metadata,
}
use pmqa.Application.Dispatch.{sample_clock}
use pmqa.Application.Registry.{resolve_workflow, find_workflow, resolve_runner, find_runner}
use pmqa.Tests.Service.{
  request, admitted_request, definition, invocation, adapter, runner, service, admission,
  dispatched, frozen_outcome, answer, run, result,
}
use pmqa.Application.Completion.{assemble_result_returns}
use pmqa.Runners.Correlation.{IsAnswer, validate_runner_response-IsAnswer}
use pmqa.Application.Dispatch.{assemble_result}
use pmqa.Application.Contracts.{is_single_attempt}
use pmqa.Run.Records.{RunStatus}
use pmqa.Run.Plain.{plain_json_equal}
use pmqa.Run.Dumps.{from_dict}
use pmqa.Base.{ok, collect, ◌≡◌, refl, true, false, arith}
use pmqa.Run.Requests.{dump_request, run_request, request_snapshot}
use pmqa.Application.Dispatch.{prepare, execute_runner, ControlArgument, Prepared}

abbrev prepared : Prepared
prepared = record { admission = admission; request = dispatched; control = false }

-- The stages after the admission, and the trees of the result.
evaluated :
    (prepare service admission "run-1" "call-1" ControlArgument.absent ≡ ok prepared)
    × (execute_runner service.printable runner dispatched false ≡ ok answer)
    × (validate_workflow_result adapter frozen_outcome ≡ ok tt)
    × (run_request request ≡ ok admitted_request)
    × (runner_invocation_record invocation ≡ ok invocation)
    × (runner_response answer ≡ ok answer)
    × (is_plain_json (dump_run run) ≡ true)
    × (is_plain_json (dump_application_result result) ≡ true)
    × (validate_runner_response dispatched answer ≡ ok answer)
    × (is_single_attempt invocation ≡ true)
unfolding prepare execute_runner is_single_attempt from_dict is_plain_json count_plain dump_request
    to_json serialize_timestamp collect validate_identifiers validate_run_identifier is_plain
    safe_payload_mapping validate_safe_json check_array check_tree freeze has_duplicate_reference
    plain_json_equal padded run_reference dump_reference has_double_dot identifier_matches
    is_run_identifier check_key check_leaf enter is_clean_key enter_plain has_key has_keys
    contains_reference rebuild_request run_request month_day casefold casefold_char in_policy
    is_prohibited_key dump_definition definition_snapshot dump_metadata metadata_snapshot
    runner_metadata rebuild_definition workflow_definition capabilities_of bounded_text
    is_bounded_text dump_context pmqa_run_context runner_request dump_runner_request
    check_runner_request runner_request_snapshot rebuild_runner_request rebuild_context
    dump_invocation runner_invocation_record check_invocation_fields check_invocation
    rebuild_invocation dump_response runner_response rebuild_response response_snapshot
    check_response check_outcome has_cancellation run_error run_artifact rebuild_result
    structured_result dump_result dump_artifact dump_error dump_metrics validate_runner_response
    has_foreign_artifact dump_run dump_application_result contains has_duplicate has_capabilities
    validate_workflow_request validate_workflow_result validate_live_definition
    validate_live_metadata resolve_workflow find_workflow resolve_runner find_runner sample_clock
    sort_texts insert_text workflow_preview_step dump_step request_snapshot
evaluated = (refl, refl, refl, refl, refl, refl, refl, refl, refl, refl)

assemble_result_returns_example : assemble_result admitted_request answer ≡ ok result
assemble_result_returns_example =
    assemble_result_returns request admitted_request answer RunStatus.succeeded evaluated.3
      evaluated.4 evaluated.5 refl refl evaluated.9 (omega arith) evaluated.6 evaluated.7

validate_runner_response-IsAnswer_example : (answer ≡ answer) × IsAnswer dispatched answer
validate_runner_response-IsAnswer_example =
    validate_runner_response-IsAnswer dispatched answer answer evaluated.8

registered : workflow_registry service.printable (adapter ∷ second ∷ []) ≡ ok registry
unfolding workflow_registry register_workflow has_duplicate_workflow has_workflow from_dict
    is_plain_json count_plain dump_request to_json serialize_timestamp collect validate_identifiers
    validate_run_identifier is_plain safe_payload_mapping validate_safe_json check_array check_tree
    freeze has_duplicate_reference plain_json_equal padded run_reference dump_reference
    has_double_dot identifier_matches is_run_identifier check_key check_leaf enter is_clean_key
    enter_plain has_key has_keys contains_reference rebuild_request run_request month_day casefold
    casefold_char in_policy is_prohibited_key dump_definition definition_snapshot dump_metadata
    metadata_snapshot runner_metadata rebuild_definition workflow_definition capabilities_of
    bounded_text is_bounded_text dump_context pmqa_run_context runner_request dump_runner_request
    check_runner_request runner_request_snapshot rebuild_runner_request rebuild_context
    dump_invocation runner_invocation_record check_invocation_fields check_invocation
    rebuild_invocation dump_response runner_response rebuild_response response_snapshot
    check_response check_outcome has_cancellation run_error run_artifact rebuild_result
    structured_result dump_result dump_artifact dump_error dump_metrics validate_runner_response
    has_foreign_artifact dump_run dump_application_result contains has_duplicate has_capabilities
    validate_workflow_request validate_workflow_result validate_live_definition
    validate_live_metadata resolve_workflow find_workflow resolve_runner find_runner sample_clock
    sort_texts insert_text workflow_preview_step dump_step request_snapshot
registered = refl

find_workflow-workflow_registry_example :
    (map (λ r. r.adapter) registry ≡ adapter ∷ second ∷ [])
    × All
        (λ r.
          find_workflow r.definition.workflow_id r.definition.workflow_version registry ≡ some r)
        registry
find_workflow-workflow_registry_example =
    find_workflow-workflow_registry service.printable (adapter ∷ second ∷ []) registry registered
