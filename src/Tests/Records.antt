-- ===== src/Tests/Records.antt =====
-- A run with a retried invocation.
use pmqa.Base.{ok, ◌≡◌, refl, none, some, [], ◌∷◌}
use pmqa.Base.Digits.{padded}
use pmqa.Run.Texts.{check_array}
use pmqa.Run.Timestamps.{serialize_timestamp, month_day}
use pmqa.Run.Plain.{is_plain_json, count_plain, enter_plain, to_json}
use pmqa.Run.Dumps.{
  check_tree, dump_reference, dump_result, dump_artifact, dump_error, dump_metrics,
}
use pmqa.Security.{is_plain}
use pmqa.Run.Identifiers.{
  identifier_matches, has_double_dot, is_run_identifier, validate_run_identifier,
  validate_identifiers,
}
use pmqa.Run.Invocations.{
  dump_invocation, RunnerInvocationRecord, RunnerInvocationStatus, check_invocation_fields,
  check_invocation, runner_invocation_record,
}
use pmqa.Run.Records.{
  dump_run, RunRecord, RunStatus, contains, has_duplicate, contains_reference,
  has_duplicate_reference, check_run_fields, check_run, run_record,
}
use pmqa.Run.Attempts.{IsAttempt, runner_invocation_record-IsAttempt}
use pmqa.Run.Lifecycle.{IsLifecycle, run_record-IsLifecycle}

-- The second attempt, which succeeds.
abbrev retried : RunnerInvocationRecord
retried = record {
  invocation_id = "call-2";
  run_id = "run-1";
  runner_id = "mock";
  operation = "explore";
  step_id = some "step-1";
  status = RunnerInvocationStatus.succeeded;
  started_at = 20;
  completed_at = some 30;
  duration_ms = some 10;
  attempt_number = 2;
  retry_of_invocation_id = some "call-1";
  fallback_from_invocation_id = none;
  errors = [];
}

retried-ok : runner_invocation_record retried ≡ ok retried
unfolding runner_invocation_record dump_invocation check_tree is_plain_json count_plain enter_plain
    serialize_timestamp month_day padded dump_reference dump_result dump_artifact dump_error
    dump_metrics to_json check_array check_invocation_fields check_invocation validate_identifiers
    validate_run_identifier is_run_identifier identifier_matches has_double_dot is_plain
retried-ok = refl

runner_invocation_record-IsAttempt_example : IsAttempt retried
runner_invocation_record-IsAttempt_example =
    runner_invocation_record-IsAttempt retried retried retried-ok

abbrev finished_run : RunRecord
finished_run = record {
  run_id = "run-1";
  request_id = "request-1";
  session_id = "session-1";
  workflow_id = "map.login";
  workflow_version = "1";
  runner_id = "mock";
  status = RunStatus.succeeded;
  references = record { reference_type = "story"; reference_id = "42" } ∷ [];
  started_at = 15;
  completed_at = some 30;
  duration_ms = some 15;
  current_step_id = none;
  result = none;
  artifacts = [];
  errors = [];
  runner_invocation_ids = "call-1" ∷ "call-2" ∷ [];
  outcome_metrics = none;
  created_at = 10;
  updated_at = 31;
}

finished_run-ok : run_record finished_run ≡ ok finished_run
unfolding run_record dump_run check_tree is_plain_json count_plain enter_plain serialize_timestamp
    month_day padded dump_reference dump_result dump_artifact dump_error dump_metrics to_json
    check_array check_run_fields check_run validate_identifiers validate_run_identifier
    is_run_identifier identifier_matches has_double_dot is_plain contains has_duplicate
    contains_reference has_duplicate_reference
finished_run-ok = refl

run_record-IsLifecycle_example : IsLifecycle finished_run
run_record-IsLifecycle_example = run_record-IsLifecycle finished_run finished_run finished_run-ok

timestamp : serialize_timestamp 63900000000123456 ≡ "2025-11-29T08:00:00.123456Z"
unfolding serialize_timestamp month_day padded
timestamp = refl
