-- ===== src/Application/Dispatch.antt =====
-- pmqa/application/service.py: what `execute` prepares, dispatches and assembles for an admission.
use pmqa.Base.{
  Result, ok, err, ◌>>=◌, ◌>>◌, raise_if, ℕ, String, Bool, false, not, Option, none, some, [], ◌∷◌,
  ltb,
}
use pmqa.Workflow.Models.{DateTime}
use pmqa.Run.Identifiers.{validate_run_identifier}
use pmqa.Run.Parts.{StructuredResult}
use pmqa.Run.Requests.{RunRequest, PmqaRunContext, pmqa_run_context}
use pmqa.Run.Records.{RunRecord, RunStatus, run_record}
use pmqa.Run.Invocations.{RunnerInvocationRecord, RunnerInvocationStatus, runner_invocation_record}
use pmqa.Runners.Contracts.{RunnerRequest, runner_request, runner_request_snapshot}
use pmqa.Runners.Response.{RunnerResponse, response_snapshot, validate_runner_response}
use pmqa.Application.Contracts.{
  invalid_application_request, Failure, failure, foreign, or_invalid, application_run_operation,
  ApplicationRunResult, application_run_result, invalid_application_clock, invalid_run_identifier,
  runner_boundary_failed,
}
use pmqa.Application.Registry.{Reply, PmqaWorkflowAdapter, PmqaRunner}
use pmqa.Application.Service.{
  PmqaApplicationService, Admission, admit, or_failure, validate_workflow_result,
}

-- `_sample_clock`
unfoldable pub sample_clock : Option DateTime → Result Failure ℕ
sample_clock none = err (failure invalid_application_clock)
sample_clock (some time) = do
  raise_if (not time.is_aware) (failure invalid_application_clock)
  ok time.instant

-- The context that `execute` constructs.
abbrev pub context_of : RunRequest → String → ℕ → PmqaRunContext
context_of request run_id started_at = record {
  run_id = run_id;
  request_id = request.request_id;
  session_id = request.session_id;
  workflow_id = request.workflow_id;
  workflow_version = request.workflow_version;
  runner_id = request.runner_id;
  references = request.references;
  started_at = started_at;
}

-- The pending invocation that it constructs.
abbrev pub pending_invocation : RunRequest → String → String → ℕ → RunnerInvocationRecord
pending_invocation request run_id invocation_id started_at = record {
  invocation_id = invocation_id;
  run_id = run_id;
  runner_id = request.runner_id;
  operation = application_run_operation;
  step_id = none;
  status = RunnerInvocationStatus.pending;
  started_at = started_at;
  completed_at = none;
  duration_ms = none;
  attempt_number = 1;
  retry_of_invocation_id = none;
  fallback_from_invocation_id = none;
  errors = [];
}

-- The `control` argument of `execute`: none, a `RunnerControl`, which says whether a cancellation is
-- requested, or an object of another type.
pub data ControlArgument : Type 0 where
  absent other_object : ControlArgument
  given : Bool → ControlArgument

-- `_control`
abbrev pub control_of : ControlArgument → Result Failure Bool
control_of ControlArgument.absent = ok false
control_of (ControlArgument.given control) = ok control
control_of ControlArgument.other_object = err (failure invalid_application_request)

-- What is dispatched: an admission, the request of its runner, and the control.
pub record Prepared : Type 0 where
  pub admission : Admission
  pub request : RunnerRequest
  pub control : Bool

-- The part of `execute` that tests its other arguments and the clock and builds the request of the
-- runner.
unfoldable pub prepare :
    PmqaApplicationService → Admission → String → String → ControlArgument → Result Failure Prepared
unfolding sample_clock
prepare s a run_id invocation_id argument = do
  or_failure invalid_run_identifier (validate_run_identifier run_id)
  or_failure invalid_run_identifier (validate_run_identifier invocation_id)
  control ← control_of argument
  started_at ← sample_clock s.clock
  raise_if (ltb started_at a.request.requested_at) (failure invalid_application_clock)
  context ← or_invalid (pmqa_run_context (context_of a.request run_id started_at))
  invocation ←
      or_invalid
        (runner_invocation_record (pending_invocation a.request run_id invocation_id started_at))
  request ← or_invalid (
      runner_request (record {
        run_request = a.request;
        context = context;
        invocation = invocation;
        expected_result_schema_id = a.workflow.definition.result_schema_id;
        expected_result_schema_version = a.workflow.definition.result_schema_version;
        timeout_ms = s.runner_timeout_ms;
      }))
  ok (record { admission = a; request = request; control = control })

-- Everything that `execute` does before the runner is called.
unfoldable pub before_dispatch :
    PmqaApplicationService
    → RunRequest
    → String
    → String
    → ControlArgument
    → Result Failure Prepared
unfolding admit prepare
before_dispatch s submitted run_id invocation_id argument = do
  a ← admit s submitted
  prepare s a run_id invocation_id argument

abbrev pub replied : Reply → Result Failure RunnerResponse
replied (Reply.response r) = ok r
replied Reply.boundary_failed = err (failure runner_boundary_failed)
replied Reply.other_exception = err foreign

-- `_execute_runner`
unfoldable pub execute_runner :
    (ℕ → Bool) → PmqaRunner → RunnerRequest → Bool → Result Failure RunnerResponse
execute_runner printable runner request control = do
  dispatched ← or_invalid (runner_request_snapshot printable request)
  raw ← replied (runner.execute dispatched control)
  response ← or_failure runner_boundary_failed (response_snapshot printable raw)
  or_failure runner_boundary_failed (validate_runner_response request response)

abbrev pub validate_if_present :
    PmqaWorkflowAdapter → Option StructuredResult → Result Failure (Unit {0})
validate_if_present adapter none = ok tt
validate_if_present adapter (some result) = validate_workflow_result adapter result

-- `_RUN_STATUS_BY_INVOCATION_STATUS` of the service
abbrev pub invocation_run_status : RunnerInvocationStatus → Option RunStatus
invocation_run_status RunnerInvocationStatus.succeeded = some RunStatus.succeeded
invocation_run_status RunnerInvocationStatus.partially_succeeded =
    some RunStatus.partially_succeeded
invocation_run_status RunnerInvocationStatus.failed = some RunStatus.failed
invocation_run_status RunnerInvocationStatus.cancelled = some RunStatus.cancelled
invocation_run_status _ = none

-- `_RUN_STATUS_BY_INVOCATION_STATUS[status]`, which raises where there is no such key.
abbrev pub status_found : Option RunStatus → Result Failure RunStatus
status_found none = err foreign
status_found (some status) = ok status

-- The completion of a response, which has one.
abbrev pub time_or : ℕ → Option ℕ → ℕ
time_or start none = start
time_or start (some time) = time

-- The record that `_assemble_result` constructs.
abbrev pub run_of : RunRequest → RunnerResponse → RunStatus → RunRecord
run_of request response status = record {
  run_id = response.invocation.run_id;
  request_id = request.request_id;
  session_id = request.session_id;
  workflow_id = request.workflow_id;
  workflow_version = request.workflow_version;
  runner_id = request.runner_id;
  status = status;
  references = request.references;
  started_at = response.invocation.started_at;
  completed_at = response.invocation.completed_at;
  duration_ms = response.invocation.duration_ms;
  current_step_id = none;
  result = response.result;
  artifacts = response.artifacts;
  errors = response.invocation.errors;
  runner_invocation_ids = response.invocation.invocation_id ∷ [];
  outcome_metrics = none;
  created_at = request.requested_at;
  updated_at = time_or response.invocation.started_at response.invocation.completed_at;
}

-- `_assemble_result`
unfoldable pub assemble_result : RunRequest → RunnerResponse → Result Failure ApplicationRunResult
assemble_result request response = do
  status ← status_found (invocation_run_status response.invocation.status)
  run ← or_invalid (run_record (run_of request response status))
  or_invalid (
      application_run_result
        (record { run_request = request; run_record = run; runner_response = response }))

-- `PMQAApplicationService.execute`
unfoldable pub execute :
    PmqaApplicationService
    → RunRequest
    → String
    → String
    → ControlArgument
    → Result Failure ApplicationRunResult
unfolding before_dispatch execute_runner assemble_result
execute s submitted run_id invocation_id argument = do
  p ← before_dispatch s submitted run_id invocation_id argument
  response ← execute_runner s.printable p.admission.runner.runner p.request p.control
  validate_if_present p.admission.workflow.adapter response.result
  assemble_result p.admission.request response
