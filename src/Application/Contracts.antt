-- ===== src/Application/Contracts.antt =====
-- pmqa/application/contracts.py: the failure codes and the result of an attempt.
use pmqa.Base.{
  Result, ok, err, ◌>>◌, raise_if, ℕ, String, Bool, true, false, not, ◌&&◌, Option, none, some,
  List, [], ◌∷◌, str_eq, ◌==◌, is_some,
}
use pmqa.Values.{Value}
use pmqa.Run.Identifiers.{Error, inconsistent_status, inconsistent_result}
use mathlib.Core.Logic.{ite}
use native.Mathlib.Decide.{ℕ_discrete}
use pmqa.Values.{String-discrete}
use pmqa.Run.Parts.{
  StructuredResult, RunArtifact, RunError, StructuredResult-discrete, RunArtifact-discrete,
  RunError-discrete,
}
use pmqa.Run.Dumps.{object_of, version, check_tree}
use pmqa.Run.Requests.{RunRequest, dump_request}
use pmqa.Run.Records.{RunRecord, RunStatus, dump_run}
use pmqa.Run.Invocations.{RunnerInvocationRecord, RunnerInvocationStatus}
use pmqa.Runners.Contracts.{references_eq}
use pmqa.Runners.Response.{RunnerResponse, dump_response}

pub data ApplicationFailureCode : Type 0 where
  invalid_application_request invalid_workflow_registry workflow_not_found : ApplicationFailureCode
  workflow_definition_changed workflow_input_schema_mismatch : ApplicationFailureCode
  workflow_input_invalid approval_required invalid_runner_registry : ApplicationFailureCode
  runner_not_found runner_capability_mismatch runner_metadata_changed : ApplicationFailureCode
  invalid_run_identifier invalid_application_clock runner_boundary_failed : ApplicationFailureCode
  workflow_result_invalid : ApplicationFailureCode

-- `PMQAApplicationError`, the failures of the run contracts, and the exceptions of code that the
-- application calls.
pub data Failure : Type 0 where
  failure : ApplicationFailureCode → Failure
  invalid_contract : Error → Failure
  foreign : Failure

-- An exception of a run contract that is let through.
abbrev pub or_invalid {ℓ} : {A : Type ℓ} → Result Error A → Result Failure A
or_invalid (ok a) = ok a
or_invalid (err e) = err (invalid_contract e)

-- `APPLICATION_RUN_OPERATION`
abbrev pub application_run_operation : String
application_run_operation = "application.execute-workflow"

-- `_RUN_STATUS_BY_INVOCATION_STATUS`, as `validate_correlations` reads it; the service has a table
-- of its own.
abbrev pub run_status_by : RunnerInvocationStatus → Option RunStatus
run_status_by RunnerInvocationStatus.succeeded = some RunStatus.succeeded
run_status_by RunnerInvocationStatus.partially_succeeded = some RunStatus.partially_succeeded
run_status_by RunnerInvocationStatus.failed = some RunStatus.failed
run_status_by RunnerInvocationStatus.cancelled = some RunStatus.cancelled
run_status_by _ = none

pub record ApplicationRunResult : Type 0 where
  pub run_request : RunRequest
  pub run_record : RunRecord
  pub runner_response : RunnerResponse

unfoldable pub dump_application_result : ApplicationRunResult → Value
dump_application_result r = object_of (
    version
    ∷ ("run_request", dump_request r.run_request)
    ∷ ("run_record", dump_run r.run_record)
    ∷ ("runner_response", dump_response r.runner_response)
    ∷ [])

abbrev pub is_same_status : RunStatus → Option RunStatus → Bool
is_same_status status none = false
is_same_status RunStatus.succeeded (some RunStatus.succeeded) = true
is_same_status RunStatus.partially_succeeded (some RunStatus.partially_succeeded) = true
is_same_status RunStatus.failed (some RunStatus.failed) = true
is_same_status RunStatus.cancelled (some RunStatus.cancelled) = true
is_same_status _ _ = false

-- `a == b`
abbrev pub equals {ℓ} : {A : Type ℓ} → Discrete A → A → A → Bool
equals decide a b = ite (decide a b) true false

pub Texts-discrete : Discrete (List String)
Texts-discrete = hlevel String-discrete

pub Time-discrete : Discrete (Option ℕ)
Time-discrete = hlevel ℕ_discrete

pub Errors-discrete : Discrete (List RunError)
Errors-discrete = hlevel RunError-discrete

pub Artifacts-discrete : Discrete (List RunArtifact)
Artifacts-discrete = hlevel RunArtifact-discrete

pub Result-discrete : Discrete (Option StructuredResult)
Result-discrete = hlevel StructuredResult-discrete

-- The invocation is the single attempt of the application.
unfoldable pub is_single_attempt : RunnerInvocationRecord → Bool
is_single_attempt invocation =
    str_eq invocation.operation application_run_operation
    && not (is_some invocation.step_id)
    && invocation.attempt_number == 1
    && not (is_some invocation.retry_of_invocation_id)
    && not (is_some invocation.fallback_from_invocation_id)

-- The run is the one that was requested.
unfoldable pub is_of_request : RunRecord → RunRequest → Bool
is_of_request run request =
    str_eq run.request_id request.request_id
    && str_eq run.session_id request.session_id
    && str_eq run.workflow_id request.workflow_id
    && str_eq run.workflow_version request.workflow_version
    && str_eq run.runner_id request.runner_id
    && references_eq run.references request.references
    && run.created_at == request.requested_at

-- The run records the invocation.
unfoldable pub is_of_invocation : RunRecord → RunnerInvocationRecord → Bool
is_of_invocation run invocation =
    str_eq run.run_id invocation.run_id
    && str_eq run.runner_id invocation.runner_id
    && equals Texts-discrete run.runner_invocation_ids (invocation.invocation_id ∷ [])
    && run.started_at == invocation.started_at
    && equals Time-discrete run.completed_at invocation.completed_at
    && equals Time-discrete run.duration_ms invocation.duration_ms
    && equals Errors-discrete run.errors invocation.errors
    && equals Time-discrete (some run.updated_at) invocation.completed_at

-- The run has what the response brings.
unfoldable pub is_of_response : RunRecord → RunnerResponse → Bool
is_of_response run response =
    equals Result-discrete run.result response.result
    && equals Artifacts-discrete run.artifacts response.artifacts
    && not (is_some run.current_step_id)
    && not (is_some run.outcome_metrics)

-- `validate_correlations`; its second test is one condition, and here a conjunction of its parts.
unfoldable pub check_application_result : ApplicationRunResult → Result Error (Unit {0})
unfolding is_single_attempt is_of_request is_of_invocation is_of_response
check_application_result r = do
  raise_if
      (not (is_same_status r.run_record.status (run_status_by r.runner_response.invocation.status)))
      inconsistent_status
  raise_if
      (not (
        is_single_attempt r.runner_response.invocation
        && is_of_request r.run_record r.run_request
        && is_of_invocation r.run_record r.runner_response.invocation
        && is_of_response r.run_record r.runner_response))
      inconsistent_result

-- The constructor of the class.
unfoldable pub application_run_result : ApplicationRunResult → Result Error ApplicationRunResult
unfolding check_application_result
application_run_result r = do
  check_tree (dump_application_result r)
  check_application_result r
  ok r
