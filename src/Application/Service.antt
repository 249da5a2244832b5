-- ===== src/Application/Service.antt =====
-- pmqa/application/service.py: the service, and how its `execute` finds the workflow and the runner.
use pmqa.Base.{
  Result, ok, err, ◌>>=◌, ◌>>◌, raise_if, ℕ, String, Bool, true, false, not, ◌&&◌, ◌||◌, Option,
  List, [], ◌∷◌, str_eq, ltb, ◌==◌,
}
use pmqa.Values.{String-discrete}
use pmqa.Workflow.Models.{DateTime}
use pmqa.Run.Parts.{StructuredResult}
use pmqa.Run.Build.{rebuild_result}
use pmqa.Run.Dumps.{from_dict, dump_result}
use pmqa.Run.Requests.{RunRequest, request_snapshot}
use pmqa.Run.Definitions.{ApprovalMode, WorkflowDefinition, WorkflowPreviewStep}
use pmqa.Run.Records.{contains}
use pmqa.Runners.Contracts.{RunnerMetadata, max_runner_timeout_ms}
use pmqa.Application.Contracts.{
  ApplicationFailureCode, Failure, failure, foreign, or_invalid, equals,
  invalid_application_request, workflow_input_schema_mismatch, workflow_definition_changed,
  workflow_input_invalid, runner_capability_mismatch, runner_metadata_changed, approval_required,
  workflow_result_invalid,
}
use pmqa.Application.Registry.{
  Signal, PmqaWorkflowAdapter, WorkflowRegistration, RunnerRegistration, resolve_workflow,
  resolve_runner,
}

-- The service: its registries, what its clock gives, its timeout, and the platform's database of
-- printable characters. The clock gives no time where it raises or returns something else.
pub record PmqaApplicationService : Type 0 where
  pub workflows : List WorkflowRegistration
  pub runners : List RunnerRegistration
  pub clock : Option DateTime
  pub runner_timeout_ms : ℕ
  pub printable : ℕ → Bool

-- `PMQAApplicationService.__init__`
unfoldable pub pmqa_application_service :
    PmqaApplicationService → Result Failure PmqaApplicationService
pmqa_application_service s = do
  raise_if (s.runner_timeout_ms == 0 || ltb max_runner_timeout_ms s.runner_timeout_ms)
      (failure invalid_application_request)
  ok s

-- Any exception is reported as the code.
abbrev pub or_failure {ℓ κ} :
    {E : Type κ} {A : Type ℓ} → ApplicationFailureCode → Result E A → Result Failure A
or_failure code (ok a) = ok a
or_failure code (err e) = err (failure code)

-- What the validator of an adapter answers.
abbrev pub answered : ApplicationFailureCode → Signal → Result Failure (Unit {0})
answered code Signal.accepted = ok tt
answered code Signal.rejected = err (failure code)
answered code Signal.raised = err foreign

pub Step-discrete : Discrete WorkflowPreviewStep
Step-discrete = hlevel String-discrete

pub Approval-discrete : Discrete ApprovalMode
Approval-discrete = hlevel

pub Definition-discrete : Discrete WorkflowDefinition
Definition-discrete = hlevel (String-discrete, Step-discrete, Approval-discrete)

pub Metadata-discrete : Discrete RunnerMetadata
Metadata-discrete = hlevel String-discrete

-- `_validate_live_workflow_definition`
unfoldable pub validate_live_definition : WorkflowRegistration → Result Failure (Unit {0})
validate_live_definition w =
    raise_if (not (equals Definition-discrete w.adapter.live_definition w.definition))
      (failure workflow_definition_changed)

-- `_validate_live_runner_metadata`
unfoldable pub validate_live_metadata : RunnerRegistration → Result Failure (Unit {0})
validate_live_metadata r =
    raise_if (not (equals Metadata-discrete r.runner.live_metadata r.metadata))
      (failure runner_metadata_changed)

-- `_validate_workflow_request`
unfoldable pub validate_workflow_request :
    PmqaWorkflowAdapter → RunRequest → Result Failure (Unit {0})
validate_workflow_request adapter request = do
  validator_request ← or_invalid (request_snapshot request)
  answered workflow_input_invalid (adapter.validate_request validator_request)

-- `_validate_workflow_result`
unfoldable pub validate_workflow_result :
    PmqaWorkflowAdapter → StructuredResult → Result Failure (Unit {0})
validate_workflow_result adapter result = do
  validator_result ← or_invalid (from_dict dump_result (dump_result result) (rebuild_result result))
  answered workflow_result_invalid (adapter.validate_result validator_result)

-- `set(required).issubset(capabilities)`
unfoldable pub has_capabilities : List String → List String → Bool
has_capabilities [] capabilities = true
has_capabilities (required ∷ rest) capabilities =
    contains required capabilities && has_capabilities rest capabilities

abbrev pub needs_approval : ApprovalMode → Bool
needs_approval ApprovalMode.none_ = false
needs_approval ApprovalMode.pre_run = true

-- What a request is admitted with.
pub record Admission : Type 0 where
  pub request : RunRequest
  pub workflow : WorkflowRegistration
  pub runner : RunnerRegistration

-- The part of `execute` that finds the workflow.
unfoldable pub admit_workflow :
    PmqaApplicationService → RunRequest → Result Failure WorkflowRegistration
admit_workflow s request = do
  workflow ← resolve_workflow s.printable s.workflows request.workflow_id request.workflow_version
  raise_if
      (not (
        str_eq request.input_schema_id workflow.definition.input_schema_id
        && str_eq request.input_schema_version workflow.definition.input_schema_version))
      (failure workflow_input_schema_mismatch)
  validate_live_definition workflow
  validate_workflow_request workflow.adapter request
  ok workflow

-- The part that finds the runner.
unfoldable pub admit_runner :
    PmqaApplicationService → RunRequest → WorkflowRegistration → Result Failure RunnerRegistration
unfolding has_capabilities
admit_runner s request workflow = do
  runner ← resolve_runner s.printable s.runners request.runner_id
  raise_if
      (not (
        has_capabilities workflow.definition.required_runner_capabilities
          runner.metadata.capabilities))
      (failure runner_capability_mismatch)
  validate_live_metadata runner
  raise_if (needs_approval workflow.definition.approval_mode) (failure approval_required)
  ok runner

-- The part of `execute` that finds the workflow and the runner of a submitted request. The tests of
-- the identifiers, the control and the clock come after it, in `prepare`.
unfoldable pub admit : PmqaApplicationService → RunRequest → Result Failure Admission
unfolding admit_workflow admit_runner
admit s submitted = do
  request ← or_failure invalid_application_request (request_snapshot submitted)
  workflow ← admit_workflow s request
  runner ← admit_runner s request workflow
  ok (record { request = request; workflow = workflow; runner = runner })
