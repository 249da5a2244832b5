-- ===== src/Runners/Mock.antt =====
-- `MockRunner` of pmqa/runners/mock.py. The clocks are what their samples give: the wall clock one
-- `datetime`, the monotonic clock a number at the start and one at the end, as the 64 bits of
-- `float` of it, or nothing where the call raises or returns something else. The arithmetic
-- of floats is the platform's, a parameter.
use pmqa.Base.{
  collect, Result, ok, err, ◌>>=◌, ◌>>◌, raise_if, ℕ, String, Bool, true, false, not, ◌||◌, Option,
  none, some, List, [], ◌∷◌, str_eq, ltb, if◌then◌else◌,
}
use pmqa.Base.{
  collect, Result, ok, err, ◌>>=◌, ◌>>◌, raise_if, ℕ, String, Bool, true, false, not, ◌||◌, Option,
  none, some, List, [], ◌∷◌, str_eq, ltb, if◌then◌else◌,
}
use pmqa.Values.{Value, Entries, Key, is_finite}
use pmqa.Workflow.Models.{DateTime}
use pmqa.Run.Identifiers.{Error}
use pmqa.Run.Parts.{StructuredResult, RunArtifact, RunError, RunErrorCategory}
use pmqa.Run.Build.{structured_result, run_artifact, run_error, optionally}
use pmqa.Run.Dumps.{from_dict, dump_artifact}
use pmqa.Run.Invocations.{
  RunnerInvocationRecord, RunnerInvocationStatus, invocation_status_value, runner_invocation_record,
}
use pmqa.Runners.Contracts.{RunnerMetadata, RunnerRequest, runner_metadata}
use pmqa.Runners.Response.{RunnerResponse, runner_response, validate_runner_response}

-- Operations on floats, by their bits: `<`, `-`, `*`, and `int` of one that is not negative.
pub record FloatArithmetic : Type 0 where
  pub less_than : ℕ → ℕ → Bool
  pub minus : ℕ → ℕ → ℕ
  pub times : ℕ → ℕ → ℕ
  pub truncated : ℕ → ℕ

-- The bits of 1000.0.
abbrev pub thousand : ℕ
thousand = 0x408f400000000000

pub record MockRunner : Type 0 where
  pub outcome : RunnerInvocationStatus
  pub metadata : RunnerMetadata
  pub output_artifacts : List RunArtifact
  pub wall_clock : Option DateTime
  pub started_monotonic : Option ℕ
  pub completed_monotonic : Option ℕ

-- What the runner raises: `RunnerBoundaryValidationError`, or the failure of a contract.
pub data MockFailure : Type 0 where
  boundary_failure : MockFailure
  contract_failure : Error → MockFailure

abbrev pub or_boundary {ℓ κ} : {E : Type κ} {A : Type ℓ} → Result E A → Result MockFailure A
or_boundary (ok a) = ok a
or_boundary (err e) = err boundary_failure

abbrev pub or_contract {ℓ} : {A : Type ℓ} → Result Error A → Result MockFailure A
or_contract (ok a) = ok a
or_contract (err e) = err (contract_failure e)

-- `_SUPPORTED_OUTCOMES`
abbrev pub is_supported : RunnerInvocationStatus → Bool
is_supported RunnerInvocationStatus.succeeded = true
is_supported RunnerInvocationStatus.partially_succeeded = true
is_supported RunnerInvocationStatus.failed = true
is_supported _ = false

-- The metadata that stands where none is given.
abbrev pub default_metadata : RunnerMetadata
default_metadata = record {
  runner_id = "runner.mock";
  runner_version = "1";
  display_name = "Deterministic mock runner";
  capabilities = "deterministic-execution" ∷ [];
}

abbrev pub metadata_or_default :
    (ℕ → Bool) → Option RunnerMetadata → Result MockFailure RunnerMetadata
metadata_or_default printable none = or_contract (runner_metadata printable default_metadata)
metadata_or_default printable (some metadata) = ok metadata

-- `MockRunner.__init__`
unfoldable pub mock_runner :
    (ℕ → Bool)
    → RunnerInvocationStatus
    → Option RunnerMetadata
    → List RunArtifact
    → Option DateTime
    → Option ℕ
    → Option ℕ
    → Result MockFailure MockRunner
mock_runner printable outcome metadata artifacts wall started completed = do
  raise_if (not (is_supported outcome)) boundary_failure
  snapshot ← or_boundary (
      collect (λ artifact. from_dict dump_artifact (dump_artifact artifact) (run_artifact artifact))
        artifacts)
  own ← metadata_or_default printable metadata
  ok (record {
    outcome = outcome;
    metadata = own;
    output_artifacts = snapshot;
    wall_clock = wall;
    started_monotonic = started;
    completed_monotonic = completed;
  })

-- `_sample_wall_clock`
unfoldable pub sample_wall_clock : Option DateTime → Result MockFailure ℕ
sample_wall_clock none = err boundary_failure
sample_wall_clock (some time) = do raise_if (not time.is_aware) boundary_failure; ok time.instant

-- `_sample_monotonic`
unfoldable pub sample_monotonic : Option ℕ → Result MockFailure ℕ
sample_monotonic none = err boundary_failure
sample_monotonic (some bits) = do raise_if (not (is_finite bits)) boundary_failure; ok bits

-- `_duration_milliseconds`
unfoldable pub duration_milliseconds : FloatArithmetic → ℕ → ℕ → Result MockFailure ℕ
duration_milliseconds floats started completed = do
  let elapsed = floats.minus completed started
  let scaled = floats.times elapsed thousand
  raise_if (floats.less_than elapsed 0 || not (is_finite elapsed) || not (is_finite scaled))
      boundary_failure
  ok (floats.truncated scaled)

-- The data of a result.
abbrev pub outcome_data : RunnerInvocationStatus → Value
outcome_data status =
    Value.dict
      (Entries.entry (Key.name "outcome") (Value.text (invocation_status_value status)) Entries.end)

abbrev pub is_with_result : RunnerInvocationStatus → Bool
is_with_result RunnerInvocationStatus.succeeded = true
is_with_result RunnerInvocationStatus.partially_succeeded = true
is_with_result _ = false

abbrev pub expected_result : RunnerRequest → RunnerInvocationStatus → StructuredResult
expected_result request status = record {
  schema_id = request.expected_result_schema_id;
  result_schema_version = request.expected_result_schema_version;
  data_ = outcome_data status;
}

-- `_result`, before its constructor validates it.
abbrev pub mock_result : RunnerRequest → RunnerInvocationStatus → Option StructuredResult
mock_result request status =
    if is_with_result status then some (expected_result request status) else none

abbrev pub mock_error : String → RunErrorCategory → String → String → RunError
mock_error code category safe_message error_type = record {
  code = code;
  category = category;
  safe_message = safe_message;
  step_id = none;
  retryable = false;
  error_type = some error_type;
}

-- `_errors`
abbrev pub mock_errors : RunnerInvocationStatus → List RunError
mock_errors RunnerInvocationStatus.succeeded = []
mock_errors RunnerInvocationStatus.partially_succeeded =
    mock_error "runner.mock.partial" RunErrorCategory.execution
      "Mock execution completed partially." "mock-partial"
    ∷ []
mock_errors RunnerInvocationStatus.cancelled =
    mock_error "runner.mock.cancelled" RunErrorCategory.cancelled "Mock execution was cancelled."
      "mock-cancelled"
    ∷ []
mock_errors _ =
    mock_error "runner.mock.failed" RunErrorCategory.execution "Mock execution failed."
      "mock-failed"
    ∷ []

-- The invocation that the runner has completed.
abbrev pub completed_invocation :
    RunnerInvocationRecord → RunnerInvocationStatus → ℕ → ℕ → List RunError → RunnerInvocationRecord
completed_invocation invocation status completed_at duration_ms errors = record invocation {
  status = status;
  completed_at = some completed_at;
  duration_ms = some duration_ms;
  errors = errors;
}

-- The part of `execute` that answers, given the status, the completion and the duration.
unfoldable pub mock_answer :
    (ℕ → Bool)
    → MockRunner
    → RunnerRequest
    → RunnerInvocationStatus
    → Bool
    → ℕ
    → ℕ
    → Result MockFailure RunnerResponse
mock_answer printable m request status cancelled completed_at duration = do
  result ← or_contract (optionally structured_result (mock_result request status))
  errors ← or_contract (collect (run_error printable) (mock_errors status))
  invocation ← or_contract (
      runner_invocation_record
        (completed_invocation request.invocation status completed_at duration errors))
  response ← or_contract (
      runner_response (record {
        invocation = invocation;
        result = result;
        artifacts = if cancelled then [] else m.output_artifacts;
      }))
  or_boundary (validate_runner_response request response)

-- `MockRunner.execute`, where the control says whether a cancellation is requested.
unfoldable pub mock_execute :
    (ℕ → Bool)
    → FloatArithmetic
    → MockRunner
    → RunnerRequest
    → Bool
    → Result MockFailure RunnerResponse
unfolding sample_wall_clock sample_monotonic duration_milliseconds mock_answer
mock_execute printable floats m request cancelled = do
  raise_if (not (str_eq request.context.runner_id m.metadata.runner_id)) boundary_failure
  started ← sample_monotonic m.started_monotonic
  completed_at ← sample_wall_clock m.wall_clock
  completed ← sample_monotonic m.completed_monotonic
  raise_if (floats.less_than completed started) boundary_failure
  raise_if (ltb completed_at request.invocation.started_at) boundary_failure
  duration ← duration_milliseconds floats started completed
  mock_answer printable m request
      (if cancelled then RunnerInvocationStatus.cancelled else m.outcome) cancelled completed_at
      duration
