-- ===== src/Runners/Response.antt =====
-- `RunnerResponse` and `validate_runner_response` of pmqa/runners/contracts.py.
use pmqa.Base.{
  Result, ok, err, collect, ◌>>=◌, ◌>>◌, raise_if, ℕ, String, Bool, true, false, not, ◌&&◌, ◌||◌,
  Option, none, some, List, [], ◌∷◌, map, str_eq, ltb, leb, ◌==◌, is_some,
}
use pmqa.Values.{Value}
use pmqa.Run.Identifiers.{
  Error, not_terminal, success_with_errors, partial_incomplete, failure_with_result,
  cancellation_without_error, duplicate_output,
}
use pmqa.Run.Parts.{StructuredResult, RunArtifact, RunError, RunErrorCategory}
use pmqa.Run.Texts.{check_array}
use pmqa.Run.Dumps.{
  object_of, version, array_of, optional, dump_result, dump_artifact, check_tree, from_dict,
}
use pmqa.Run.Build.{run_artifact, rebuild_result, optionally}
use pmqa.Run.Invocations.{
  RunnerInvocationRecord, RunnerInvocationStatus, dump_invocation, rebuild_invocation, is_before,
}
use pmqa.Run.Records.{has_duplicate}
use pmqa.Runners.Contracts.{RunnerRequest}
use pmqa.Workflow.Updates.{is_filled}

pub record RunnerResponse : Type 0 where
  pub invocation : RunnerInvocationRecord
  pub result : Option StructuredResult
  pub artifacts : List RunArtifact

unfoldable pub dump_response : RunnerResponse → Value
dump_response r = object_of (
    version
    ∷ ("invocation", dump_invocation r.invocation)
    ∷ ("result", optional dump_result r.result)
    ∷ ("artifacts", array_of dump_artifact r.artifacts)
    ∷ [])

abbrev pub is_cancellation : RunErrorCategory → Bool
is_cancellation RunErrorCategory.cancelled = true
is_cancellation _ = false

unfoldable pub has_cancellation : List RunError → Bool
has_cancellation [] = false
has_cancellation (e ∷ rest) = is_cancellation e.category || has_cancellation rest

-- The tests for a status, given whether there is a result, and the errors.
unfoldable pub check_outcome :
    RunnerInvocationStatus → Bool → List RunError → Result Error (Unit {0})
unfolding has_cancellation
check_outcome RunnerInvocationStatus.pending has_result errors = err not_terminal
check_outcome RunnerInvocationStatus.running has_result errors = err not_terminal
check_outcome RunnerInvocationStatus.succeeded has_result errors =
    raise_if (not has_result || is_filled errors) success_with_errors
check_outcome RunnerInvocationStatus.partially_succeeded has_result errors =
    raise_if (not has_result || not (is_filled errors)) partial_incomplete
check_outcome RunnerInvocationStatus.failed has_result errors =
    raise_if (has_result || not (is_filled errors)) failure_with_result
check_outcome RunnerInvocationStatus.cancelled has_result errors = do
  raise_if (has_result || not (is_filled errors)) failure_with_result
  raise_if (not (has_cancellation errors)) cancellation_without_error

-- `validate_lifecycle`
unfoldable pub check_response : RunnerResponse → Result Error (Unit {0})
unfolding check_outcome has_duplicate
check_response r = do
  check_outcome r.invocation.status (is_some r.result) r.invocation.errors
  raise_if (has_duplicate (map (λ artifact. artifact.artifact_id) r.artifacts)) duplicate_output

-- The constructor of the class.
unfoldable pub runner_response : RunnerResponse → Result Error RunnerResponse
unfolding check_response
runner_response r = do check_array r.artifacts; check_tree (dump_response r); check_response r; ok r

-- The validation of the fields of a dumped response.
unfoldable pub rebuild_response : (ℕ → Bool) → RunnerResponse → Result Error RunnerResponse
unfolding runner_response
rebuild_response printable r = do
  invocation ← rebuild_invocation printable r.invocation
  result ← optionally rebuild_result r.result
  artifacts ← collect run_artifact r.artifacts
  runner_response (record { invocation = invocation; result = result; artifacts = artifacts })

-- `RunnerResponse.from_dict(response.to_dict())`
unfoldable pub response_snapshot : (ℕ → Bool) → RunnerResponse → Result Error RunnerResponse
unfolding rebuild_response
response_snapshot printable r =
    from_dict dump_response (dump_response r) (rebuild_response printable r)

-- `RunnerBoundaryValidationError`
pub data BoundaryError : Type 0 where
  boundary_error : BoundaryError

abbrev pub option_eq : Option String → Option String → Bool
option_eq none none = true
option_eq (some a) (some b) = str_eq a b
option_eq _ _ = false

-- The identity of the invocation is the one that was asked for.
abbrev pub same_invocation : RunnerInvocationRecord → RunnerInvocationRecord → Bool
same_invocation actual expected =
    str_eq actual.invocation_id expected.invocation_id
    && str_eq actual.run_id expected.run_id
    && str_eq actual.runner_id expected.runner_id
    && str_eq actual.operation expected.operation
    && option_eq actual.step_id expected.step_id
    && actual.attempt_number == expected.attempt_number
    && option_eq actual.retry_of_invocation_id expected.retry_of_invocation_id
    && option_eq actual.fallback_from_invocation_id expected.fallback_from_invocation_id
    && actual.started_at == expected.started_at

abbrev pub completed_since : Option ℕ → ℕ → Bool
completed_since none start = false
completed_since (some time) start = leb start time

-- Some artifact is older than the start or younger than the completion.
unfoldable pub has_foreign_artifact : ℕ → Option ℕ → List RunArtifact → Bool
has_foreign_artifact start completed [] = false
has_foreign_artifact start completed (a ∷ rest) =
    ltb a.created_at start
    || is_before completed a.created_at
    || has_foreign_artifact start completed rest

abbrev pub has_schema : Option StructuredResult → String → String → Bool
has_schema none id schema_version = true
has_schema (some result) id schema_version =
    str_eq result.schema_id id && str_eq result.result_schema_version schema_version

unfoldable pub validate_runner_response :
    RunnerRequest → RunnerResponse → Result BoundaryError RunnerResponse
unfolding has_foreign_artifact
validate_runner_response request response = do
  raise_if (not (same_invocation response.invocation request.invocation))
      BoundaryError.boundary_error
  raise_if (not (completed_since response.invocation.completed_at request.context.started_at))
      BoundaryError.boundary_error
  raise_if
      (has_foreign_artifact response.invocation.started_at response.invocation.completed_at
        response.artifacts)
      BoundaryError.boundary_error
  raise_if
      (not (
        has_schema response.result request.expected_result_schema_id
          request.expected_result_schema_version))
      BoundaryError.boundary_error
  ok response
