-- ===== src/Runners/Contracts.antt =====
-- `RunnerMetadata` and `RunnerRequest` of pmqa/runners/contracts.py.
use pmqa.Base.{
  Result, ok, ◌>>=◌, ◌>>◌, raise_if, ℕ, String, Bool, true, false, not, ◌&&◌, ◌||◌, List, [], ◌∷◌,
  str_eq, ltb, ◌==◌,
}
use pmqa.Values.{Value}
use pmqa.Run.Identifiers.{
  Error, validate_identifiers, timeout_out_of_range, inconsistent_request, requested_after_start,
  not_pending,
}
use pmqa.Run.Parts.{RunReference}
use pmqa.Run.Texts.{bounded_text}
use pmqa.Run.Dumps.{object_of, version, array_of, number, check_tree, from_dict}
use pmqa.Run.Requests.{
  RunRequest, dump_request, rebuild_request, PmqaRunContext, dump_context, rebuild_context,
}
use pmqa.Run.Definitions.{capabilities_of}
use pmqa.Run.Invocations.{
  RunnerInvocationRecord, RunnerInvocationStatus, dump_invocation, rebuild_invocation,
}
use pmqa.Workflow.Updates.{is_filled}

-- `MAX_RUNNER_TIMEOUT_MS`
abbrev pub max_runner_timeout_ms : ℕ
max_runner_timeout_ms = 3600000

pub record RunnerMetadata : Type 0 where
  pub runner_id : String
  pub runner_version : String
  pub display_name : String
  pub capabilities : List String

unfoldable pub dump_metadata : RunnerMetadata → Value
dump_metadata m = object_of (
    version
    ∷ ("runner_id", Value.text m.runner_id)
    ∷ ("runner_version", Value.text m.runner_version)
    ∷ ("display_name", Value.text m.display_name)
    ∷ ("capabilities", array_of Value.text m.capabilities)
    ∷ [])

-- The constructor of the class.
unfoldable pub runner_metadata : (ℕ → Bool) → RunnerMetadata → Result Error RunnerMetadata
runner_metadata printable m = do
  validate_identifiers (m.runner_id ∷ m.runner_version ∷ [])
  bounded_text printable 160 m.display_name
  capabilities ← capabilities_of m.capabilities
  check_tree (dump_metadata (record m { capabilities = capabilities }))
  ok (record m { capabilities = capabilities })

-- `RunnerMetadata.from_dict(metadata.to_dict())`
unfoldable pub metadata_snapshot : (ℕ → Bool) → RunnerMetadata → Result Error RunnerMetadata
unfolding runner_metadata
metadata_snapshot printable m =
    from_dict dump_metadata (dump_metadata m) (runner_metadata printable m)

pub record RunnerRequest : Type 0 where
  pub run_request : RunRequest
  pub context : PmqaRunContext
  pub invocation : RunnerInvocationRecord
  pub expected_result_schema_id : String
  pub expected_result_schema_version : String
  pub timeout_ms : ℕ

unfoldable pub dump_runner_request : RunnerRequest → Value
dump_runner_request r = object_of (
    version
    ∷ ("run_request", dump_request r.run_request)
    ∷ ("context", dump_context r.context)
    ∷ ("invocation", dump_invocation r.invocation)
    ∷ ("expected_result_schema_id", Value.text r.expected_result_schema_id)
    ∷ ("expected_result_schema_version", Value.text r.expected_result_schema_version)
    ∷ ("timeout_ms", number r.timeout_ms)
    ∷ [])

abbrev pub references_eq : List RunReference → List RunReference → Bool
references_eq [] [] = true
references_eq (a ∷ as') (b ∷ bs) =
    str_eq a.reference_type b.reference_type
    && str_eq a.reference_id b.reference_id
    && references_eq as' bs
references_eq _ _ = false

abbrev pub is_pending_invocation : RunnerInvocationStatus → Bool
is_pending_invocation RunnerInvocationStatus.pending = true
is_pending_invocation _ = false

-- The request, the context and the invocation agree.
abbrev pub is_consistent_request : RunnerRequest → Bool
is_consistent_request r =
    str_eq r.run_request.request_id r.context.request_id
    && str_eq r.run_request.session_id r.context.session_id
    && str_eq r.run_request.workflow_id r.context.workflow_id
    && str_eq r.run_request.workflow_version r.context.workflow_version
    && str_eq r.run_request.runner_id r.context.runner_id
    && references_eq r.run_request.references r.context.references
    && str_eq r.invocation.run_id r.context.run_id
    && str_eq r.invocation.runner_id r.context.runner_id
    && r.invocation.started_at == r.context.started_at

-- `validate_correlations`
unfoldable pub check_runner_request : RunnerRequest → Result Error (Unit {0})
check_runner_request r = do
  raise_if (not (is_consistent_request r)) inconsistent_request
  raise_if (ltb r.context.started_at r.run_request.requested_at) requested_after_start
  raise_if (not (is_pending_invocation r.invocation.status) || is_filled r.invocation.errors)
      not_pending

-- The constructor of the class.
unfoldable pub runner_request : RunnerRequest → Result Error RunnerRequest
unfolding check_runner_request
runner_request r = do
  validate_identifiers (r.expected_result_schema_id ∷ r.expected_result_schema_version ∷ [])
  raise_if (r.timeout_ms == 0 || ltb max_runner_timeout_ms r.timeout_ms) timeout_out_of_range
  check_tree (dump_runner_request r)
  check_runner_request r
  ok r

-- The validation of the fields of a dumped request.
unfoldable pub rebuild_runner_request : (ℕ → Bool) → RunnerRequest → Result Error RunnerRequest
unfolding runner_request
rebuild_runner_request printable r = do
  request ← rebuild_request r.run_request
  context ← rebuild_context r.context
  invocation ← rebuild_invocation printable r.invocation
  runner_request (record r { run_request = request; context = context; invocation = invocation })

-- `RunnerRequest.from_dict(request.to_dict())`
unfoldable pub runner_request_snapshot : (ℕ → Bool) → RunnerRequest → Result Error RunnerRequest
unfolding rebuild_runner_request
runner_request_snapshot printable r =
    from_dict dump_runner_request (dump_runner_request r) (rebuild_runner_request printable r)
