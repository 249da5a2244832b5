-- ===== src/Application/Registry.antt =====
-- pmqa/application/registry.py. A workflow adapter and a runner are what they declare and do: the
-- definition or metadata that is read when they are registered and the one that is read when they
-- are used, and what their methods answer.
use pmqa.Base.{
  collect, Result, ok, err, ◌>>=◌, ◌>>◌, raise_if, ℕ, String, Bool, false, ◌&&◌, ◌||◌, Option, none,
  some, List, [], ◌∷◌, map, str_eq, ltb, if◌then◌else◌, length,
}
use pmqa.Run.Identifiers.{Error}
use pmqa.Run.Parts.{StructuredResult}
use pmqa.Run.Requests.{RunRequest}
use pmqa.Run.Records.{has_duplicate}
use pmqa.Run.Definitions.{WorkflowDefinition, definition_snapshot}
use pmqa.Runners.Contracts.{RunnerMetadata, metadata_snapshot, RunnerRequest}
use pmqa.Runners.Response.{RunnerResponse}
use pmqa.Application.Contracts.{
  ApplicationFailureCode, Failure, failure, or_invalid, invalid_workflow_registry,
  invalid_runner_registry, workflow_not_found, runner_not_found,
}

-- What a validator of an adapter does: it returns, it raises `WorkflowAdapterValidationError`, or it
-- raises another exception.
pub data Signal : Type 0 where
  accepted rejected raised : Signal

-- `PMQAWorkflowAdapter`
pub record PmqaWorkflowAdapter : Type 0 where
  pub definition : WorkflowDefinition
  pub live_definition : WorkflowDefinition
  pub validate_request : RunRequest → Signal
  pub validate_result : StructuredResult → Signal

-- What a runner does: it returns a response, it raises `RunnerBoundaryValidationError`, or it raises
-- another exception.
pub data Reply : Type 0 where
  response : RunnerResponse → Reply
  boundary_failed other_exception : Reply

-- `PMQARunner`; a control says whether a cancellation is requested.
pub record PmqaRunner : Type 0 where
  pub metadata : RunnerMetadata
  pub live_metadata : RunnerMetadata
  pub execute : RunnerRequest → Bool → Reply

-- `_WorkflowRegistration`
pub record WorkflowRegistration : Type 0 where
  pub definition : WorkflowDefinition
  pub adapter : PmqaWorkflowAdapter

-- `_RunnerRegistration`
pub record RunnerRegistration : Type 0 where
  pub metadata : RunnerMetadata
  pub runner : PmqaRunner

-- `MAX_APPLICATION_REGISTRY_ITEMS`
abbrev pub max_application_registry_items : ℕ
max_application_registry_items = 256

-- Any exception of a snapshot is reported as the code.
abbrev pub or_failed {ℓ} :
    {A : Type ℓ} → ApplicationFailureCode → Result Error A → Result ApplicationFailureCode A
or_failed code (ok a) = ok a
or_failed code (err e) = err code

abbrev pub same_workflow : String → String → WorkflowDefinition → Bool
same_workflow workflow_id workflow_version d =
    str_eq d.workflow_id workflow_id && str_eq d.workflow_version workflow_version

-- A registration has an identity.
unfoldable pub has_workflow : String → String → List WorkflowRegistration → Bool
has_workflow id v [] = false
has_workflow id v (r ∷ rest) = same_workflow id v r.definition || has_workflow id v rest

-- `len(identities) != len(set(identities))`
unfoldable pub has_duplicate_workflow : List WorkflowRegistration → Bool
unfolding has_workflow
has_duplicate_workflow [] = false
has_duplicate_workflow (r ∷ rest) =
    has_workflow r.definition.workflow_id r.definition.workflow_version rest
    || has_duplicate_workflow rest

unfoldable pub register_workflow :
    (ℕ → Bool) → PmqaWorkflowAdapter → Result ApplicationFailureCode WorkflowRegistration
register_workflow printable adapter = do
  snapshot ← or_failed invalid_workflow_registry (definition_snapshot printable adapter.definition)
  ok (record { definition = snapshot; adapter = adapter })

-- `WorkflowRegistry.__init__`
unfoldable pub workflow_registry :
    (ℕ → Bool)
    → List PmqaWorkflowAdapter
    → Result ApplicationFailureCode (List WorkflowRegistration)
unfolding register_workflow has_duplicate_workflow
workflow_registry printable adapters = do
  raise_if (ltb max_application_registry_items (length adapters)) invalid_workflow_registry
  registrations ← collect (register_workflow printable) adapters
  raise_if (has_duplicate_workflow registrations) invalid_workflow_registry
  ok registrations

unfoldable pub find_workflow :
    String → String → List WorkflowRegistration → Option WorkflowRegistration
find_workflow id v [] = none
find_workflow id v (r ∷ rest) =
    if same_workflow id v r.definition then some r else find_workflow id v rest

-- The registration that `resolve` returns, with a new snapshot of the definition.
abbrev pub resolved_workflow :
    (ℕ → Bool) → Option WorkflowRegistration → Result Failure WorkflowRegistration
resolved_workflow printable none = err (failure workflow_not_found)
resolved_workflow printable (some r) = do
  snapshot ← or_invalid (definition_snapshot printable r.definition)
  ok (record { definition = snapshot; adapter = r.adapter })

-- `WorkflowRegistry.resolve`
unfoldable pub resolve_workflow :
    (ℕ → Bool) → List WorkflowRegistration → String → String → Result Failure WorkflowRegistration
unfolding find_workflow
resolve_workflow printable registry workflow_id workflow_version =
    resolved_workflow printable (find_workflow workflow_id workflow_version registry)

unfoldable pub register_runner :
    (ℕ → Bool) → PmqaRunner → Result ApplicationFailureCode RunnerRegistration
register_runner printable runner = do
  snapshot ← or_failed invalid_runner_registry (metadata_snapshot printable runner.metadata)
  ok (record { metadata = snapshot; runner = runner })

-- `RunnerRegistry.__init__`
unfoldable pub runner_registry :
    (ℕ → Bool) → List PmqaRunner → Result ApplicationFailureCode (List RunnerRegistration)
unfolding register_runner
runner_registry printable runners = do
  raise_if (ltb max_application_registry_items (length runners)) invalid_runner_registry
  registrations ← collect (register_runner printable) runners
  raise_if (has_duplicate (map (λ r. r.metadata.runner_id) registrations)) invalid_runner_registry
  ok registrations

unfoldable pub find_runner : String → List RunnerRegistration → Option RunnerRegistration
find_runner id [] = none
find_runner id (r ∷ rest) = if str_eq r.metadata.runner_id id then some r else find_runner id rest

abbrev pub resolved_runner :
    (ℕ → Bool) → Option RunnerRegistration → Result Failure RunnerRegistration
resolved_runner printable none = err (failure runner_not_found)
resolved_runner printable (some r) = do
  snapshot ← or_invalid (metadata_snapshot printable r.metadata)
  ok (record { metadata = snapshot; runner = r.runner })

-- `RunnerRegistry.resolve`
unfoldable pub resolve_runner :
    (ℕ → Bool) → List RunnerRegistration → String → Result Failure RunnerRegistration
unfolding find_runner
resolve_runner printable registry runner_id =
    resolved_runner printable (find_runner runner_id registry)

-- `WorkflowRegistry.definitions`
unfoldable pub workflow_definitions :
    (ℕ → Bool) → List WorkflowRegistration → Result Failure (List WorkflowDefinition)
workflow_definitions printable registry =
    or_invalid (collect (λ r. definition_snapshot printable r.definition) registry)

-- `RunnerRegistry.metadata`
unfoldable pub runner_metadata_list :
    (ℕ → Bool) → List RunnerRegistration → Result Failure (List RunnerMetadata)
runner_metadata_list printable registry =
    or_invalid (collect (λ r. metadata_snapshot printable r.metadata) registry)
