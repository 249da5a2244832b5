-- ===== src/Run/Records.antt =====
-- `RunRecord` of pmqa/run/models.py.
use pmqa.Base.{
  collect, Result, ok, ◌>>=◌, ◌>>◌, raise_if, ℕ, String, Bool, true, false, not, ◌&&◌, ◌||◌, Option,
  none, some, List, [], ◌∷◌, map, str_eq, ltb, is_some,
}
use pmqa.Values.{Value}
use pmqa.Run.Texts.{check_array}
use pmqa.Run.Dumps.{
  object_of, version, optional, number, time_value, array_of, dump_error, dump_reference,
  dump_result, dump_artifact, dump_metrics, check_tree,
}
use pmqa.Run.Build.{
  run_error, run_reference, rebuild_result, run_artifact, outcome_metrics, optionally,
}
use pmqa.Run.Identifiers.{
  Error, validate_identifiers, validate_optional, completion_incomplete, completion_mismatch,
  completed_before_started, started_before_created, updated_before_started, completed_after_updated,
  step_while_not_running, result_while_not_successful, duplicate_reference, duplicate_artifact,
  duplicate_invocation,
}
use pmqa.Run.Invocations.{is_before}
use pmqa.Run.Parts.{RunReference, StructuredResult, RunArtifact, RunError, OutcomeMetrics}
use pmqa.Workflow.Models.{differs}

pub data RunStatus : Type 0 where
  pending running awaiting_approval succeeded partially_succeeded failed cancelled : RunStatus

-- `_TERMINAL_RUN_STATUSES`
abbrev pub is_terminal_run : RunStatus → Bool
is_terminal_run RunStatus.pending = false
is_terminal_run RunStatus.running = false
is_terminal_run RunStatus.awaiting_approval = false
is_terminal_run _ = true

abbrev pub is_run_running : RunStatus → Bool
is_run_running RunStatus.running = true
is_run_running _ = false

abbrev pub is_successful : RunStatus → Bool
is_successful RunStatus.succeeded = true
is_successful RunStatus.partially_succeeded = true
is_successful _ = false

pub record RunRecord : Type 0 where
  pub run_id : String
  pub request_id : String
  pub session_id : String
  pub workflow_id : String
  pub workflow_version : String
  pub runner_id : String
  pub status : RunStatus
  pub references : List RunReference
  pub started_at : ℕ
  pub completed_at : Option ℕ
  pub duration_ms : Option ℕ
  pub current_step_id : Option String
  pub result : Option StructuredResult
  pub artifacts : List RunArtifact
  pub errors : List RunError
  pub runner_invocation_ids : List String
  pub outcome_metrics : Option OutcomeMetrics
  pub created_at : ℕ
  pub updated_at : ℕ

abbrev pub is_after : Option ℕ → ℕ → Bool
is_after none b = false
is_after (some a) b = ltb b a

unfoldable pub contains : String → List String → Bool
contains value [] = false
contains value (item ∷ rest) = str_eq item value || contains value rest

-- `len(items) != len(set(items))`
unfoldable pub has_duplicate : List String → Bool
unfolding contains
has_duplicate [] = false
has_duplicate (item ∷ rest) = contains item rest || has_duplicate rest

unfoldable pub contains_reference : RunReference → List RunReference → Bool
contains_reference value [] = false
contains_reference value (item ∷ rest) =
    str_eq item.reference_type value.reference_type && str_eq item.reference_id value.reference_id
    || contains_reference value rest

-- `_reject_duplicate_references`
unfoldable pub has_duplicate_reference : List RunReference → Bool
unfolding contains_reference
has_duplicate_reference [] = false
has_duplicate_reference (item ∷ rest) = contains_reference item rest || has_duplicate_reference rest

unfoldable pub check_run_fields : RunRecord → Result Error (Unit {0})
check_run_fields r = do
  validate_identifiers (
      r.run_id ∷ r.request_id ∷ r.session_id ∷ r.workflow_id ∷ r.workflow_version ∷ r.runner_id
      ∷ [])
  check_array r.references
  validate_optional r.current_step_id
  check_array r.artifacts
  check_array r.errors
  check_array r.runner_invocation_ids
  validate_identifiers r.runner_invocation_ids

-- `validate_contract`
unfoldable pub check_run : RunRecord → Result Error (Unit {0})
unfolding has_duplicate has_duplicate_reference
check_run r = do
  raise_if (differs (not (is_some r.completed_at)) (not (is_some r.duration_ms)))
      completion_incomplete
  raise_if (differs (is_terminal_run r.status) (is_some r.completed_at && is_some r.duration_ms))
      completion_mismatch
  raise_if (is_before r.completed_at r.started_at) completed_before_started
  raise_if (ltb r.started_at r.created_at) started_before_created
  raise_if (ltb r.updated_at r.started_at) updated_before_started
  raise_if (is_after r.completed_at r.updated_at) completed_after_updated
  raise_if (not (is_run_running r.status) && is_some r.current_step_id) step_while_not_running
  raise_if (is_some r.result && not (is_successful r.status)) result_while_not_successful
  raise_if (has_duplicate_reference r.references) duplicate_reference
  raise_if (has_duplicate (map (λ artifact. artifact.artifact_id) r.artifacts)) duplicate_artifact
  raise_if (has_duplicate r.runner_invocation_ids) duplicate_invocation

abbrev pub run_status_value : RunStatus → String
run_status_value RunStatus.pending = "pending"
run_status_value RunStatus.running = "running"
run_status_value RunStatus.awaiting_approval = "awaiting_approval"
run_status_value RunStatus.succeeded = "succeeded"
run_status_value RunStatus.partially_succeeded = "partially_succeeded"
run_status_value RunStatus.failed = "failed"
run_status_value RunStatus.cancelled = "cancelled"

unfoldable pub dump_run : RunRecord → Value
dump_run r = object_of (
    version
    ∷ ("run_id", Value.text r.run_id)
    ∷ ("request_id", Value.text r.request_id)
    ∷ ("session_id", Value.text r.session_id)
    ∷ ("workflow_id", Value.text r.workflow_id)
    ∷ ("workflow_version", Value.text r.workflow_version)
    ∷ ("runner_id", Value.text r.runner_id)
    ∷ ("status", Value.text (run_status_value r.status))
    ∷ ("references", array_of dump_reference r.references)
    ∷ ("started_at", time_value r.started_at)
    ∷ ("completed_at", optional time_value r.completed_at)
    ∷ ("duration_ms", optional number r.duration_ms)
    ∷ ("current_step_id", optional Value.text r.current_step_id)
    ∷ ("result", optional dump_result r.result)
    ∷ ("artifacts", array_of dump_artifact r.artifacts)
    ∷ ("errors", array_of dump_error r.errors)
    ∷ ("runner_invocation_ids", array_of Value.text r.runner_invocation_ids)
    ∷ ("outcome_metrics", optional dump_metrics r.outcome_metrics)
    ∷ ("created_at", time_value r.created_at)
    ∷ ("updated_at", time_value r.updated_at)
    ∷ [])

-- The constructor of the class.
unfoldable pub run_record : RunRecord → Result Error RunRecord
unfolding check_run_fields check_run
run_record r = do check_run_fields r; check_tree (dump_run r); check_run r; ok r

-- The validation of the fields of a dumped record.
unfoldable pub rebuild_run : (ℕ → Bool) → RunRecord → Result Error RunRecord
rebuild_run printable r = do
  references ← collect run_reference r.references
  result ← optionally rebuild_result r.result
  artifacts ← collect run_artifact r.artifacts
  errors ← collect (run_error printable) r.errors
  metrics ← optionally outcome_metrics r.outcome_metrics
  run_record (record r {
    references = references;
    result = result;
    artifacts = artifacts;
    errors = errors;
    outcome_metrics = metrics;
  })
