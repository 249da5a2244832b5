-- ===== src/Supervisor/Policy.antt =====
-- pmqa/supervisor/policy.py: the next action, from the state alone.
use pmqa.Base.{
  Result, ok, err, ◌>>=◌, ◌>>◌, raise_if, ℕ, zero, suc, String, Bool, true, false, not, ◌&&◌, ◌||◌,
  Option, none, some, List, [], ◌∷◌, leb, if◌then◌else◌, is_some, length, drop, last,
}
use pmqa.Values.{Value}
use pmqa.Workflow.Models.{AgentRole, TerminationReason, WorkflowState, WorkflowStatus}
use pmqa.Workflow.Updates.{WorkflowStatePatch, empty_patch, is_filled, workflow_state_patch}
use pmqa.Workflow.Errors.{Error as WorkflowError}
use pmqa.Supervisor.Contracts.{
  Error, SupervisorAction, SupervisorReason, RoutingDecision, routing_decision,
  reason_while_running, both_agents, routing_while_pending, knowledge_without_evidence,
  validation_without_knowledge, unmatched_result, patch_refused,
}
use pmqa.Supervisor.History.{
  Verdict, validation_status, recovery_roles, require_recovery_sequence,
  validate_validation_history, passed, failed,
}

abbrev pub is_pending : WorkflowStatus → Bool
is_pending WorkflowStatus.pending = true
is_pending _ = false

-- `_validate_non_terminal_lifecycle`
unfoldable pub validate_non_terminal_lifecycle : WorkflowState → Result Error (Unit {0})
validate_non_terminal_lifecycle state = do
  raise_if (is_some state.termination_reason) reason_while_running
  raise_if (is_some state.current_agent && is_some state.next_agent) both_agents
  raise_if (is_pending state.status && (is_some state.current_agent || is_some state.next_agent))
      routing_while_pending

-- `_validate_artifact_dependencies`
unfoldable pub validate_artifact_dependencies : WorkflowState → Result Error (Unit {0})
validate_artifact_dependencies state = do
  raise_if (is_filled state.knowledge_candidates && not (is_filled state.evidence))
      knowledge_without_evidence
  raise_if (is_filled state.validation_results && not (is_filled state.knowledge_candidates))
      validation_without_knowledge

abbrev pub or_refused {ℓ} : {A : Type ℓ} → Result WorkflowError A → Result Error A
or_refused (ok a) = ok a
or_refused (err e) = err (patch_refused e)

-- The arguments of `RoutingDecision(...)`.
abbrev pub decision_of :
    WorkflowState
    → SupervisorAction
    → Option AgentRole
    → SupervisorReason
    → String
    → WorkflowStatePatch
    → RoutingDecision
decision_of state action agent reason summary patch = record {
  workflow_id = state.workflow_id;
  action = action;
  selected_agent = agent;
  reason_code = reason;
  summary = summary;
  patch = patch;
}

-- The patch of `_agent_decision`.
abbrev pub agent_patch : AgentRole → WorkflowStatePatch
agent_patch agent = record empty_patch {
  status = some WorkflowStatus.running;
  clear_current_agent = true;
  next_agent = some agent;
  clear_termination_reason = true;
}

-- The patch of `_terminal_decision`.
abbrev pub terminal_patch : WorkflowStatus → TerminationReason → WorkflowStatePatch
terminal_patch status reason = record empty_patch {
  status = some status;
  clear_current_agent = true;
  clear_next_agent = true;
  termination_reason = some reason;
}

-- `_agent_decision`
unfoldable pub agent_decision :
    WorkflowState → AgentRole → SupervisorReason → String → Result Error RoutingDecision
agent_decision state agent reason summary = do
  patch ← or_refused (workflow_state_patch (agent_patch agent))
  routing_decision (record {
    workflow_id = state.workflow_id;
    action = SupervisorAction.execute_agent;
    selected_agent = some agent;
    reason_code = reason;
    summary = summary;
    patch = patch;
  })

-- `_terminal_decision`
unfoldable pub terminal_decision :
    WorkflowState
    → SupervisorAction
    → SupervisorReason
    → WorkflowStatus
    → TerminationReason
    → String
    → Result Error RoutingDecision
terminal_decision state action reason status termination_reason summary = do
  patch ← or_refused (workflow_state_patch (terminal_patch status termination_reason))
  routing_decision (record {
    workflow_id = state.workflow_id;
    action = action;
    selected_agent = none;
    reason_code = reason;
    summary = summary;
    patch = patch;
  })

-- `_explorer_or_iteration_limit`
unfoldable pub explorer_or_iteration_limit :
    WorkflowState → SupervisorReason → String → Result Error RoutingDecision
unfolding agent_decision terminal_decision
explorer_or_iteration_limit state reason summary =
    if leb state.max_iterations state.iteration
    then terminal_decision state SupervisorAction.terminate_workflow
        SupervisorReason.max_iterations_reached WorkflowStatus.terminated
        TerminationReason.max_iterations "Workflow reached its maximum iteration count"
    else agent_decision state AgentRole.explorer reason summary

-- What `_decide_failed_validation_recovery` decides from the number of completed roles.
unfoldable pub recovery_decision : WorkflowState → ℕ → Result Error RoutingDecision
unfolding explorer_or_iteration_limit
recovery_decision state zero =
    explorer_or_iteration_limit state SupervisorReason.validation_failed
      "Failed-validation recovery requires explorer"
recovery_decision state (suc zero) =
    agent_decision state AgentRole.knowledge SupervisorReason.knowledge_required
      "Failed-validation recovery requires knowledge"
recovery_decision state (suc (suc completed)) =
    agent_decision state AgentRole.validator SupervisorReason.validation_required
      "Failed-validation recovery requires validator"

-- `_decide_failed_validation_recovery`; there is an index, since there is a result.
unfoldable pub decide_failed_validation_recovery :
    WorkflowState → List ℕ → Result Error RoutingDecision
unfolding require_recovery_sequence recovery_decision
decide_failed_validation_recovery state [] = err unmatched_result
decide_failed_validation_recovery state (index ∷ indexes) = do
  roles ← recovery_roles (drop (suc (last index indexes)) state.step_history)
  require_recovery_sequence roles false
  recovery_decision state (length roles)

unfoldable pub decide_verdict : WorkflowState → List ℕ → Verdict → Result Error RoutingDecision
unfolding terminal_decision decide_failed_validation_recovery
decide_verdict state indexes passed =
    terminal_decision state SupervisorAction.complete_workflow SupervisorReason.validation_passed
      WorkflowStatus.completed TerminationReason.goal_completed "Latest knowledge validation passed"
decide_verdict state indexes failed = decide_failed_validation_recovery state indexes

-- The part of `decide_next_action` behind the test of the validation results.
unfoldable pub decide_validated : WorkflowState → List Value → Result Error RoutingDecision
unfolding validate_validation_history validation_status agent_decision decide_verdict
decide_validated state [] =
    agent_decision state AgentRole.validator SupervisorReason.validation_required
      "Knowledge validation is required"
decide_validated state (result ∷ results) = do
  indexes ← validate_validation_history state
  status ← validation_status (last result results)
  decide_verdict state indexes status

-- The part that asks for the artifact that is missing.
unfoldable pub decide_artifacts : WorkflowState → Result Error RoutingDecision
unfolding explorer_or_iteration_limit agent_decision decide_validated
decide_artifacts state =
    if not (is_filled state.evidence)
    then explorer_or_iteration_limit state
        (if is_pending state.status
          then SupervisorReason.workflow_pending
          else SupervisorReason.exploration_required)
        "Structured exploration evidence is required"
    else if not (is_filled state.knowledge_candidates)
    then agent_decision state AgentRole.knowledge SupervisorReason.knowledge_required
        "Knowledge candidates are required"
    else decide_validated state state.validation_results

-- The part behind the lifecycle test.
unfoldable pub decide_active : WorkflowState → Result Error RoutingDecision
unfolding terminal_decision validate_artifact_dependencies decide_artifacts
decide_active state =
    if is_filled state.errors
    then terminal_decision state SupervisorAction.fail_workflow SupervisorReason.workflow_error
        WorkflowStatus.failed TerminationReason.error "Workflow contains a fatal error"
    else validate_artifact_dependencies state >> decide_artifacts state

-- `_TERMINAL_ACTIONS.get(status)`
abbrev pub terminal_action : WorkflowStatus → Option SupervisorAction
terminal_action WorkflowStatus.completed = some SupervisorAction.complete_workflow
terminal_action WorkflowStatus.failed = some SupervisorAction.fail_workflow
terminal_action WorkflowStatus.terminated = some SupervisorAction.terminate_workflow
terminal_action _ = none

abbrev pub decide_by : Option SupervisorAction → WorkflowState → Result Error RoutingDecision
decide_by (some action) state = routing_decision (record {
  workflow_id = state.workflow_id;
  action = action;
  selected_agent = none;
  reason_code = SupervisorReason.already_terminal;
  summary = "Workflow is already terminal";
  patch = empty_patch;
})
decide_by none state = do validate_non_terminal_lifecycle state; decide_active state

unfoldable pub decide_next_action : WorkflowState → Result Error RoutingDecision
unfolding routing_decision validate_non_terminal_lifecycle decide_active
decide_next_action state = decide_by (terminal_action state.status) state
