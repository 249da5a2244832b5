-- ===== src/Supervisor/Contracts.antt =====
-- pmqa/supervisor/contracts.py and errors.py.
use pmqa.Base.{
  Result, ok, ◌>>◌, raise_if, String, Bool, true, false, not, ◌||◌, Option, none, some,
  if◌then◌else◌, is_some,
}
use pmqa.Workflow.Errors.{Error as WorkflowError}
use pmqa.Workflow.Models.{AgentRole, role_eq, TerminationReason, WorkflowStatus, is_empty}
use pmqa.Workflow.Updates.{WorkflowStatePatch, requested_fields, is_filled}

pub data SupervisorAction : Type 0 where
  execute_agent complete_workflow fail_workflow terminate_workflow : SupervisorAction

pub data SupervisorReason : Type 0 where
  workflow_pending exploration_required knowledge_required validation_required validation_passed
        validation_failed max_iterations_reached workflow_error already_terminal :
      SupervisorReason

-- `SupervisorPolicyError`, with a constructor for each message, and the errors of the validation
-- of a decision.
pub data Error : Type 0 where
  reason_while_running both_agents routing_while_pending : Error
  knowledge_without_evidence validation_without_knowledge : Error
  missing_status status_not_text unsupported_status : Error
  unmatched_result missing_result continued_after_passed : Error
  failed_invocation incomplete_invocation : Error
  broken_cycle broken_recovery : Error
  empty_text terminal_not_empty agent_missing not_running wrong_agent current_not_cleared : Error
  agent_selected wrong_status wrong_reason routing_not_cleared : Error
  -- the patch of a decision was refused by its own contract
  patch_refused : WorkflowError → Error

pub record RoutingDecision : Type 0 where
  pub workflow_id : String
  pub action : SupervisorAction
  pub selected_agent : Option AgentRole
  pub reason_code : SupervisorReason
  pub summary : String
  pub patch : WorkflowStatePatch

abbrev pub is_already_terminal : SupervisorReason → Bool
is_already_terminal SupervisorReason.already_terminal = true
is_already_terminal _ = false

abbrev pub is_running : Option WorkflowStatus → Bool
is_running (some WorkflowStatus.running) = true
is_running _ = false

-- `a is b`, where `b` is an agent.
abbrev pub is_agent : Option AgentRole → Option AgentRole → Bool
is_agent (some a) (some b) = role_eq a b
is_agent none none = true
is_agent _ _ = false

-- The two entries of `expected_terminal`, compared with a patch.
abbrev pub has_status : SupervisorAction → Option WorkflowStatus → Bool
has_status SupervisorAction.complete_workflow (some WorkflowStatus.completed) = true
has_status SupervisorAction.fail_workflow (some WorkflowStatus.failed) = true
has_status SupervisorAction.terminate_workflow (some WorkflowStatus.terminated) = true
has_status _ _ = false

abbrev pub has_reason : SupervisorAction → Option TerminationReason → Bool
has_reason SupervisorAction.complete_workflow (some TerminationReason.goal_completed) = true
has_reason SupervisorAction.fail_workflow (some TerminationReason.error) = true
has_reason SupervisorAction.terminate_workflow (some TerminationReason.max_iterations) = true
has_reason _ _ = false

check_execute : RoutingDecision → Result Error (Unit {0})
check_execute d = do
  raise_if (not (is_some d.selected_agent)) agent_missing
  raise_if (not (is_running d.patch.status)) not_running
  raise_if (not (is_agent d.patch.next_agent d.selected_agent)) wrong_agent
  raise_if (not d.patch.clear_current_agent) current_not_cleared

check_terminal : RoutingDecision → Result Error (Unit {0})
check_terminal d = do
  raise_if (is_some d.selected_agent) agent_selected
  raise_if (not (has_status d.action d.patch.status)) wrong_status
  raise_if (not (has_reason d.action d.patch.termination_reason)) wrong_reason
  raise_if (not d.patch.clear_current_agent || not d.patch.clear_next_agent) routing_not_cleared

check_action : SupervisorAction → RoutingDecision → Result Error (Unit {0})
unfolding check_execute check_terminal
check_action SupervisorAction.execute_agent d = check_execute d
check_action _ d = check_terminal d

unfoldable pub check_contract : RoutingDecision → Result Error (Unit {0})
unfolding check_action requested_fields
check_contract d =
    if is_already_terminal d.reason_code
    then raise_if (is_some d.selected_agent || is_filled (requested_fields d.patch))
        terminal_not_empty
    else check_action d.action d

-- The constructor of the class.
unfoldable pub routing_decision : RoutingDecision → Result Error RoutingDecision
unfolding check_contract
routing_decision d = do
  raise_if (is_empty d.workflow_id || is_empty d.summary) empty_text
  check_contract d
  ok d
