-- ===== src/Tests/Routing.antt =====
-- The Supervisor's decisions about the samples.
use pmqa.Tests.Samples.{fresh, exhausted}
use pmqa.Tests.States.{exhausted-IsConstructed, exhausted-IsConsistent}
use pmqa.Base.{ok, ◌≡◌, refl, none, some}
use pmqa.Workflow.Models.{WorkflowState, WorkflowStatus, AgentRole, TerminationReason, all_mappings}
use pmqa.Workflow.Payload.{validate_all}
use pmqa.Workflow.Updates.{
  workflow_state_patch, check_replacements, check_additions, requested_fields, select,
}
use pmqa.Workflow.Reducer.{apply_patch}
use pmqa.Supervisor.Contracts.{
  RoutingDecision, SupervisorAction, SupervisorReason, routing_decision, check_contract,
}
use pmqa.Supervisor.Policy.{
  decision_of, agent_patch, terminal_patch, decide_next_action, validate_non_terminal_lifecycle,
  decide_active, validate_artifact_dependencies, decide_artifacts, explorer_or_iteration_limit,
  agent_decision, terminal_decision,
}
use pmqa.Supervisor.Routes.{Routes, decide_next_action-Routes}
use pmqa.Supervisor.Applies.{Reflects, decide_next_action-applies}

-- The decision to explore.
abbrev pub to_explore : RoutingDecision
to_explore =
    decision_of fresh SupervisorAction.execute_agent (some AgentRole.explorer)
      SupervisorReason.workflow_pending "Structured exploration evidence is required"
      (agent_patch AgentRole.explorer)

-- The decision to terminate.
abbrev pub to_terminate : RoutingDecision
to_terminate =
    decision_of exhausted SupervisorAction.terminate_workflow none
      SupervisorReason.max_iterations_reached "Workflow reached its maximum iteration count"
      (terminal_patch WorkflowStatus.terminated TerminationReason.max_iterations)

pub fresh-explored : decide_next_action fresh ≡ ok to_explore
unfolding decide_next_action validate_non_terminal_lifecycle decide_active
    validate_artifact_dependencies decide_artifacts explorer_or_iteration_limit agent_decision
    terminal_decision routing_decision check_contract workflow_state_patch check_replacements
    check_additions requested_fields select all_mappings validate_all
fresh-explored = refl

pub exhausted-terminated : decide_next_action exhausted ≡ ok to_terminate
unfolding decide_next_action validate_non_terminal_lifecycle decide_active
    validate_artifact_dependencies decide_artifacts explorer_or_iteration_limit agent_decision
    terminal_decision routing_decision check_contract workflow_state_patch check_replacements
    check_additions requested_fields select all_mappings validate_all
exhausted-terminated = refl

decide_next_action-Routes_example : Routes fresh to_explore
decide_next_action-Routes_example = decide_next_action-Routes fresh to_explore fresh-explored

decide_next_action-applies_example :
    (t : WorkflowState) × (apply_patch exhausted to_terminate.patch ≡ ok t)
    × Reflects to_terminate t
decide_next_action-applies_example =
    decide_next_action-applies exhausted to_terminate exhausted-IsConstructed exhausted-IsConsistent
      exhausted-terminated
