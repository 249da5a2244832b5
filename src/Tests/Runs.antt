-- ===== src/Tests/Runs.antt =====
-- Runs of the sample's graph.
use pmqa.Tests.Samples.{fresh, routed, explored, exhausted, terminated, agents}
use pmqa.Tests.States.{
  fresh-IsConstructed, exhausted-IsConstructed, fresh-IsConsistent, exhausted-IsConsistent,
}
use pmqa.Tests.Turns.{graph_of, routed-executed, agents-IsRegistered}
use pmqa.Base.{◌+◌, ◌≤◌, ◌≡◌, refl, true, none, some, is_some}
use pmqa.Values.{is_mapping, is_string_keyed}
use pmqa.Workflow.Payload.{validate_payload, validate_all, freeze}
use pmqa.Workflow.Models.{
  AgentRole, workflow_state, check_fields, check_contract, freeze_state, all_mappings,
  require_aware, is_terminal,
}
use pmqa.Workflow.Models.Construct.{IsConstructed}
use pmqa.Workflow.Updates.{
  workflow_state_patch, check_replacements, check_additions, requested_fields, select,
}
use pmqa.Workflow.Reducer.{apply_patch, check_progress, candidate, validate_lifecycle}
use pmqa.Workflow.Reducer.Progress.{SameRun}
use pmqa.Workflow.Reducer.Lifecycle.{IsConsistent}
use pmqa.Supervisor.Contracts.{SupervisorAction, routing_decision}
use pmqa.Supervisor.Contracts.{check_contract as check_decision}
use pmqa.Supervisor.Policy.{
  decide_next_action, validate_non_terminal_lifecycle, decide_active,
  validate_artifact_dependencies, decide_artifacts, explorer_or_iteration_limit, agent_decision,
  terminal_decision,
}
use pmqa.Orchestration.{
  Node, Config, Step, Reach, start, execute_selected_agent, supervisor_node, route_after_supervisor,
}
use pmqa.Orchestration.Steps.{explorations}
use pmqa.Orchestration.Runs.{run_invariant, run_ends_terminal}

-- The points of the run.
abbrev to_act : Config
to_act = record {
  node = Node.execute_selected_agent_node;
  graph = graph_of routed (some SupervisorAction.execute_agent) (some AgentRole.explorer);
}

abbrev acted : Config
acted = record { node = Node.supervisor; graph = graph_of explored none none }

abbrev finished : Config
finished = record {
  node = Node.finish;
  graph = graph_of terminated (some SupervisorAction.terminate_workflow) none;
}

fresh-Step : Step agents (start fresh) to_act
unfolding supervisor_node route_after_supervisor decide_next_action validate_non_terminal_lifecycle
    decide_active validate_artifact_dependencies decide_artifacts explorer_or_iteration_limit
    agent_decision terminal_decision routing_decision check_decision workflow_state_patch
    check_replacements check_additions requested_fields select apply_patch check_progress candidate
    validate_lifecycle workflow_state check_fields check_contract freeze_state all_mappings
    require_aware is_mapping is_string_keyed validate_all validate_payload freeze
fresh-Step = Step.decide refl refl refl refl

act-Step : Step agents to_act acted
unfolding execute_selected_agent
act-Step = Step.act refl routed-executed refl

exhausted-Step : Step agents (start exhausted) finished
unfolding supervisor_node route_after_supervisor decide_next_action validate_non_terminal_lifecycle
    decide_active validate_artifact_dependencies decide_artifacts explorer_or_iteration_limit
    agent_decision terminal_decision routing_decision check_decision workflow_state_patch
    check_replacements check_additions requested_fields select apply_patch check_progress candidate
    validate_lifecycle workflow_state check_fields check_contract freeze_state all_mappings
    require_aware is_mapping is_string_keyed validate_all validate_payload freeze
exhausted-Step = Step.stop refl refl refl refl

-- One turn of the Explorer.
abbrev one_turn : Reach agents (start fresh) acted
one_turn = Reach.next (Reach.next Reach.here fresh-Step) act-Step

run_invariant_example :
    IsConstructed explored
    × IsConsistent explored
    × SameRun fresh explored
    × (explored.iteration ≡ fresh.iteration + explorations one_turn)
    × (fresh.iteration + explorations one_turn ≤ fresh.max_iterations)
run_invariant_example =
    run_invariant agents fresh acted agents-IsRegistered fresh-IsConstructed fresh-IsConsistent
      one_turn

run_ends_terminal_example :
    (is_terminal terminated.status ≡ true)
    × (is_some terminated.termination_reason ≡ true)
    × (terminated.current_agent ≡ none)
    × (terminated.next_agent ≡ none)
run_ends_terminal_example =
    run_ends_terminal agents exhausted finished agents-IsRegistered exhausted-IsConstructed
      exhausted-IsConsistent (Reach.next Reach.here exhausted-Step) refl
