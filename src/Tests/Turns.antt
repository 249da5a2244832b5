-- ===== src/Tests/Turns.antt =====
-- Turns of the sample's agents, and runs of its graph.
use pmqa.Base.Digits.{decimal, decimal_from}
use pmqa.Tests.Samples.{time, page_evidence, routed, explored, explorer_patch, agent_with, agents}
use pmqa.Tests.States.{routed-IsConstructed}
use pmqa.Base.{ok, ◌≡◌, refl, Option, none, some, [], ◌∷◌}
use pmqa.Security.{
  is_plain, casefold_char, casefold, sub_runs, strip_left, strip_right, normalize_boundary_key,
  in_policy, is_prohibited_key,
}
use pmqa.Values.{is_mapping, is_string_keyed}
use pmqa.Workflow.Payload.{check_entry, validate_payload, validate_all, freeze}
use pmqa.Workflow.Models.{
  WorkflowState, AgentRole, workflow_state, check_fields, check_contract, freeze_state,
  all_mappings, require_aware,
}
use pmqa.Workflow.Models.Construct.{IsConstructed}
use pmqa.Workflow.Updates.{
  workflow_state_patch, check_replacements, check_additions, requested_fields, select,
  agent_update_policy, minus, validate_patch_for_role, common_append_field,
}
use pmqa.Workflow.Reducer.{apply_patch, check_progress, candidate, validate_lifecycle}
use pmqa.Workflow.Agents.{
  agent_request, agent_result, agent_invocations, revalidate, validate_agent_result,
}
use pmqa.Supervisor.Contracts.{SupervisorAction}
use pmqa.Runtime.{execute_agent, reduce_result}
use pmqa.Runtime.Isolation.{RecordsOnly, execute_agent-RecordsOnly}
use pmqa.Orchestration.{
  GraphState, execute_role, patched, invocation_id, get_agent, validate_agents, has_unsupported,
  copy_agent,
}
use pmqa.Orchestration.Turns.{IsRegistered, Turn, execute_role-Turn}
use pmqa.Orchestration.Registry.{validate_agents-IsRegistered}

agents-valid : validate_agents agents ≡ ok agents
unfolding validate_agents get_agent has_unsupported copy_agent
agents-valid = refl

validate_agents-IsRegistered_example : IsRegistered agents
validate_agents-IsRegistered_example = validate_agents-IsRegistered agents agents agents-valid

pub agents-IsRegistered : IsRegistered agents
agents-IsRegistered = validate_agents-IsRegistered agents agents agents-valid

-- The state with the Explorer at work.
abbrev exploring : WorkflowState
exploring = record routed {
  current_agent = some AgentRole.explorer;
  next_agent = none;
  iteration = 1;
}

exploring-IsConstructed : IsConstructed exploring
unfolding workflow_state check_fields check_contract freeze_state all_mappings require_aware
    is_mapping is_string_keyed validate_all validate_payload check_entry freeze
exploring-IsConstructed = refl

-- The Explorer's result in the state.
abbrev has_evidence : WorkflowState
has_evidence = record exploring { evidence = page_evidence ∷ [] }

exploring-executed :
    execute_agent exploring (agent_with AgentRole.explorer explorer_patch) "w1:1:explorer" (time 12)
    ≡ ok has_evidence
unfolding execute_agent agent_request reduce_result revalidate agent_result agent_invocations
    validate_agent_result validate_patch_for_role requested_fields select agent_update_policy minus
    common_append_field workflow_state_patch check_replacements check_additions apply_patch
    check_progress candidate validate_lifecycle workflow_state check_fields check_contract
    freeze_state all_mappings require_aware is_mapping is_string_keyed validate_all validate_payload
    check_entry freeze is_prohibited_key is_plain casefold_char casefold sub_runs strip_left
    strip_right normalize_boundary_key in_policy
exploring-executed = refl

execute_agent-RecordsOnly_example : RecordsOnly AgentRole.explorer exploring has_evidence
execute_agent-RecordsOnly_example =
    execute_agent-RecordsOnly exploring has_evidence (agent_with AgentRole.explorer explorer_patch)
      "w1:1:explorer" (time 12) exploring-IsConstructed (λ e. cc) exploring-executed

-- The graph's states.
abbrev pub graph_of : WorkflowState → Option SupervisorAction → Option AgentRole → GraphState
graph_of state action agent = record {
  workflow_state = state;
  next_action = action;
  selected_agent = agent;
}

pub routed-executed :
    execute_role agents routed AgentRole.explorer ≡ ok (graph_of explored none none)
unfolding execute_role get_agent invocation_id decimal decimal_from execute_agent agent_request
    reduce_result revalidate agent_result agent_invocations validate_agent_result
    validate_patch_for_role requested_fields select agent_update_policy minus common_append_field
    patched workflow_state_patch check_replacements check_additions apply_patch check_progress
    candidate validate_lifecycle workflow_state check_fields check_contract freeze_state
    all_mappings require_aware is_mapping is_string_keyed validate_all validate_payload check_entry
    freeze is_prohibited_key is_plain casefold_char casefold sub_runs strip_left strip_right
    normalize_boundary_key in_policy
routed-executed = refl

execute_role-Turn_example : Turn AgentRole.explorer routed explored
execute_role-Turn_example =
    execute_role-Turn agents AgentRole.explorer routed (graph_of explored none none)
      agents-IsRegistered routed-IsConstructed (λ e. cc) routed-executed
