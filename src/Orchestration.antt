-- ===== src/Orchestration.antt =====
-- pmqa/orchestration/langgraph.py: the nodes of the graph, its routing and its edges.
pub mod Turns
pub mod Registry
pub mod Decisions
pub mod Steps
pub mod Runs
use Prim.Native.String
use pmqa.Base.{
  Result, ok, err, ◌>>=◌, ◌>>◌, raise_if, >>=-eq-ok, Result-cases, raise_if-eq-ok, ℕ, zero, suc,
  ◌+◌, ◌-◌, ◌*◌, ◌/◌, ◌%◌, ◌^◌, ◌≤◌, ◌<◌, String, ◌≡◌, refl, sym, ap, ◌∙◌, ◌≢◌, ◌↔◌, ◌⊎◌, inl, inr,
  Bool, true, false, not, ◌&&◌, ◌||◌, Option, none, some, List, [], ◌∷◌, ◌++◌, map, arith, str_eq,
  eq_iff, codes, ltb, leb, ◌==◌, if◌then◌else◌, ltb-false, le→leb, leb→le, Bool-cases, Option-cases,
  is_some, length, length-append, All, All-weaken, take, drop, last,
}
use pmqa.Workflow.Errors.{Error as WorkflowError}
use pmqa.Workflow.Models.{AgentRole, role_eq, WorkflowState}
use pmqa.Workflow.Updates.{WorkflowStatePatch, empty_patch, workflow_state_patch}
use pmqa.Workflow.Reducer.{apply_patch}
use pmqa.Workflow.Agents.{PmqaAgent}
use pmqa.Base.Digits.{decimal}
use pmqa.Runtime.{execute_agent}
use pmqa.Supervisor.Contracts.{Error as PolicyError, SupervisorAction}
use pmqa.Supervisor.Policy.{decide_next_action}

-- `PMQAGraphAssemblyError`, with a constructor for each message, and the errors of the parts that
-- the nodes call.
pub data Error : Type 0 where
  missing_agents unsupported_agents role_mismatch : Error
  unsupported_selected_agent terminal_selects_agent incomplete_routing : Error
  agent_not_registered : Error
  policy_error : PolicyError → Error
  workflow_error : WorkflowError → Error

abbrev pub of_policy {ℓ} : {A : Type ℓ} → Result PolicyError A → Result Error A
of_policy (ok a) = ok a
of_policy (err e) = err (policy_error e)

abbrev pub of_workflow {ℓ} : {A : Type ℓ} → Result WorkflowError A → Result Error A
of_workflow (ok a) = ok a
of_workflow (err e) = err (workflow_error e)

-- `PMQAGraphState`
pub record GraphState : Type 0 where
  pub workflow_state : WorkflowState
  pub next_action : Option SupervisorAction
  pub selected_agent : Option AgentRole

-- The registered agents, as the items of a dictionary.
abbrev pub Agents : Type 0
Agents = List (AgentRole × PmqaAgent)

unfoldable pub get_agent : AgentRole → Agents → Option PmqaAgent
get_agent role [] = none
get_agent role ((key, agent) ∷ rest) = if role_eq key role then some agent else get_agent role rest

-- `selected_agent in _EXECUTABLE_ROLES`
abbrev pub is_executable : Option AgentRole → Bool
is_executable none = false
is_executable (some AgentRole.supervisor) = false
is_executable (some _) = true

-- `registered_roles - _EXECUTABLE_ROLES` is not empty.
unfoldable pub has_unsupported : Agents → Bool
has_unsupported [] = false
has_unsupported ((key, agent) ∷ rest) = not (is_executable (some key)) || has_unsupported rest

-- One round of the loop that copies the agents.
unfoldable pub copy_agent : AgentRole → Option PmqaAgent → Result Error (AgentRole × PmqaAgent)
copy_agent role none = err missing_agents
copy_agent role (some agent) =
    if role_eq agent.role role then ok (role, agent) else err role_mismatch

-- `_EXECUTABLE_ROLES - registered_roles` is empty.
abbrev pub has_all : Agents → Bool
has_all agents =
    is_some (get_agent AgentRole.explorer agents)
    && is_some (get_agent AgentRole.knowledge agents)
    && is_some (get_agent AgentRole.validator agents)

-- `_validate_agents`; the roles are visited in the order of their names.
unfoldable pub validate_agents : Agents → Result Error Agents
unfolding get_agent has_unsupported copy_agent
validate_agents agents = do
  raise_if (not (has_all agents)) missing_agents
  raise_if (has_unsupported agents) unsupported_agents
  explorer ← copy_agent AgentRole.explorer (get_agent AgentRole.explorer agents)
  knowledge ← copy_agent AgentRole.knowledge (get_agent AgentRole.knowledge agents)
  validator ← copy_agent AgentRole.validator (get_agent AgentRole.validator agents)
  ok (explorer ∷ knowledge ∷ validator ∷ [])

unfoldable pub supervisor_node : GraphState → Result Error GraphState
supervisor_node g = do
  decision ← of_policy (decide_next_action g.workflow_state)
  state ← of_workflow (apply_patch g.workflow_state decision.patch)
  ok (record {
    workflow_state = state;
    next_action = some decision.action;
    selected_agent = decision.selected_agent;
  })

abbrev pub role_value : AgentRole → String
role_value AgentRole.supervisor = "supervisor"
role_value AgentRole.explorer = "explorer"
role_value AgentRole.validator = "validator"
role_value AgentRole.knowledge = "knowledge"

-- `iteration + 1` for the Explorer, and nothing for the others.
abbrev pub next_iteration : AgentRole → ℕ → Option ℕ
next_iteration AgentRole.explorer iteration = some (iteration + 1)
next_iteration _ iteration = none

-- The patch that starts an agent.
abbrev pub start_patch : WorkflowState → AgentRole → WorkflowStatePatch
start_patch state role = record empty_patch {
  current_agent = some role;
  clear_next_agent = true;
  iteration = next_iteration role state.iteration;
}

-- The patch that ends its turn.
abbrev pub finish_patch : WorkflowStatePatch
finish_patch = record empty_patch { clear_current_agent = true }

-- The update of a state by a patch that the node constructs.
unfoldable pub patched : WorkflowState → WorkflowStatePatch → Result Error WorkflowState
patched state patch = do
  patch' ← of_workflow (workflow_state_patch patch)
  of_workflow (apply_patch state patch')

-- `registered_agents[role]`
abbrev pub registered : Option PmqaAgent → Result Error PmqaAgent
registered none = err agent_not_registered
registered (some agent) = ok agent

-- The identifier of an invocation.
unfoldable pub invocation_id : WorkflowState → AgentRole → String
unfolding decimal
invocation_id state role =
    String.◌++◌ state.workflow_id
      (String.◌++◌ ":" (String.◌++◌ (decimal state.iteration) (String.◌++◌ ":" (role_value role))))

-- The part of `execute_selected_agent` behind its first test.
unfoldable pub execute_role : Agents → WorkflowState → AgentRole → Result Error GraphState
execute_role agents state role = do
  execution ← patched state (start_patch state role)
  agent ← registered (get_agent role agents)
  result ←
      of_workflow
        (execute_agent execution agent (invocation_id execution role) execution.updated_at)
  completed ← patched result finish_patch
  ok (record { workflow_state = completed; next_action = none; selected_agent = none })

abbrev pub execute_selected : Agents → WorkflowState → Option AgentRole → Result Error GraphState
execute_selected agents state none = err unsupported_selected_agent
execute_selected agents state (some AgentRole.supervisor) = err unsupported_selected_agent
execute_selected agents state (some role) = execute_role agents state role

unfoldable pub execute_selected_agent : Agents → GraphState → Result Error GraphState
execute_selected_agent agents g = execute_selected agents g.workflow_state g.selected_agent

pub data Route : Type 0 where
  execute end : Route

unfoldable pub route_after_supervisor :
    Option SupervisorAction → Option AgentRole → Result Error Route
route_after_supervisor none selected = err incomplete_routing
route_after_supervisor (some SupervisorAction.execute_agent) selected =
    if is_executable selected then ok execute else err unsupported_selected_agent
route_after_supervisor (some _) selected =
    if is_some selected then err terminal_selects_agent else ok end

pub data Node : Type 0 where
  supervisor execute_selected_agent_node finish : Node

-- A graph between two supersteps: the node that is due, and the state.
pub record Config : Type 0 where
  pub node : Node
  pub graph : GraphState

-- The edges that `build_pmqa_graph` adds.
pub data Step (agents : Agents) (c d : Config) : Type 0 where
  decide :
      c.node ≡ Node.supervisor
      → supervisor_node c.graph ≡ ok d.graph
      → route_after_supervisor d.graph.next_action d.graph.selected_agent ≡ ok execute
      → d.node ≡ Node.execute_selected_agent_node
      → Step agents c d
  stop :
      c.node ≡ Node.supervisor
      → supervisor_node c.graph ≡ ok d.graph
      → route_after_supervisor d.graph.next_action d.graph.selected_agent ≡ ok end
      → d.node ≡ Node.finish
      → Step agents c d
  act :
      c.node ≡ Node.execute_selected_agent_node
      → execute_selected_agent agents c.graph ≡ ok d.graph
      → d.node ≡ Node.supervisor
      → Step agents c d

pub data Reach (agents : Agents) (c : Config) : Config → Type 0 where
  here : Reach agents c c
  next : {d e : Config} → Reach agents c d → Step agents d e → Reach agents c e

-- The input of `graph.invoke` in `run_pmqa_workflow`.
abbrev pub start : WorkflowState → Config
start state = record {
  node = Node.supervisor;
  graph = record { workflow_state = state; next_action = none; selected_agent = none };
}
