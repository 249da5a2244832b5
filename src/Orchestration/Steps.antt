-- ===== src/Orchestration/Steps.antt =====
-- What a superstep of the graph preserves, and what is due at each node.
use mathlib.Core.Path.{subst}
use native.Mathlib.Nat.{add-zero}
use pmqa.Base.{
  Result, ok, ℕ, ◌+◌, ◌<◌, ◌≡◌, refl, sym, ap, ◌∙◌, ◌≢◌, true, Option, none, some, arith,
}
use pmqa.Workflow.Errors.{Error as WorkflowError}
use pmqa.Workflow.Models.{AgentRole, WorkflowState, is_terminal}
use pmqa.Workflow.Models.Construct.{IsConstructed}
use pmqa.Workflow.Reducer.{apply_patch}
use pmqa.Workflow.Reducer.Progress.{SameRun, apply_patch-IsConstructed, apply_patch_progress}
use pmqa.Workflow.Reducer.Lifecycle.{IsConsistent, apply_patch-IsConsistent}
use pmqa.Supervisor.Contracts.{RoutingDecision}
use pmqa.Supervisor.Policy.{decide_next_action}
use pmqa.Supervisor.Routes.{Routes, idle, run, stop as ends, decide_next_action-Routes}
use pmqa.Supervisor.Applies.{Reflects, routed, ended, decide_next_action-applies}
use pmqa.Orchestration.{
  execute_selected, Agents, GraphState, supervisor_node, execute_selected_agent, execute_role,
  is_executable, Node, Config, Step, decide, stop, act, Reach, here, next, start,
}
use pmqa.Supervisor.Applies.{Reflects, routed, ended, decide_next_action-applies}
use pmqa.Orchestration.Turns.{Turn, IsRegistered, execute_role-Turn, SameRun-trans, SameRun-refl}
use pmqa.Orchestration.Decisions.{
  supervisor_node-eq-ok, decision_iteration, route-execute, route-end,
}

-- What is due at a node.
abbrev pub IsDue : Node → GraphState → Type 0
IsDue Node.supervisor g = Unit
IsDue Node.execute_selected_agent_node g =
    (role : AgentRole) × (g.selected_agent ≡ some role)
    × (role ≢ AgentRole.supervisor)
    × (role ≡ AgentRole.explorer → g.workflow_state.iteration < g.workflow_state.max_iterations)
IsDue Node.finish g = is_terminal g.workflow_state.status ≡ true

-- The superstep that counts an iteration.
abbrev pub explorer_turn : Node → Option AgentRole → ℕ
explorer_turn Node.execute_selected_agent_node (some AgentRole.explorer) = 1
explorer_turn _ _ = 0

-- How often a run has executed the Explorer.
unfoldable pub explorations : {agents : Agents} {c d : Config} → Reach agents c d → ℕ
explorations here = 0
explorations (next {d = d} r step) = explorations r + explorer_turn d.node d.graph.selected_agent

-- What holds between two supersteps of a run from a state, after a number of Explorer turns.
pub record Inv (s : WorkflowState) (c : Config) (turns : ℕ) : Type 0 where
  pub constructed : IsConstructed c.graph.workflow_state
  pub consistent : IsConsistent c.graph.workflow_state
  pub same_run : SameRun s c.graph.workflow_state
  pub counted : c.graph.workflow_state.iteration ≡ s.iteration + turns
  pub due : IsDue c.node c.graph

-- What the state at the Supervisor's node turns into.
supervisor-Inv :
    (s : WorkflowState) (c d : Config) (turns : ℕ)
    → Inv s c turns
    → supervisor_node c.graph ≡ ok d.graph
    → IsDue d.node d.graph
    → Inv s d turns
supervisor-Inv s c d turns i h due =
    let (decision, decided, applied, _, _) = supervisor_node-eq-ok c.graph d.graph h in
    let x = c.graph.workflow_state in
    let y = d.graph.workflow_state in
    record {
      constructed = apply_patch-IsConstructed x y decision.patch applied;
      consistent = apply_patch-IsConsistent x y decision.patch applied;
      same_run = SameRun-trans s x y i.same_run (apply_patch_progress x y decision.patch applied).0;
      counted =
          decision_iteration x y decision (decide_next_action-Routes x decision decided) applied
          ∙ i.counted;
      due = due;
    }

execute_selected_worker :
    (agents : Agents) (s : WorkflowState) (role : AgentRole)
    → role ≢ AgentRole.supervisor
    → execute_selected agents s (some role) ≡ execute_role agents s role
execute_selected_worker agents s AgentRole.supervisor n = absurd (n refl)
execute_selected_worker agents s AgentRole.explorer n = refl
execute_selected_worker agents s _ n = refl

plus_none : (n : ℕ) → n + 0 ≡ n
plus_none n = omega arith

counted_turn :
    (role : AgentRole) (n m : ℕ)
    → (role ≡ AgentRole.explorer → m ≡ n + 1)
    → (role ≢ AgentRole.explorer → m ≡ n)
    → m ≡ n + explorer_turn Node.execute_selected_agent_node (some role)
counted_turn AgentRole.explorer n m counts keeps = counts refl
counted_turn AgentRole.supervisor n m counts keeps = keeps (λ e. cc) ∙ sym (plus_none n)
counted_turn AgentRole.knowledge n m counts keeps = keeps (λ e. cc) ∙ sym (plus_none n)
counted_turn AgentRole.validator n m counts keeps = keeps (λ e. cc) ∙ sym (plus_none n)

role-Inv :
    (s : WorkflowState) (c d : Config) (turns : ℕ) (role : AgentRole)
    → Inv s c turns
    → Turn role c.graph.workflow_state d.graph.workflow_state
    → d.node ≡ Node.supervisor
    → Inv s d (turns + explorer_turn Node.execute_selected_agent_node (some role))
role-Inv s c d turns role i turn e = record {
  constructed = turn.constructed;
  consistent = turn.consistent;
  same_run = SameRun-trans s c.graph.workflow_state d.graph.workflow_state i.same_run turn.same_run;
  counted = omega (
    arith,
    counted_turn role c.graph.workflow_state.iteration d.graph.workflow_state.iteration
        turn.explored turn.not_explored,
    i.counted,
  );
  due = rw e tt;
}

act-Inv :
    (agents : Agents) (s : WorkflowState) (c d : Config) (turns : ℕ)
    → IsRegistered agents
    → Inv s c turns
    → c.node ≡ Node.execute_selected_agent_node
    → execute_selected_agent agents c.graph ≡ ok d.graph
    → d.node ≡ Node.supervisor
    → Inv s d (turns + explorer_turn c.node c.graph.selected_agent)
unfolding execute_selected_agent
act-Inv agents s c d turns reg i at h e =
    let (role, selected, worker, _) = subst (λ n. IsDue n c.graph) at i.due in
    let x = c.graph.workflow_state in
    let ran : execute_role agents x role ≡ ok d.graph =
      sym (execute_selected_worker agents x role worker)
      ∙ ap (execute_selected agents x) (sym selected)
      ∙ h in
    rw (at, selected)
      (role-Inv s c d turns role i
        (execute_role-Turn agents role x d.graph reg i.constructed worker ran) e)

none_not_executable : {o : Option AgentRole} → o ≡ none → ¬ (is_executable o ≡ true)
none_not_executable e h = cc

state_of_eq :
    (t y : WorkflowState)
    → ◌≡◌ {A = Result WorkflowError WorkflowState} (ok t) (ok y)
    → is_terminal t.status ≡ true
    → is_terminal y.status ≡ true
state_of_eq t y e h = cc

module _ (x y : WorkflowState) (d : RoutingDecision) (applied : apply_patch x d.patch ≡ ok y) where
  due_execute :
      (selected : Option AgentRole)
      → Routes x d
      → selected ≡ d.selected_agent
      → is_executable selected ≡ true
      → (role : AgentRole) × (selected ≡ some role)
        × (role ≢ AgentRole.supervisor)
        × (role ≡ AgentRole.explorer → y.iteration < y.max_iterations)
  due_execute selected (idle _ _ no_agent _) e h = absurd (none_not_executable (e ∙ no_agent) h)
  due_execute selected (ends _ _ _ _ _ _ no_agent _) e h =
      absurd (none_not_executable (e ∙ no_agent) h)
  due_execute selected (run a live worker room action agent patch) e h = (
    a,
    e ∙ agent,
    worker,
    λ q. omega (
      arith,
      room q,
      decision_iteration x y d (run a live worker room action agent patch) applied,
      (apply_patch_progress x y d.patch applied).0.max_iterations,
    ),
  )

  due_finish :
      IsConstructed x
      → IsConsistent x
      → decide_next_action x ≡ ok d
      → d.selected_agent ≡ none
      → is_terminal y.status ≡ true
  due_finish c k decided no_agent =
      let (t, applied', reflects) = decide_next_action-applies x d c k decided in
      terminal_of t applied' reflects
    where
      terminal_of :
          (t : WorkflowState)
          → apply_patch x d.patch ≡ ok t
          → Reflects d t
          → is_terminal y.status ≡ true
      terminal_of t p (routed a agent _ _ _ _) = cc
      terminal_of t p (ended _ done _ _) = state_of_eq t y (sym p ∙ applied) done

-- Where the routing sends a state after a decision, that is what is due there.
pub Step-Inv :
    (agents : Agents) (s : WorkflowState) (c d : Config) (turns : ℕ)
    → IsRegistered agents
    → Inv s c turns
    → Step agents c d
    → Inv s d (turns + explorer_turn c.node c.graph.selected_agent)
Step-Inv agents s c d turns reg i (act at h e) = act-Inv agents s c d turns reg i at h e
Step-Inv agents s c d turns reg i (decide at h route e) =
    let (decision, decided, applied, _, agent) = supervisor_node-eq-ok c.graph d.graph h in
    let x = c.graph.workflow_state in
    let due =
      due_execute x d.graph.workflow_state decision applied d.graph.selected_agent
        (decide_next_action-Routes x decision decided) agent (route-execute _ _ route) in
    rw (at, add-zero) (supervisor-Inv s c d turns i h (rw e due))
Step-Inv agents s c d turns reg i (stop at h route e) =
    let (decision, decided, applied, _, agent) = supervisor_node-eq-ok c.graph d.graph h in
    let x = c.graph.workflow_state in
    let due =
      due_finish x d.graph.workflow_state decision applied i.constructed i.consistent decided
        (sym agent ∙ route-end _ _ route) in
    rw (at, add-zero) (supervisor-Inv s c d turns i h (rw e due))

pub start-Inv : (s : WorkflowState) → IsConstructed s → IsConsistent s → Inv s (start s) 0
start-Inv s c k = record {
  constructed = c;
  consistent = k;
  same_run = SameRun-refl s;
  counted = omega arith;
  due = tt;
}
