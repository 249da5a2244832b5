-- ===== src/Orchestration/Decisions.antt =====
-- The Supervisor's node of the graph, inverted, and what its decision leaves alone.
use pmqa.Workflow.Updates.{WorkflowStatePatch}
use mathlib.Core.Path.{subst}
use pmqa.Base.{
  Result, ok, err, >>=-eq-ok, ◌≡◌, refl, true, false, Option, none, some, arith, is_some,
}
use pmqa.Workflow.Models.{freeze_state, AgentRole, WorkflowState}
use pmqa.Workflow.Reducer.{candidate, apply_patch}
use pmqa.Workflow.Reducer.Progress.{apply_patch-result}
use pmqa.Supervisor.Contracts.{Error as PolicyError, SupervisorAction, RoutingDecision}
use pmqa.Supervisor.Policy.{decide_next_action}
use pmqa.Supervisor.Routes.{Routes, idle, run, stop as ends}
use pmqa.Orchestration.{
  Error, GraphState, of_policy, of_workflow, supervisor_node, is_executable, execute, end,
  route_after_supervisor,
}
use pmqa.Orchestration.Turns.{of_workflow-eq-ok}

of_policy-eq-ok {ℓ} :
    {A : Type ℓ} (r : Result PolicyError A) {a : A} → of_policy r ≡ ok a → r ≡ ok a
of_policy-eq-ok (ok b) h = cc
of_policy-eq-ok (err e) h = cc

graph-injective : {g h : GraphState} → ◌≡◌ {A = Result Error GraphState} (ok g) (ok h) → g ≡ h
graph-injective e = cc

pub supervisor_node-eq-ok :
    (g h : GraphState)
    → supervisor_node g ≡ ok h
    → (d : RoutingDecision) × (decide_next_action g.workflow_state ≡ ok d)
      × (apply_patch g.workflow_state d.patch ≡ ok h.workflow_state)
      × (h.next_action ≡ some d.action)
      × (h.selected_agent ≡ d.selected_agent)
unfolding supervisor_node
supervisor_node-eq-ok g h e =
    let (d, h1, e1) = >>=-eq-ok (of_policy (decide_next_action g.workflow_state)) _ e in
    let (t, h2, e2) = >>=-eq-ok (of_workflow (apply_patch g.workflow_state d.patch)) _ e1 in
    subst
      (λ (r : GraphState).
        (d : RoutingDecision) × (decide_next_action g.workflow_state ≡ ok d)
        × (apply_patch g.workflow_state d.patch ≡ ok r.workflow_state)
        × (r.next_action ≡ some d.action)
        × (r.selected_agent ≡ d.selected_agent))
      (graph-injective e2) (d, of_policy-eq-ok _ h1, of_workflow-eq-ok _ h2, refl, refl)

unset_iteration :
    (s : WorkflowState) (p : WorkflowStatePatch)
    → is_some p.iteration ≡ false
    → (freeze_state (candidate s p)).iteration ≡ s.iteration
unfolding freeze_state candidate
unset_iteration s p h = ground arith

iteration_kept :
    (s t : WorkflowState) (p : WorkflowStatePatch)
    → is_some p.iteration ≡ false
    → apply_patch s p ≡ ok t
    → t.iteration ≡ s.iteration
iteration_kept s t p h e = rw (apply_patch-result s t p e) (unset_iteration s p h)

-- A decision's patch leaves the iteration alone.
pub decision_iteration :
    (s t : WorkflowState) (d : RoutingDecision)
    → Routes s d
    → apply_patch s d.patch ≡ ok t
    → t.iteration ≡ s.iteration
decision_iteration s t d (idle _ _ _ e) h = iteration_kept s t d.patch (rw e) h
decision_iteration s t d (run a _ _ _ _ _ e) h = iteration_kept s t d.patch (rw e) h
decision_iteration s t d (ends _ _ _ _ _ _ _ e) h = iteration_kept s t d.patch (rw e) h

pub route-execute :
    (action : Option SupervisorAction) (selected : Option AgentRole)
    → route_after_supervisor action selected ≡ ok execute
    → is_executable selected ≡ true
unfolding route_after_supervisor
route-execute action selected h = ground arith

pub route-end :
    (action : Option SupervisorAction) (selected : Option AgentRole)
    → route_after_supervisor action selected ≡ ok end
    → selected ≡ none
unfolding route_after_supervisor
route-end action selected h = ground arith
