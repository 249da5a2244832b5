-- ===== src/Supervisor/Applies.antt =====
-- The patches of the decisions meet the reducer.
use pmqa.Base.{ok, ◌≤◌, ◌≡◌, refl, true, none, some, arith}
use pmqa.Workflow.Models.{AgentRole, TerminationReason, WorkflowState, WorkflowStatus, is_terminal}
use pmqa.Workflow.Models.Construct.{IsConstructed, IsConstructed-Facts}
use pmqa.Workflow.Reducer.{candidate, apply_patch, check_progress}
use pmqa.Workflow.Reducer.Lifecycle.{IsConsistent, apply_patch-empty_patch}
use pmqa.Workflow.Reducer.Succeeds.{candidate_applied}
use pmqa.Supervisor.Contracts.{RoutingDecision}
use pmqa.Supervisor.Policy.{agent_patch, terminal_patch, decide_next_action}
use pmqa.Supervisor.Routes.{
  Routes, idle, run, stop, decide_next_action-Routes, workflow_state_patch-agent_patch,
  workflow_state_patch-terminal_patch,
}

-- What the state after a decision shows of it.
pub data Reflects (d : RoutingDecision) (t : WorkflowState) : Type 0 where
  routed :
      (a : AgentRole)
      → d.selected_agent ≡ some a
      → t.status ≡ WorkflowStatus.running
      → t.current_agent ≡ none
      → t.next_agent ≡ some a
      → t.termination_reason ≡ none
      → Reflects d t
  ended :
      d.selected_agent ≡ none
      → is_terminal t.status ≡ true
      → t.current_agent ≡ none
      → t.next_agent ≡ none
      → Reflects d t

check_progress-agent_patch :
    (s : WorkflowState) (a : AgentRole)
    → s.iteration ≤ s.max_iterations
    → check_progress s (agent_patch a) ≡ ok tt
unfolding check_progress
check_progress-agent_patch s a h = ground arith

check_progress-terminal_patch :
    (s : WorkflowState) (status : WorkflowStatus) (reason : TerminationReason)
    → s.iteration ≤ s.max_iterations
    → check_progress s (terminal_patch status reason) ≡ ok tt
unfolding check_progress
check_progress-terminal_patch s status reason h = ground arith

IsConsistent-agent_patch :
    (s : WorkflowState) (a : AgentRole) → IsConsistent (candidate s (agent_patch a))
unfolding candidate
IsConsistent-agent_patch s a = record { reason = refl; unrouted = λ e. cc }

IsConsistent-terminal_patch :
    (s : WorkflowState) (status : WorkflowStatus) (reason : TerminationReason)
    → is_terminal status ≡ true
    → IsConsistent (candidate s (terminal_patch status reason))
unfolding candidate
IsConsistent-terminal_patch s status reason h = record { reason = h; unrouted = λ e. (refl, refl) }

Reflects-agent_patch :
    (s : WorkflowState) (d : RoutingDecision) (a : AgentRole)
    → d.selected_agent ≡ some a
    → Reflects d (candidate s (agent_patch a))
unfolding candidate
Reflects-agent_patch s d a h = routed a h refl refl refl refl

Reflects-terminal_patch :
    (s : WorkflowState) (d : RoutingDecision) (status : WorkflowStatus) (reason : TerminationReason)
    → d.selected_agent ≡ none
    → is_terminal status ≡ true
    → Reflects d (candidate s (terminal_patch status reason))
unfolding candidate
Reflects-terminal_patch s d status reason h k = ended h k refl refl

-- A decision about a constructed, consistent state is never refused by the reducer: its patch
-- applies, and the new state is routed to the selected agent, running and with no termination
-- reason, or, where no agent is selected, it is terminal and without routing.
pub decide_next_action-applies :
    (s : WorkflowState) (d : RoutingDecision)
    → IsConstructed s
    → IsConsistent s
    → decide_next_action s ≡ ok d
    → (t : WorkflowState) × (apply_patch s d.patch ≡ ok t) × Reflects d t
decide_next_action-applies s d c k h = applies (decide_next_action-Routes s d h)
  where
    within : s.iteration ≤ s.max_iterations
    within = (IsConstructed-Facts s c).within_limit

    applies : Routes s d → (t : WorkflowState) × (apply_patch s d.patch ≡ ok t) × Reflects d t
    applies (idle done _ none_selected e) = (
      s,
      rw e (apply_patch-empty_patch s c k),
      ended none_selected done (k.unrouted done).0 (k.unrouted done).1,
    )
    applies (run a live _ _ _ selected e) = (
      candidate s (agent_patch a),
      rw e (
          candidate_applied s (agent_patch a) c (workflow_state_patch-agent_patch a) live
            (check_progress-agent_patch s a within) (IsConsistent-agent_patch s a)),
      Reflects-agent_patch s d a selected,
    )
    applies (stop status reason live done _ _ none_selected e) = (
      candidate s (terminal_patch status reason),
      rw e (
          candidate_applied s (terminal_patch status reason) c
            (workflow_state_patch-terminal_patch status reason done) live
            (check_progress-terminal_patch s status reason within)
            (IsConsistent-terminal_patch s status reason done)),
      Reflects-terminal_patch s d status reason none_selected done,
    )
