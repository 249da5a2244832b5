-- ===== src/Orchestration/Runs.antt =====
-- The runs of the graph: any number of supersteps along its edges, whatever the agents return.
use mathlib.Core.Path.{subst}
use native.Mathlib.Nat.{add-zero, add_assoc}
use pmqa.Base.{ℕ, ◌+◌, ◌≤◌, ◌≡◌, sym, ◌∙◌, true, none, arith, is_some}
use pmqa.Workflow.Models.{WorkflowState, is_terminal}
use pmqa.Workflow.Models.Construct.{IsConstructed, IsConstructed-Facts}
use pmqa.Workflow.Reducer.Progress.{SameRun}
use pmqa.Workflow.Reducer.Lifecycle.{IsConsistent}
use pmqa.Orchestration.{Agents, Node, Config, Reach, here, next, start}
use pmqa.Orchestration.Turns.{IsRegistered}
use pmqa.Orchestration.Steps.{IsDue, Inv, start-Inv, Step-Inv, explorations}

Reach-Inv :
    {agents : Agents} {c d : Config} (s : WorkflowState) (turns : ℕ)
    → IsRegistered agents
    → Inv s c turns
    → (r : Reach agents c d) → Inv s d (turns + explorations r)
unfolding explorations
Reach-Inv s turns reg i here = rw add-zero i
Reach-Inv {agents} s turns reg i (next {d = d} {e = e} r step) =
    rw (← add_assoc)
      (Step-Inv agents s d e (turns + explorations r) reg (Reach-Inv s turns reg i r) step)

-- In every run from a constructed, consistent state, with agents that are registered under their
-- roles and return whatever they like, each state between two supersteps is constructed and
-- consistent and belongs to the same run. Its iteration is the first one plus the number of
-- Explorer turns so far, and it is within the limit of the first state.
pub run_invariant :
    (agents : Agents) (s : WorkflowState) (d : Config)
    → IsRegistered agents
    → IsConstructed s
    → IsConsistent s
    → (r : Reach agents (start s) d)
    → IsConstructed d.graph.workflow_state
      × IsConsistent d.graph.workflow_state
      × SameRun s d.graph.workflow_state
      × (d.graph.workflow_state.iteration ≡ s.iteration + explorations r)
      × (s.iteration + explorations r ≤ s.max_iterations)
run_invariant agents s d reg c k r =
    let i = Reach-Inv s 0 reg (start-Inv s c k) r in
    let counted : d.graph.workflow_state.iteration ≡ s.iteration + explorations r =
      omega (arith, i.counted) in
    (
      i.constructed,
      i.consistent,
      i.same_run,
      counted,
      omega (
        arith,
        counted,
        (IsConstructed-Facts d.graph.workflow_state i.constructed).within_limit,
        i.same_run.max_iterations,
      ),
    )

-- A run that has ended, from a constructed, consistent state and with agents that are registered
-- under their roles, whatever they return, has a terminal status, a termination reason and no agent
-- routing.
pub run_ends_terminal :
    (agents : Agents) (s : WorkflowState) (d : Config)
    → IsRegistered agents
    → IsConstructed s
    → IsConsistent s
    → Reach agents (start s) d
    → d.node ≡ Node.finish
    → (is_terminal d.graph.workflow_state.status ≡ true)
      × (is_some d.graph.workflow_state.termination_reason ≡ true)
      × (d.graph.workflow_state.current_agent ≡ none)
      × (d.graph.workflow_state.next_agent ≡ none)
run_ends_terminal agents s d reg c k r e =
    let i = Reach-Inv s 0 reg (start-Inv s c k) r in
    let done : is_terminal d.graph.workflow_state.status ≡ true =
      subst (λ n. IsDue n d.graph) e i.due in
    (
      done,
      sym i.consistent.reason ∙ done,
      (i.consistent.unrouted done).0,
      (i.consistent.unrouted done).1,
    )
