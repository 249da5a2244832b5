-- ===== src/Supervisor/Routes.antt =====
-- The kinds of decision that the policy takes.
use pmqa.Workflow.Payload.{validate_all}
use pmqa.Base.{
  ok, >>=-eq-ok, ℕ, zero, suc, ◌<◌, String, ◌≡◌, refl, sym, ◌∙◌, ◌≢◌, ◌⊎◌, inl, inr, true, false,
  none, some, List, [], ◌∷◌, arith, leb, Bool-cases, length, drop, last,
}
use pmqa.Values.{Value}
use pmqa.Workflow.Models.{
  all_mappings, AgentRole, TerminationReason, WorkflowState, WorkflowStatus, is_terminal,
}
use pmqa.Workflow.Updates.{workflow_state_patch, empty_patch, is_filled}
use pmqa.Supervisor.Contracts.{
  SupervisorAction, SupervisorReason, RoutingDecision, routing_decision, has_status, has_reason,
}
use pmqa.Supervisor.History.{
  recovery_roles, require_recovery_sequence, validate_validation_history, validation_status,
  Verdict, passed, failed,
}
use pmqa.Supervisor.Policy.{
  decision_of, agent_patch, terminal_patch, agent_decision, terminal_decision,
  explorer_or_iteration_limit, recovery_decision, decide_failed_validation_recovery, decide_verdict,
  decide_validated, decide_artifacts, decide_active, validate_artifact_dependencies,
  validate_non_terminal_lifecycle, terminal_action, decide_next_action,
}

-- A decision about a state: nothing is left to do; an agent is run, and the Explorer only below
-- the limit of iterations; or the workflow ends, with the status and the reason of the action.
pub data Routes (s : WorkflowState) (d : RoutingDecision) : Type 0 where
  idle :
      is_terminal s.status ≡ true
      → terminal_action s.status ≡ some d.action
      → d.selected_agent ≡ none
      → d.patch ≡ empty_patch
      → Routes s d
  run :
      (a : AgentRole)
      → is_terminal s.status ≡ false
      → a ≢ AgentRole.supervisor
      → (a ≡ AgentRole.explorer → s.iteration < s.max_iterations)
      → d.action ≡ SupervisorAction.execute_agent
      → d.selected_agent ≡ some a
      → d.patch ≡ agent_patch a
      → Routes s d
  stop :
      (status : WorkflowStatus) (reason : TerminationReason)
      → is_terminal s.status ≡ false
      → is_terminal status ≡ true
      → has_status d.action (some status) ≡ true
      → has_reason d.action (some reason) ≡ true
      → d.selected_agent ≡ none
      → d.patch ≡ terminal_patch status reason
      → Routes s d

-- The patch of an agent decision is accepted by the contract of the patches.
pub workflow_state_patch-agent_patch :
    (a : AgentRole) → workflow_state_patch (agent_patch a) ≡ ok (agent_patch a)
unfolding workflow_state_patch all_mappings validate_all
workflow_state_patch-agent_patch a = refl

pub workflow_state_patch-terminal_patch :
    (status : WorkflowStatus) (reason : TerminationReason)
    → is_terminal status ≡ true
    → workflow_state_patch (terminal_patch status reason) ≡ ok (terminal_patch status reason)
unfolding workflow_state_patch all_mappings validate_all
workflow_state_patch-terminal_patch WorkflowStatus.pending reason h = cc
workflow_state_patch-terminal_patch WorkflowStatus.running reason h = cc
workflow_state_patch-terminal_patch WorkflowStatus.completed reason h = refl
workflow_state_patch-terminal_patch WorkflowStatus.failed reason h = refl
workflow_state_patch-terminal_patch WorkflowStatus.terminated reason h = refl

routing_decision-eq-ok : (r d : RoutingDecision) → routing_decision r ≡ ok d → d ≡ r
routing_decision-eq-ok r d h = unfold routing_decision in ground arith

pub agent_decision_lem :
    (s : WorkflowState) (a : AgentRole) (r : SupervisorReason) (m : String)
    → agent_decision s a r m
      ≡ routing_decision (decision_of s SupervisorAction.execute_agent (some a) r m (agent_patch a))
unfolding agent_decision
agent_decision_lem s a r m = rw (workflow_state_patch-agent_patch a)

pub terminal_decision_lem :
    (s : WorkflowState) (action : SupervisorAction) (r : SupervisorReason) (status : WorkflowStatus)
    (reason : TerminationReason) (m : String)
    → is_terminal status ≡ true
    → terminal_decision s action r status reason m
      ≡ routing_decision (decision_of s action none r m (terminal_patch status reason))
unfolding terminal_decision
terminal_decision_lem s action r status reason m h =
    rw (workflow_state_patch-terminal_patch status reason h)

module _ (s : WorkflowState) (d : RoutingDecision) (live : is_terminal s.status ≡ false) where
  run-Routes :
      (a : AgentRole) (r : SupervisorReason) (m : String)
      → a ≢ AgentRole.supervisor
      → (a ≡ AgentRole.explorer → s.iteration < s.max_iterations)
      → agent_decision s a r m ≡ ok d
      → Routes s d
  run-Routes a r m worker room h =
      let e = routing_decision-eq-ok _ d (sym (agent_decision_lem s a r m) ∙ h) in
      rw e (run a live worker room refl refl refl)

  stop-Routes :
      (action : SupervisorAction) (r : SupervisorReason) (status : WorkflowStatus)
      (reason : TerminationReason) (m : String)
      → is_terminal status ≡ true
      → has_status action (some status) ≡ true
      → has_reason action (some reason) ≡ true
      → terminal_decision s action r status reason m ≡ ok d
      → Routes s d
  stop-Routes action r status reason m done hs hr h =
      let e =
        routing_decision-eq-ok _ d
          (sym (terminal_decision_lem s action r status reason m done) ∙ h) in
      rw e (stop status reason live done hs hr refl refl)

  explorer-Routes :
      (r : SupervisorReason) (m : String) → explorer_or_iteration_limit s r m ≡ ok d → Routes s d
  unfolding explorer_or_iteration_limit
  explorer-Routes r m h = elim (Bool-cases (leb s.max_iterations s.iteration)) [
    | inl e ↦ stop-Routes _ _ _ _ _ refl refl refl (rw e at h)
    | inr e ↦ run-Routes AgentRole.explorer r m (λ q. cc) (λ _. ground arith) (rw e at h)
  ]

  recovery-Routes : (n : ℕ) → recovery_decision s n ≡ ok d → Routes s d
  unfolding recovery_decision
  recovery-Routes zero h = explorer-Routes _ _ h
  recovery-Routes (suc zero) h = run-Routes AgentRole.knowledge _ _ (λ q. cc) (λ q. cc) h
  recovery-Routes (suc (suc n)) h = run-Routes AgentRole.validator _ _ (λ q. cc) (λ q. cc) h

  failed-Routes :
      (indexes : List ℕ) → decide_failed_validation_recovery s indexes ≡ ok d → Routes s d
  unfolding decide_failed_validation_recovery
  failed-Routes [] h = cc
  failed-Routes (i ∷ is) h =
      let (roles, _, h') = >>=-eq-ok (recovery_roles (drop (suc (last i is)) s.step_history)) _ h in
      let (_, _, h'') = >>=-eq-ok (require_recovery_sequence roles false) _ h' in
      recovery-Routes (length roles) h''

  verdict-Routes : (indexes : List ℕ) (v : Verdict) → decide_verdict s indexes v ≡ ok d → Routes s d
  unfolding decide_verdict
  verdict-Routes indexes passed h = stop-Routes _ _ _ _ _ refl refl refl h
  verdict-Routes indexes failed h = failed-Routes indexes h

  validated-Routes : (results : List Value) → decide_validated s results ≡ ok d → Routes s d
  unfolding decide_validated
  validated-Routes [] h = run-Routes AgentRole.validator _ _ (λ q. cc) (λ q. cc) h
  validated-Routes (v ∷ vs) h =
      let (indexes, _, h') = >>=-eq-ok (validate_validation_history s) _ h in
      let (verdict, _, h'') = >>=-eq-ok (validation_status (last v vs)) _ h' in
      verdict-Routes indexes verdict h''

  artifacts-Routes : decide_artifacts s ≡ ok d → Routes s d
  unfolding decide_artifacts
  artifacts-Routes h = elim (Bool-cases (is_filled s.evidence)) [
    | inr e ↦ explorer-Routes _ _ (rw e at h)
    | inl e ↦ elim (Bool-cases (is_filled s.knowledge_candidates)) [
      | inr k ↦ run-Routes AgentRole.knowledge _ _ (λ q. cc) (λ q. cc) (rw (e, k) at h)
      | inl k ↦ validated-Routes s.validation_results (rw (e, k) at h)
    ]
  ]

  active-Routes : decide_active s ≡ ok d → Routes s d
  unfolding decide_active
  active-Routes h = elim (Bool-cases (is_filled s.errors)) [
    | inl e ↦ stop-Routes _ _ _ _ _ refl refl refl (rw e at h)
    | inr e ↦ artifacts-Routes (>>=-eq-ok (validate_artifact_dependencies s) _ (rw e at h)).2
  ]

abbrev idle_decision : WorkflowState → SupervisorAction → RoutingDecision
idle_decision s action =
    decision_of s action none SupervisorReason.already_terminal "Workflow is already terminal"
      empty_patch

terminal_action-is_terminal :
    (status : WorkflowStatus)
    → ((is_terminal status ≡ false) × (terminal_action status ≡ none))
      ⊎ ((action : SupervisorAction) × (is_terminal status ≡ true)
          × (terminal_action status ≡ some action))
terminal_action-is_terminal WorkflowStatus.pending = inl (refl, refl)
terminal_action-is_terminal WorkflowStatus.running = inl (refl, refl)
terminal_action-is_terminal WorkflowStatus.completed = inr (_, refl, refl)
terminal_action-is_terminal WorkflowStatus.failed = inr (_, refl, refl)
terminal_action-is_terminal WorkflowStatus.terminated = inr (_, refl, refl)

-- Every decision of the policy is of one of three kinds. In a terminal state it repeats the action
-- of the status, with no agent and an empty patch. Otherwise it runs the Explorer, the Knowledge
-- agent or the Validator, the Explorer only below the limit of iterations, with the patch that
-- routes to that agent; or it ends the workflow with the terminal status and the reason that
-- belong to its action.
pub decide_next_action-Routes :
    (s : WorkflowState) (d : RoutingDecision) → decide_next_action s ≡ ok d → Routes s d
unfolding decide_next_action
decide_next_action-Routes s d h = elim (terminal_action-is_terminal s.status) [
  | inl (live, e) ↦
      active-Routes s d live (>>=-eq-ok (validate_non_terminal_lifecycle s) _ (rw e at h)).2
  | inr (action, done, e) ↦
      let same = routing_decision-eq-ok (idle_decision s action) d (rw e at h) in
      rw same (idle done e refl refl)
]
