-- ===== src/Orchestration/Turns.antt =====
-- One turn of an agent: the node `execute_selected_agent`.
use pmqa.Workflow.Agents.{PmqaAgent}
use pmqa.Runtime.Isolation.{execute_agent-RecordsOnly, execute_agent-applies, RecordsOnly}
use pmqa.Runtime.{execute_agent}
use mathlib.Core.Path.{subst}
use pmqa.Base.{
  Result, ok, err, >>=-eq-ok, ℕ, ◌+◌, ◌≡◌, refl, sym, ◌∙◌, ◌≢◌, Option, none, some, arith,
}
use pmqa.Workflow.Errors.{Error as WorkflowError}
use pmqa.Workflow.Models.{AgentRole, WorkflowState, freeze_state}
use pmqa.Workflow.Models.Construct.{IsConstructed-Frozen, IsConstructed, Frozen}
use pmqa.Workflow.Updates.{WorkflowStatePatch, workflow_state_patch}
use pmqa.Workflow.Updates.Construct.{workflow_state_patch-eq-ok, freeze_patch}
use pmqa.Workflow.Reducer.{replacement_or, candidate, apply_patch}
use pmqa.Workflow.Reducer.Progress.{
  apply_patch_progress, apply_patch-result, apply_patch-IsConstructed, SameRun,
}
use pmqa.Workflow.Reducer.Lifecycle.{apply_patch-IsConsistent, IsConsistent}
use pmqa.Orchestration.{
  Error, Agents, GraphState, of_workflow, patched, start_patch, finish_patch, next_iteration,
  get_agent, registered, execute_role, invocation_id,
}

pub of_workflow-eq-ok {ℓ} :
    {A : Type ℓ} (r : Result WorkflowError A) {a : A} → of_workflow r ≡ ok a → r ≡ ok a
of_workflow-eq-ok (ok b) h = cc
of_workflow-eq-ok (err e) h = cc

-- A patch with nothing to freeze is applied as it is.
pub patched-eq-ok :
    (s t : WorkflowState) (p : WorkflowStatePatch)
    → freeze_patch p ≡ p
    → patched s p ≡ ok t
    → apply_patch s p ≡ ok t
unfolding patched
patched-eq-ok s t p same h =
    let (q, made, h1) = >>=-eq-ok (of_workflow (workflow_state_patch p)) _ h in
    let (_, _, _, _, e) = workflow_state_patch-eq-ok p q (of_workflow-eq-ok _ made) in
    rw (e ∙ same) at (of_workflow-eq-ok _ h1)

-- What the turn of an agent makes of a state: the run goes on with the same status and reason and
-- no routing, the Explorer's turn has counted one iteration, and only the artifacts of the agent's
-- role have been added to.
pub record Turn (role : AgentRole) (s t : WorkflowState) : Type 0 where
  pub constructed : IsConstructed t
  pub consistent : IsConsistent t
  pub same_run : SameRun s t
  pub status : t.status ≡ s.status
  pub termination_reason : t.termination_reason ≡ s.termination_reason
  pub current_agent : t.current_agent ≡ none
  pub next_agent : t.next_agent ≡ none
  pub explored : role ≡ AgentRole.explorer → t.iteration ≡ s.iteration + 1
  pub not_explored : role ≢ AgentRole.explorer → t.iteration ≡ s.iteration
  pub evidence : role ≢ AgentRole.explorer → t.evidence ≡ s.evidence
  pub knowledge_candidates :
      role ≢ AgentRole.knowledge → t.knowledge_candidates ≡ s.knowledge_candidates
  pub validation_results : role ≢ AgentRole.validator → t.validation_results ≡ s.validation_results

-- Only the Explorer's turn counts.
counted_explorer :
    (role : AgentRole) (n : ℕ)
    → role ≡ AgentRole.explorer
    → replacement_or n (next_iteration role n) ≡ n + 1
counted_explorer AgentRole.explorer n e = omega arith
counted_explorer AgentRole.supervisor n e = cc
counted_explorer AgentRole.knowledge n e = cc
counted_explorer AgentRole.validator n e = cc

counted_other :
    (role : AgentRole) (n : ℕ)
    → role ≢ AgentRole.explorer
    → replacement_or n (next_iteration role n) ≡ n
counted_other AgentRole.explorer n e = absurd (e refl)
counted_other AgentRole.supervisor n e = refl
counted_other AgentRole.knowledge n e = refl
counted_other AgentRole.validator n e = refl

-- What a patch that only routes keeps.
record Keeps (s t : WorkflowState) : Type 0 where
  status : t.status ≡ s.status
  termination_reason : t.termination_reason ≡ s.termination_reason
  evidence : t.evidence ≡ s.evidence
  knowledge_candidates : t.knowledge_candidates ≡ s.knowledge_candidates
  validation_results : t.validation_results ≡ s.validation_results

Keeps-start_patch :
    (s : WorkflowState) (role : AgentRole)
    → Frozen s
    → Keeps s (freeze_state (candidate s (start_patch s role)))
      × ((freeze_state (candidate s (start_patch s role))).next_agent ≡ none)
      × ((freeze_state (candidate s (start_patch s role))).iteration
          ≡ replacement_or s.iteration (next_iteration role s.iteration))
unfolding freeze_state candidate
Keeps-start_patch s role f = (
  record {
    status = refl;
    termination_reason = refl;
    evidence = f.evidence;
    knowledge_candidates = f.knowledge_candidates;
    validation_results = f.validation_results;
  },
  refl,
  refl,
)

Keeps-finish_patch :
    (s : WorkflowState)
    → Frozen s
    → Keeps s (freeze_state (candidate s finish_patch))
      × ((freeze_state (candidate s finish_patch)).current_agent ≡ none)
      × ((freeze_state (candidate s finish_patch)).next_agent ≡ s.next_agent)
      × ((freeze_state (candidate s finish_patch)).iteration ≡ s.iteration)
unfolding freeze_state candidate
Keeps-finish_patch s f = (
  record {
    status = refl;
    termination_reason = refl;
    evidence = f.evidence;
    knowledge_candidates = f.knowledge_candidates;
    validation_results = f.validation_results;
  },
  refl,
  refl,
  refl,
)

pub SameRun-trans : (s t u : WorkflowState) → SameRun s t → SameRun t u → SameRun s u
SameRun-trans s t u a b = record {
  workflow_id = b.workflow_id ∙ a.workflow_id;
  workflow_type = b.workflow_type ∙ a.workflow_type;
  product_id = b.product_id ∙ a.product_id;
  product_version = b.product_version ∙ a.product_version;
  goal = b.goal ∙ a.goal;
  max_iterations = b.max_iterations ∙ a.max_iterations;
  created_at = b.created_at ∙ a.created_at;
}

ok-injective : {g h : GraphState} → ◌≡◌ {A = Result Error GraphState} (ok g) (ok h) → g ≡ h
ok-injective e = cc

-- Each agent stands under its own role.
abbrev pub IsRegistered : Agents → Type 0
IsRegistered agents =
    (role : AgentRole) (a : PmqaAgent) → get_agent role agents ≡ some a → a.role ≡ role

registered-eq-ok : (o : Option PmqaAgent) (a : PmqaAgent) → registered o ≡ ok a → o ≡ some a
registered-eq-ok none a h = cc
registered-eq-ok (some b) a h = cc

module _ (role : AgentRole) (s t u v : WorkflowState) (c : IsConstructed s)
    (started : apply_patch s (start_patch s role) ≡ ok t) (recorded : RecordsOnly role t u)
    (p : WorkflowStatePatch) (applied : apply_patch t p ≡ ok u)
    (finished : apply_patch u finish_patch ≡ ok v) where
  start_Keeps :
      Keeps s t
      × (t.next_agent ≡ none)
      × (t.iteration ≡ replacement_or s.iteration (next_iteration role s.iteration))
  start_Keeps =
      rw (apply_patch-result s t _ started) (Keeps-start_patch s role (IsConstructed-Frozen s c))

  finish_Keeps :
      Keeps u v
      × (v.current_agent ≡ none)
      × (v.next_agent ≡ u.next_agent)
      × (v.iteration ≡ u.iteration)
  finish_Keeps =
      rw (apply_patch-result u v _ finished)
        (Keeps-finish_patch u (IsConstructed-Frozen u (apply_patch-IsConstructed t u p applied)))

  pub Turn-of_patches : Turn role s v
  Turn-of_patches =
      let (k, unrouted, counted) = start_Keeps in
      let (k', current, next, same) = finish_Keeps in
      record {
        constructed = apply_patch-IsConstructed u v _ finished;
        consistent = apply_patch-IsConsistent u v _ finished;
        same_run = SameRun-trans s t v (apply_patch_progress s t _ started).0 (
            SameRun-trans t u v (apply_patch_progress t u p applied).0
              (apply_patch_progress u v _ finished).0);
        status = k'.status ∙ recorded.status ∙ k.status;
        termination_reason =
            k'.termination_reason ∙ recorded.termination_reason ∙ k.termination_reason;
        current_agent = current;
        next_agent = next ∙ recorded.next_agent ∙ unrouted;
        explored = λ e. same ∙ recorded.iteration ∙ counted ∙ counted_explorer role s.iteration e;
        not_explored = λ n. same ∙ recorded.iteration ∙ counted ∙ counted_other role s.iteration n;
        evidence = λ n. k'.evidence ∙ recorded.evidence n ∙ k.evidence;
        knowledge_candidates =
            λ n. k'.knowledge_candidates ∙ recorded.knowledge_candidates n ∙ k.knowledge_candidates;
        validation_results =
            λ n. k'.validation_results ∙ recorded.validation_results n ∙ k.validation_results;
      }

-- A turn of an agent that is registered under its role, whatever the agent returns, leaves a
-- constructed and consistent state of the same run with the status and the reason that it had and
-- no routing. It counts one iteration exactly if it was the Explorer's, and only the artifacts of
-- the agent's role can have changed.
pub execute_role-Turn :
    (agents : Agents) (role : AgentRole) (s : WorkflowState) (g : GraphState)
    → IsRegistered agents
    → IsConstructed s
    → role ≢ AgentRole.supervisor
    → execute_role agents s role ≡ ok g
    → Turn role s g.workflow_state
unfolding execute_role
execute_role-Turn agents role s g reg c n h =
    let (t, h1, k1) = >>=-eq-ok (patched s (start_patch s role)) _ h in
    let (a, h2, k2) = >>=-eq-ok (registered (get_agent role agents)) _ k1 in
    let (u, h3, k3) =
      >>=-eq-ok (of_workflow (execute_agent t a (invocation_id t role) t.updated_at)) _ k2 in
    let (v, h4, k4) = >>=-eq-ok (patched u finish_patch) _ k3 in
    let started = patched-eq-ok s t (start_patch s role) refl h1 in
    let ran = of_workflow-eq-ok _ h3 in
    let same = reg role a (registered-eq-ok _ a h2) in
    let (p, applied) = execute_agent-applies t u a (invocation_id t role) t.updated_at ran in
    let recorded : RecordsOnly role t u =
      subst (λ r. RecordsOnly r t u) same
        (execute_agent-RecordsOnly t u a (invocation_id t role) t.updated_at
          (apply_patch-IsConstructed s t _ started) (λ e. n (sym same ∙ e)) ran) in
    let turn =
      Turn-of_patches role s t u v c started recorded p applied
        (patched-eq-ok u v finish_patch refl h4) in
    subst (λ (w : GraphState). Turn role s w.workflow_state) (ok-injective k4) turn

pub SameRun-refl : (s : WorkflowState) → SameRun s s
SameRun-refl s = record {
  workflow_id = refl;
  workflow_type = refl;
  product_id = refl;
  product_version = refl;
  goal = refl;
  max_iterations = refl;
  created_at = refl;
}
