-- ===== src/Runtime/Isolation.antt =====
-- What one agent invocation can change.
use mathlib.Core.Path.{subst}
use pmqa.Base.{
  raise_if-eq-ok, ok, raise_if, >>=-eq-ok, String, ◌≡◌, refl, ap, ◌∙◌, ◌≢◌, Bool, true, false, not,
  ◌||◌, Option, none, some, List, [], ◌∷◌, map, arith, str_eq, is_some,
}
use pmqa.Values.{Value}
use pmqa.Workflow.Errors.{
  completed_before_requested, invocation_mismatch, workflow_mismatch, agent_mismatch,
  exceeds_capabilities,
}
use pmqa.Workflow.Fields.{WorkflowPatchField}
use pmqa.Workflow.Payload.{freeze}
use pmqa.Workflow.Models.{precedes, AgentRole, role_eq, DateTime, WorkflowState, freeze_state}
use pmqa.Workflow.Models.Construct.{IsConstructed, Frozen, IsConstructed-Frozen}
use pmqa.Workflow.Updates.{
  WorkflowStatePatch, agent_update_policy, is_filled, minus, requested_fields, raise_filled,
  validate_patch_for_role,
}
use pmqa.Workflow.Updates.Capabilities.{StaysWithin, validate_patch_for_role-StaysWithin}
use pmqa.Workflow.Reducer.{apply_patch, replacement_or_clear, replacement_or, candidate, append}
use pmqa.Workflow.Reducer.Progress.{apply_patch-result}
use pmqa.Workflow.Agents.{
  AgentRequest, agent_request, AgentResult, revalidate, validate_agent_result, PmqaAgent,
}
use pmqa.Runtime.{capability_role_mismatch, reduce_result, execute_agent, request_for, invoked}

pub role_eq→eq : (a b : AgentRole) → role_eq a b ≡ true → a ≡ b
role_eq→eq a b h = ground arith

-- `t` differs from `s` at most in what an agent of the role may record.
pub record RecordsOnly (role : AgentRole) (s t : WorkflowState) : Type 0 where
  pub status : t.status ≡ s.status
  pub current_agent : t.current_agent ≡ s.current_agent
  pub next_agent : t.next_agent ≡ s.next_agent
  pub iteration : t.iteration ≡ s.iteration
  pub termination_reason : t.termination_reason ≡ s.termination_reason
  pub evidence : role ≢ AgentRole.explorer → t.evidence ≡ s.evidence
  pub knowledge_candidates :
      role ≢ AgentRole.knowledge → t.knowledge_candidates ≡ s.knowledge_candidates
  pub validation_results : role ≢ AgentRole.validator → t.validation_results ≡ s.validation_results

kept_append :
    (xs ys : List Value)
    → map freeze xs ≡ xs
    → is_filled ys ≡ false
    → map freeze (append xs ys) ≡ xs
kept_append xs [] h e = h
kept_append xs (y ∷ ys) h e = cc

denied :
    (role : AgentRole)
    → role ≢ AgentRole.supervisor
    → (agent_update_policy role WorkflowPatchField.status ≡ false)
      × (agent_update_policy role WorkflowPatchField.current_agent ≡ false)
      × (agent_update_policy role WorkflowPatchField.next_agent ≡ false)
      × (agent_update_policy role WorkflowPatchField.iteration ≡ false)
      × (agent_update_policy role WorkflowPatchField.termination_reason ≡ false)
unfolding agent_update_policy
denied AgentRole.supervisor n = absurd (n refl)
denied AgentRole.explorer n = (refl, refl, refl, refl, refl)
denied _ n = (refl, refl, refl, refl, refl)

denied_artifacts :
    (role : AgentRole)
    → role ≢ AgentRole.supervisor
    → (role ≢ AgentRole.explorer
        → agent_update_policy role WorkflowPatchField.evidence_to_add ≡ false)
      × (role ≢ AgentRole.knowledge
          → agent_update_policy role WorkflowPatchField.knowledge_candidates_to_add ≡ false)
      × (role ≢ AgentRole.validator
          → agent_update_policy role WorkflowPatchField.validation_results_to_add ≡ false)
unfolding agent_update_policy
denied_artifacts AgentRole.supervisor n = absurd (n refl)
denied_artifacts AgentRole.explorer n = (λ k. absurd (k refl), λ _. refl, λ _. refl)
denied_artifacts AgentRole.knowledge n = (λ _. refl, λ k. absurd (k refl), λ _. refl)
denied_artifacts AgentRole.validator n = (λ _. refl, λ _. refl, λ k. absurd (k refl))

kept_status : {A : Type 0} (x : A) (o : Option A) → is_some o ≡ false → replacement_or x o ≡ x
kept_status x none h = refl
kept_status x (some y) h = cc

kept_routing :
    {A : Type 0} (x o : Option A) (b : Bool)
    → (is_some o || b) ≡ false
    → replacement_or_clear x o b ≡ x
kept_routing x none false h = refl
kept_routing x none true h = cc
kept_routing x (some y) b h = cc

RecordsOnly-candidate :
    (role : AgentRole) (s : WorkflowState) (p : WorkflowStatePatch)
    → Frozen s
    → role ≢ AgentRole.supervisor
    → StaysWithin (agent_update_policy role) p
    → RecordsOnly role s (freeze_state (candidate s p))
unfolding freeze_state candidate
RecordsOnly-candidate role s p f n w =
    let (status, current, next, iteration, reason) = denied role n in
    let (evidence, knowledge, results) = denied_artifacts role n in
    record {
      status = kept_status s.status p.status (w.status status);
      current_agent = kept_routing _ _ _ (w.current_agent current);
      next_agent = kept_routing _ _ _ (w.next_agent next);
      iteration = kept_status s.iteration p.iteration (w.iteration iteration);
      termination_reason = kept_routing _ _ _ (w.termination_reason reason);
      evidence = λ k. kept_append _ _ f.evidence (w.evidence (evidence k));
      knowledge_candidates =
          λ k. kept_append _ _ f.knowledge_candidates (w.knowledge_candidates (knowledge k));
      validation_results =
          λ k. kept_append _ _ f.validation_results (w.validation_results (results k));
    }

same_role : (a b : AgentRole) → not (role_eq a b) ≡ false → a ≡ b
same_role a b h = role_eq→eq a b (ground arith)

validate_agent_result-eq-ok :
    (request : AgentRequest) (result r : AgentResult)
    → validate_agent_result request result ≡ ok r
    → (result.agent ≡ request.agent)
      × (q : WorkflowStatePatch) × (validate_patch_for_role result.agent result.patch ≡ ok q)
unfolding validate_agent_result
validate_agent_result-eq-ok request result r h =
    let (_, h0, h1) =
      >>=-eq-ok (raise_if (not (role_eq result.agent request.agent)) agent_mismatch) _ h in
    let (_, _, h2) =
      >>=-eq-ok (raise_if (not (str_eq result.workflow_id request.workflow_id)) workflow_mismatch) _
        h1 in
    let (_, _, h3) =
      >>=-eq-ok
        (raise_if (not (str_eq result.invocation_id request.invocation_id)) invocation_mismatch) _
        h2 in
    let (_, _, h4) =
      >>=-eq-ok
        (raise_if (precedes result.completed_at request.requested_at) completed_before_requested) _
        h3 in
    let (q, allowed, _) = >>=-eq-ok (validate_patch_for_role result.agent result.patch) _ h4 in
    (same_role _ _ (raise_if-eq-ok _ agent_mismatch h0), q, allowed)

reduce_result-RecordsOnly :
    (s t : WorkflowState) (agent : PmqaAgent) (request : AgentRequest) (raw : AgentResult)
    → IsConstructed s
    → request.agent ≡ agent.role
    → agent.role ≢ AgentRole.supervisor
    → reduce_result s agent request raw ≡ ok t
    → RecordsOnly agent.role s t
unfolding reduce_result
reduce_result-RecordsOnly s t agent request raw c same n h =
    let (result, _, h1) = >>=-eq-ok (revalidate raw) _ h in
    let (r, valid, h2) = >>=-eq-ok (validate_agent_result request result) _ h1 in
    let (_, _, h3) =
      >>=-eq-ok
        (raise_filled (minus (requested_fields result.patch) agent.allowed_patch_fields)
          exceeds_capabilities)
        _ h2 in
    let (e, q, allowed) = validate_agent_result-eq-ok request result r valid in
    let within = validate_patch_for_role-StaysWithin result.agent result.patch q allowed in
    let within' : StaysWithin (agent_update_policy agent.role) result.patch =
      subst (λ a. StaysWithin (agent_update_policy a) result.patch) (e ∙ same) within in
    rw (apply_patch-result s t result.patch h3)
      (RecordsOnly-candidate agent.role s result.patch (IsConstructed-Frozen s c) n within')

agent_request-eq-ok : (r q : AgentRequest) → agent_request r ≡ ok q → q ≡ r
unfolding agent_request
agent_request-eq-ok r q h = ground arith

-- An agent that is not the supervisor cannot change the status, the routing, the iteration or the
-- termination reason of a constructed state, whatever it returns. Only the Explorer changes the
-- evidence, only the Knowledge agent the knowledge candidates, and only the Validator the
-- validation results.
pub execute_agent-RecordsOnly :
    (s t : WorkflowState) (agent : PmqaAgent) (invocation_id : String) (requested_at : DateTime)
    → IsConstructed s
    → agent.role ≢ AgentRole.supervisor
    → execute_agent s agent invocation_id requested_at ≡ ok t
    → RecordsOnly agent.role s t
unfolding execute_agent
execute_agent-RecordsOnly s t agent id at c n h =
    let (_, _, h1) =
      >>=-eq-ok (raise_if (not (role_eq agent.capability_role agent.role)) capability_role_mismatch)
        _ h in
    let (request, made, h2) = >>=-eq-ok (agent_request (request_for s agent id at)) _ h1 in
    let (raw, _, h3) = >>=-eq-ok (invoked (agent.invoke request)) _ h2 in
    reduce_result-RecordsOnly s t agent request raw c
      (ap (λ r. r.agent) (agent_request-eq-ok (request_for s agent id at) request made)) n h3

-- A successful invocation is one application of a patch to the state.
pub execute_agent-applies :
    (s t : WorkflowState) (agent : PmqaAgent) (id : String) (at : DateTime)
    → execute_agent s agent id at ≡ ok t
    → (p : WorkflowStatePatch) × (apply_patch s p ≡ ok t)
unfolding execute_agent
execute_agent-applies s t agent id at h =
    let (_, _, h1) =
      >>=-eq-ok (raise_if (not (role_eq agent.capability_role agent.role)) capability_role_mismatch)
        _ h in
    let (request, _, h2) = >>=-eq-ok (agent_request (request_for s agent id at)) _ h1 in
    let (raw, _, h3) = >>=-eq-ok (invoked (agent.invoke request)) _ h2 in
    let (result, _, h4) = >>=-eq-ok (revalidate raw) _ h3 in
    let (r, _, h5) = >>=-eq-ok (validate_agent_result request result) _ h4 in
    let (_, _, h6) =
      >>=-eq-ok
        (raise_filled (minus (requested_fields result.patch) agent.allowed_patch_fields)
          exceeds_capabilities)
        _ h5 in
    (result.patch, h6)
