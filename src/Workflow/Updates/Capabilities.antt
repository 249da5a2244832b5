-- ===== src/Workflow/Updates/Capabilities.antt =====
-- What a patch leaves alone when its requested fields are within a set of allowed fields.
use pmqa.Base.{
  ok, >>=-eq-ok, ◌≡◌, refl, inl, inr, Bool, true, false, ◌||◌, List, [], ◌∷◌, Bool-cases, is_some,
  All,
}
use pmqa.Workflow.Errors.{Error, disallowed_fields}
use pmqa.Workflow.Fields.{WorkflowPatchField}
use pmqa.Workflow.Models.{AgentRole}
use pmqa.Workflow.Updates.{
  WorkflowStatePatch, requests, select, requested_fields, minus, is_filled, raise_filled,
  agent_update_policy, validate_patch_for_role,
}

-- A field that is not allowed is not asked for.
pub record StaysWithin (allowed : WorkflowPatchField → Bool) (p : WorkflowStatePatch) : Type 0 where
  pub status : allowed WorkflowPatchField.status ≡ false → is_some p.status ≡ false
  pub current_agent :
      allowed WorkflowPatchField.current_agent ≡ false
      → (is_some p.current_agent || p.clear_current_agent) ≡ false
  pub next_agent :
      allowed WorkflowPatchField.next_agent ≡ false
      → (is_some p.next_agent || p.clear_next_agent) ≡ false
  pub iteration : allowed WorkflowPatchField.iteration ≡ false → is_some p.iteration ≡ false
  pub evidence :
      allowed WorkflowPatchField.evidence_to_add ≡ false → is_filled p.evidence_to_add ≡ false
  pub knowledge_candidates :
      allowed WorkflowPatchField.knowledge_candidates_to_add ≡ false
      → is_filled p.knowledge_candidates_to_add ≡ false
  pub validation_results :
      allowed WorkflowPatchField.validation_results_to_add ≡ false
      → is_filled p.validation_results_to_add ≡ false
  pub reasoning_trace_ids :
      allowed WorkflowPatchField.reasoning_trace_ids_to_add ≡ false
      → is_filled p.reasoning_trace_ids_to_add ≡ false
  pub step_history :
      allowed WorkflowPatchField.step_history_to_add ≡ false
      → is_filled p.step_history_to_add ≡ false
  pub warnings :
      allowed WorkflowPatchField.warnings_to_add ≡ false → is_filled p.warnings_to_add ≡ false
  pub errors : allowed WorkflowPatchField.errors_to_add ≡ false → is_filled p.errors_to_add ≡ false
  pub termination_reason :
      allowed WorkflowPatchField.termination_reason ≡ false
      → (is_some p.termination_reason || p.clear_termination_reason) ≡ false
  pub updated_at : allowed WorkflowPatchField.updated_at ≡ false → is_some p.updated_at ≡ false

-- No test passes whose field is not allowed.
abbrev Excludes : (WorkflowPatchField → Bool) → List (Bool × WorkflowPatchField) → Type 0
Excludes allowed = All (λ r. allowed r.1 ≡ false → r.0 ≡ false)

cons_not_nil : {x : WorkflowPatchField} {xs : List WorkflowPatchField} → ¬ (x ∷ xs ≡ [])
cons_not_nil q = cc

minus-select :
    (allowed : WorkflowPatchField → Bool) (rs : List (Bool × WorkflowPatchField))
    → minus (select rs) allowed ≡ []
    → Excludes allowed rs
unfolding minus select
minus-select allowed [] h = tt
minus-select allowed ((false, field) ∷ rs) h = (λ _. refl, minus-select allowed rs h)
minus-select allowed ((true, field) ∷ rs) h = elim (Bool-cases (allowed field)) [
  | inl e ↦ (λ n. cc, minus-select allowed rs (rw e at h))
  | inr e ↦ absurd (cons_not_nil (rw e at h))
]

-- A patch whose requested fields are all allowed stays within them.
pub minus-StaysWithin :
    (allowed : WorkflowPatchField → Bool) (p : WorkflowStatePatch)
    → minus (requested_fields p) allowed ≡ []
    → StaysWithin allowed p
minus-StaysWithin allowed p h =
    let all : Excludes allowed (requests p) =
      minus-select allowed (requests p) (unfold requested_fields in h) in
    record {
      status = all.0;
      current_agent = all.1.0;
      next_agent = all.1.1.0;
      iteration = all.1.1.1.0;
      evidence = all.1.1.1.1.0;
      knowledge_candidates = all.1.1.1.1.1.0;
      validation_results = all.1.1.1.1.1.1.0;
      reasoning_trace_ids = all.1.1.1.1.1.1.1.0;
      step_history = all.1.1.1.1.1.1.1.1.0;
      warnings = all.1.1.1.1.1.1.1.1.1.0;
      errors = all.1.1.1.1.1.1.1.1.1.1.0;
      termination_reason = all.1.1.1.1.1.1.1.1.1.1.1.0;
      updated_at = all.1.1.1.1.1.1.1.1.1.1.1.1.0;
    }

raise_filled-eq-ok :
    (fields : List WorkflowPatchField) (e : List WorkflowPatchField → Error)
    → raise_filled fields e ≡ ok tt
    → fields ≡ []
raise_filled-eq-ok [] e h = refl
raise_filled-eq-ok (f ∷ fs) e h = cc

-- A patch that the policy accepts for a role asks for no field outside the role's capabilities.
pub validate_patch_for_role-StaysWithin :
    (role : AgentRole) (p q : WorkflowStatePatch)
    → validate_patch_for_role role p ≡ ok q
    → StaysWithin (agent_update_policy role) p
unfolding validate_patch_for_role
validate_patch_for_role-StaysWithin role p q h =
    let excess = minus (requested_fields p) (agent_update_policy role) in
    minus-StaysWithin (agent_update_policy role) p (
      raise_filled-eq-ok excess disallowed_fields
        (>>=-eq-ok (raise_filled excess disallowed_fields) (λ _. ok p) h).1)
