-- ===== src/Tests/States.antt =====
-- The states and patches of the samples, constructed and reduced.
use pmqa.Tests.Samples.{
  page_evidence, fresh, routed, explored, exhausted, terminated, evidence_patch,
}
use pmqa.Base.{ok, ◌≤◌, ◌≡◌, refl, [], ◌∷◌, arith, All}
use pmqa.Security.{
  is_plain, casefold_char, casefold, sub_runs, strip_left, strip_right, normalize_boundary_key,
  in_policy, is_prohibited_key,
}
use pmqa.Values.{is_mapping, is_string_keyed}
use pmqa.Workflow.Payload.{check_entry, validate_payload, validate_all, freeze}
use pmqa.Workflow.Models.{
  WorkflowState, AgentRole, workflow_state, check_fields, check_contract, freeze_state,
  all_mappings, require_aware,
}
use pmqa.Workflow.Models.Construct.{
  IsConstructed, workflow_state-IsConstructed, IsConstructed-AllAllowed,
}
use pmqa.Workflow.Updates.{
  empty_patch, workflow_state_patch, check_replacements, check_additions, requested_fields, select,
  agent_update_policy, minus, validate_patch_for_role, common_append_field,
}
use pmqa.Workflow.Updates.Construct.{IsConstructedPatch}
use pmqa.Workflow.Reducer.{apply_patch, check_progress, candidate, validate_lifecycle}
use pmqa.Workflow.Updates.Construct.{IsCoherent, workflow_state_patch-IsCoherent}
use pmqa.Workflow.Updates.Capabilities.{StaysWithin, validate_patch_for_role-StaysWithin}
use pmqa.Workflow.Payload.Safe.{AllAllowed}
use pmqa.Workflow.Reducer.Progress.{SameRun, apply_patch-IsConstructed, apply_patch_progress}
use pmqa.Workflow.Reducer.Described.{IsResult}
use pmqa.Workflow.Reducer.Append.{Extends, apply_patch-Extends}
use pmqa.Workflow.Reducer.Lifecycle.{
  IsConsistent, apply_patch-IsConsistent, terminal_absorbs, apply_patch-empty_patch,
}
use pmqa.Workflow.Reducer.Succeeds.{apply_patch_succeeds}

pub fresh-IsConstructed : IsConstructed fresh
unfolding workflow_state check_fields check_contract freeze_state all_mappings require_aware
    is_mapping is_string_keyed validate_all validate_payload check_entry freeze
fresh-IsConstructed = refl

pub exhausted-IsConstructed : IsConstructed exhausted
unfolding workflow_state check_fields check_contract freeze_state all_mappings require_aware
    is_mapping is_string_keyed validate_all validate_payload check_entry freeze
exhausted-IsConstructed = refl

pub terminated-IsConstructed : IsConstructed terminated
unfolding workflow_state check_fields check_contract freeze_state all_mappings require_aware
    is_mapping is_string_keyed validate_all validate_payload check_entry freeze
terminated-IsConstructed = refl

pub explored-IsConstructed : IsConstructed explored
unfolding workflow_state check_fields check_contract freeze_state all_mappings require_aware
    is_mapping is_string_keyed validate_all validate_payload check_entry freeze is_prohibited_key
    is_plain casefold_char casefold sub_runs strip_left strip_right normalize_boundary_key in_policy
explored-IsConstructed = refl

pub routed-IsConstructed : IsConstructed routed
unfolding workflow_state check_fields check_contract freeze_state all_mappings require_aware
    is_mapping is_string_keyed validate_all validate_payload check_entry freeze
routed-IsConstructed = refl

pub fresh-IsConsistent : IsConsistent fresh
fresh-IsConsistent = record { reason = refl; unrouted = λ h. cc }

pub exhausted-IsConsistent : IsConsistent exhausted
exhausted-IsConsistent = record { reason = refl; unrouted = λ h. cc }

pub explored-IsConsistent : IsConsistent explored
explored-IsConsistent = record { reason = refl; unrouted = λ h. cc }

terminated-IsConsistent : IsConsistent terminated
terminated-IsConsistent = record { reason = refl; unrouted = λ h. (refl, refl) }

-- The state after a second exploration.
abbrev explored_again : WorkflowState
explored_again = record explored {
  evidence = page_evidence ∷ page_evidence ∷ [];
  warnings = "slow page" ∷ [];
}

explored_again-applied : apply_patch explored evidence_patch ≡ ok explored_again
unfolding apply_patch check_progress candidate validate_lifecycle workflow_state check_fields
    check_contract freeze_state all_mappings require_aware is_mapping is_string_keyed validate_all
    validate_payload check_entry freeze is_prohibited_key is_plain casefold_char casefold sub_runs
    strip_left strip_right normalize_boundary_key in_policy
explored_again-applied = refl

evidence_patch-IsConstructed : IsConstructedPatch evidence_patch
unfolding workflow_state_patch check_replacements check_additions workflow_state check_fields
    check_contract freeze_state all_mappings require_aware is_mapping is_string_keyed validate_all
    validate_payload check_entry freeze is_prohibited_key is_plain casefold_char casefold sub_runs
    strip_left strip_right normalize_boundary_key in_policy
evidence_patch-IsConstructed = refl

workflow_state-IsConstructed_example : IsConstructed explored
workflow_state-IsConstructed_example =
    workflow_state-IsConstructed explored explored explored-IsConstructed

IsConstructed-AllAllowed_example :
    AllAllowed explored.product_context
    × All AllAllowed explored.evidence
    × All AllAllowed explored.knowledge_candidates
    × All AllAllowed explored.validation_results
IsConstructed-AllAllowed_example = IsConstructed-AllAllowed explored explored-IsConstructed

workflow_state_patch-IsCoherent_example : IsCoherent evidence_patch
workflow_state_patch-IsCoherent_example =
    workflow_state_patch-IsCoherent evidence_patch evidence_patch evidence_patch-IsConstructed

explorer_patch_allowed :
    validate_patch_for_role AgentRole.explorer evidence_patch ≡ ok evidence_patch
unfolding validate_patch_for_role requested_fields select agent_update_policy minus
    common_append_field
explorer_patch_allowed = refl

validate_patch_for_role-StaysWithin_example :
    StaysWithin (agent_update_policy AgentRole.explorer) evidence_patch
validate_patch_for_role-StaysWithin_example =
    validate_patch_for_role-StaysWithin AgentRole.explorer evidence_patch evidence_patch
      explorer_patch_allowed

apply_patch-IsConstructed_example : IsConstructed explored_again
apply_patch-IsConstructed_example =
    apply_patch-IsConstructed explored explored_again evidence_patch explored_again-applied

apply_patch_progress_example :
    SameRun explored explored_again
    × (explored.iteration ≤ explored_again.iteration)
    × (explored_again.iteration ≤ explored.max_iterations)
    × (explored.updated_at.instant ≤ explored_again.updated_at.instant)
apply_patch_progress_example =
    apply_patch_progress explored explored_again evidence_patch explored_again-applied

apply_patch-Extends_example : Extends explored explored_again evidence_patch
apply_patch-Extends_example =
    apply_patch-Extends explored explored_again evidence_patch explored-IsConstructed
      explored_again-applied

apply_patch-IsConsistent_example : IsConsistent explored_again
apply_patch-IsConsistent_example =
    apply_patch-IsConsistent explored explored_again evidence_patch explored_again-applied

terminated_kept : apply_patch terminated empty_patch ≡ ok terminated
terminated_kept =
    apply_patch-empty_patch terminated terminated-IsConstructed terminated-IsConsistent

terminal_absorbs_example : terminated ≡ terminated
terminal_absorbs_example = terminal_absorbs terminated terminated empty_patch refl terminated_kept

apply_patch-empty_patch_example : apply_patch terminated empty_patch ≡ ok terminated
apply_patch-empty_patch_example =
    apply_patch-empty_patch terminated terminated-IsConstructed terminated-IsConsistent

evidence_patch-IsResult : IsResult explored evidence_patch explored_again
evidence_patch-IsResult = record {
  workflow_id = refl;
  workflow_type = refl;
  product_id = refl;
  product_version = refl;
  goal = refl;
  status = (λ a e. cc, λ e. refl);
  current_agent = (λ e. cc, λ a e g. cc, λ e g. refl);
  next_agent = (λ e. cc, λ a e g. cc, λ e g. refl);
  iteration = (λ a e. cc, λ e. refl);
  max_iterations = refl;
  product_context = refl;
  evidence = refl;
  knowledge_candidates = refl;
  validation_results = refl;
  reasoning_trace_ids = refl;
  step_history = refl;
  warnings = refl;
  errors = refl;
  termination_reason = (λ e. cc, λ a e g. cc, λ e g. refl);
  created_at = refl;
  updated_at = (λ a e. cc, λ e. refl);
}

apply_patch_succeeds_example : apply_patch explored evidence_patch ≡ ok explored_again
apply_patch_succeeds_example =
    apply_patch_succeeds explored explored_again evidence_patch explored-IsConstructed
      evidence_patch-IsConstructed refl evidence_patch-IsResult (omega arith) (omega arith)
      (omega arith) (record { reason = refl; unrouted = λ h. cc })
