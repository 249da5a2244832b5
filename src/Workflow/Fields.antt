-- ===== src/Workflow/Fields.antt =====
-- `WorkflowPatchField` of pmqa/workflow/updates.py.
pub data WorkflowPatchField : Type 0 where
  status current_agent next_agent iteration evidence_to_add knowledge_candidates_to_add
        validation_results_to_add reasoning_trace_ids_to_add step_history_to_add warnings_to_add
        errors_to_add termination_reason updated_at :
      WorkflowPatchField

pub WorkflowPatchField-discrete : Discrete WorkflowPatchField
WorkflowPatchField-discrete = hlevel
