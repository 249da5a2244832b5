-- ===== src/Workflow/Errors.antt =====
-- pmqa/workflow/errors.py, with one constructor for each error that the modelled contracts raise.
-- The text of a message is not modelled.
use pmqa.Base.{List}
use pmqa.Workflow.Fields.{WorkflowPatchField}

pub data Error : Type 0 where
  -- `_validate_payload`
  non_finite_number non_string_key prohibited_field runtime_object : Error
  -- the constraints of the fields
  empty_text not_a_mapping max_iterations_below_one : Error
  missing_timezone : Error
  -- `AgentInvocation`
  completed_before_started completed_at_mismatch : Error
  -- `WorkflowState`
  updated_before_created iteration_above_max : Error
  -- `WorkflowStatePatch`
  current_agent_set_and_cleared next_agent_set_and_cleared reason_set_and_cleared : Error
  terminal_needs_reason reason_needs_terminal clear_needs_status clear_with_terminal : Error
  -- `validate_patch_for_role`, with the fields that it names
  disallowed_fields : List WorkflowPatchField → Error
  -- `apply_patch`
  iteration_decreased iteration_exceeds_max updated_at_precedes : Error
  lifecycle_mismatch terminal_routing terminal_changed : Error
  -- `AgentRequest`, `AgentResult`, `validate_agent_result`, `WorkflowRuntime`
  workflow_mismatch agent_mismatch invocation_mismatch completed_before_requested : Error
  agent_raised capability_role_mismatch : Error
  exceeds_capabilities : List WorkflowPatchField → Error
  -- tools.py and `WorkflowRuntime.invoke_tool`
  invalid_tool_id namespace_mismatch duplicate_tool tool_not_registered : Error
  category_mismatch tool_raised tool_mismatch : Error
