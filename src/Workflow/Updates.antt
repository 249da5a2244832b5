-- ===== src/Workflow/Updates.antt =====
-- The patches and the capability policy of pmqa/workflow/updates.py.
pub mod Construct
pub mod Capabilities
use pmqa.Base.{
  Result, ok, err, ◌>>◌, raise_if, ℕ, String, Bool, true, false, not, ◌&&◌, ◌||◌, Option, none,
  some, List, [], ◌∷◌, map, if◌then◌else◌, is_some,
}
use pmqa.Values.{Value}
use pmqa.Workflow.Errors.{
  Error, not_a_mapping, current_agent_set_and_cleared, next_agent_set_and_cleared,
  reason_set_and_cleared, terminal_needs_reason, reason_needs_terminal, clear_needs_status,
  clear_with_terminal, disallowed_fields,
}
use pmqa.Workflow.Fields.{WorkflowPatchField}
use pmqa.Workflow.Payload.{validate_all, freeze}
use pmqa.Workflow.Models.{
  DateTime, require_aware?, WorkflowStatus, is_terminal, AgentRole, TerminationReason,
  AgentInvocation, all_mappings,
}

pub record WorkflowStatePatch : Type 0 where
  pub status : Option WorkflowStatus
  pub current_agent : Option AgentRole
  pub clear_current_agent : Bool
  pub next_agent : Option AgentRole
  pub clear_next_agent : Bool
  pub iteration : Option ℕ
  pub evidence_to_add : List Value
  pub knowledge_candidates_to_add : List Value
  pub validation_results_to_add : List Value
  pub reasoning_trace_ids_to_add : List String
  pub step_history_to_add : List AgentInvocation
  pub warnings_to_add : List String
  pub errors_to_add : List String
  pub termination_reason : Option TerminationReason
  pub clear_termination_reason : Bool
  pub updated_at : Option DateTime

-- `WorkflowStatePatch()`
abbrev pub empty_patch : WorkflowStatePatch
empty_patch = record {
  status = none;
  current_agent = none;
  clear_current_agent = false;
  next_agent = none;
  clear_next_agent = false;
  iteration = none;
  evidence_to_add = [];
  knowledge_candidates_to_add = [];
  validation_results_to_add = [];
  reasoning_trace_ids_to_add = [];
  step_history_to_add = [];
  warnings_to_add = [];
  errors_to_add = [];
  termination_reason = none;
  clear_termination_reason = false;
  updated_at = none;
}

-- `status in terminal_statuses`, where the status may be missing.
abbrev pub is_terminal? : Option WorkflowStatus → Bool
is_terminal? none = false
is_terminal? (some status) = is_terminal status

-- The tests of `validate_contract` on the replacements and clears.
unfoldable pub check_replacements : WorkflowStatePatch → Result Error (Unit {0})
check_replacements p = do
  raise_if (is_some p.current_agent && p.clear_current_agent) current_agent_set_and_cleared
  raise_if (is_some p.next_agent && p.clear_next_agent) next_agent_set_and_cleared
  raise_if (is_some p.termination_reason && p.clear_termination_reason) reason_set_and_cleared
  raise_if (is_terminal? p.status && not (is_some p.termination_reason)) terminal_needs_reason
  raise_if (is_some p.termination_reason && not (is_terminal? p.status)) reason_needs_terminal
  raise_if (p.clear_termination_reason && not (is_some p.status)) clear_needs_status
  raise_if (p.clear_termination_reason && is_terminal? p.status) clear_with_terminal

-- The tests on the payloads, and the annotation of their fields.
unfoldable pub check_additions : WorkflowStatePatch → Result Error (Unit {0})
check_additions p = do
  validate_all p.evidence_to_add
  validate_all p.knowledge_candidates_to_add
  validate_all p.validation_results_to_add

abbrev pub adds_mappings : WorkflowStatePatch → Bool
adds_mappings p =
    all_mappings p.evidence_to_add
    && all_mappings p.knowledge_candidates_to_add
    && all_mappings p.validation_results_to_add

-- The constructor of the class.
unfoldable pub workflow_state_patch : WorkflowStatePatch → Result Error WorkflowStatePatch
unfolding check_replacements check_additions
workflow_state_patch p = do
  raise_if (not (adds_mappings p)) not_a_mapping
  check_replacements p
  require_aware? p.updated_at
  check_additions p
  ok (record p {
    evidence_to_add = map freeze p.evidence_to_add;
    knowledge_candidates_to_add = map freeze p.knowledge_candidates_to_add;
    validation_results_to_add = map freeze p.validation_results_to_add;
  })

abbrev pub is_filled {ℓ} : {A : Type ℓ} → List A → Bool
is_filled [] = false
is_filled (_ ∷ _) = true

-- The tests of `requested_fields`, each with the field that it adds.
abbrev pub requests : WorkflowStatePatch → List (Bool × WorkflowPatchField)
requests p =
    (is_some p.status, WorkflowPatchField.status)
    ∷ (is_some p.current_agent || p.clear_current_agent, WorkflowPatchField.current_agent)
    ∷ (is_some p.next_agent || p.clear_next_agent, WorkflowPatchField.next_agent)
    ∷ (is_some p.iteration, WorkflowPatchField.iteration)
    ∷ (is_filled p.evidence_to_add, WorkflowPatchField.evidence_to_add)
    ∷ (is_filled p.knowledge_candidates_to_add, WorkflowPatchField.knowledge_candidates_to_add)
    ∷ (is_filled p.validation_results_to_add, WorkflowPatchField.validation_results_to_add)
    ∷ (is_filled p.reasoning_trace_ids_to_add, WorkflowPatchField.reasoning_trace_ids_to_add)
    ∷ (is_filled p.step_history_to_add, WorkflowPatchField.step_history_to_add)
    ∷ (is_filled p.warnings_to_add, WorkflowPatchField.warnings_to_add)
    ∷ (is_filled p.errors_to_add, WorkflowPatchField.errors_to_add)
    ∷ (
      is_some p.termination_reason || p.clear_termination_reason,
      WorkflowPatchField.termination_reason,
    )
    ∷ (is_some p.updated_at, WorkflowPatchField.updated_at)
    ∷ []

unfoldable pub select : List (Bool × WorkflowPatchField) → List WorkflowPatchField
select [] = []
select ((asked, field) ∷ rest) = if asked then field ∷ select rest else select rest

-- The set of operations that a patch requests.
unfoldable pub requested_fields : WorkflowStatePatch → List WorkflowPatchField
unfolding select
requested_fields p = select (requests p)

-- `AGENT_UPDATE_POLICY[role].allowed_patch_fields`: the fields common to all agents, and the
-- rest for each role.
unfoldable pub common_append_field : WorkflowPatchField → Bool
common_append_field WorkflowPatchField.reasoning_trace_ids_to_add = true
common_append_field WorkflowPatchField.step_history_to_add = true
common_append_field WorkflowPatchField.warnings_to_add = true
common_append_field WorkflowPatchField.errors_to_add = true
common_append_field WorkflowPatchField.updated_at = true
common_append_field _ = false

abbrev field_of_supervisor : WorkflowPatchField → Bool
field_of_supervisor WorkflowPatchField.status = true
field_of_supervisor WorkflowPatchField.current_agent = true
field_of_supervisor WorkflowPatchField.next_agent = true
field_of_supervisor WorkflowPatchField.iteration = true
field_of_supervisor WorkflowPatchField.termination_reason = true
field_of_supervisor WorkflowPatchField.step_history_to_add = true
field_of_supervisor WorkflowPatchField.warnings_to_add = true
field_of_supervisor WorkflowPatchField.errors_to_add = true
field_of_supervisor WorkflowPatchField.updated_at = true
field_of_supervisor _ = false

abbrev field_of_explorer : WorkflowPatchField → Bool
field_of_explorer WorkflowPatchField.evidence_to_add = true
field_of_explorer field = common_append_field field

abbrev field_of_knowledge : WorkflowPatchField → Bool
field_of_knowledge WorkflowPatchField.knowledge_candidates_to_add = true
field_of_knowledge field = common_append_field field

abbrev field_of_validator : WorkflowPatchField → Bool
field_of_validator WorkflowPatchField.validation_results_to_add = true
field_of_validator field = common_append_field field

unfoldable pub agent_update_policy : AgentRole → WorkflowPatchField → Bool
unfolding common_append_field
agent_update_policy AgentRole.supervisor field = field_of_supervisor field
agent_update_policy AgentRole.explorer field = field_of_explorer field
agent_update_policy AgentRole.knowledge field = field_of_knowledge field
agent_update_policy AgentRole.validator field = field_of_validator field

-- `requested - allowed`
unfoldable pub minus :
    List WorkflowPatchField → (WorkflowPatchField → Bool) → List WorkflowPatchField
minus [] allowed = []
minus (field ∷ rest) allowed =
    if allowed field then minus rest allowed else field ∷ minus rest allowed

abbrev pub raise_filled :
    List WorkflowPatchField → (List WorkflowPatchField → Error) → Result Error (Unit {0})
raise_filled [] e = ok tt
raise_filled (field ∷ rest) e = err (e (field ∷ rest))

unfoldable pub validate_patch_for_role :
    AgentRole → WorkflowStatePatch → Result Error WorkflowStatePatch
unfolding requested_fields agent_update_policy minus
validate_patch_for_role role patch = do
  raise_filled (minus (requested_fields patch) (agent_update_policy role)) disallowed_fields
  ok patch
