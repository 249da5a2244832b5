-- ===== src/Workflow/Reducer.antt =====
-- pmqa/workflow/reducer.py: one patch applied to a state.
pub mod Inversion
pub mod Progress
pub mod Append
pub mod Lifecycle
pub mod Described
pub mod Succeeds
use pmqa.Base.{
  Result, ok, ◌>>=◌, ◌>>◌, raise_if, Bool, true, false, ◌&&◌, ◌||◌, Option, none, some, List, [],
  ◌∷◌, ◌++◌, ltb, is_some,
}
use mathlib.Core.Logic.{ite}
use pmqa.Workflow.Errors.{
  Error, iteration_decreased, iteration_exceeds_max, updated_at_precedes, lifecycle_mismatch,
  terminal_routing, terminal_changed,
}
use pmqa.Workflow.Models.{
  precedes, is_terminal, WorkflowState, workflow_state, WorkflowState-discrete, differs,
}
use pmqa.Workflow.Updates.{WorkflowStatePatch}

-- `existing if replacement is None else replacement`
abbrev pub replacement_or {ℓ} : {A : Type ℓ} → A → Option A → A
replacement_or existing none = existing
replacement_or existing (some replacement) = replacement

-- `_replacement_or_clear`
abbrev pub replacement_or_clear {ℓ} : {A : Type ℓ} → Option A → Option A → Bool → Option A
replacement_or_clear existing replacement true = none
replacement_or_clear existing (some replacement) false = some replacement
replacement_or_clear existing none false = existing

-- `_append`
abbrev pub append {ℓ} : {A : Type ℓ} → List A → List A → List A
append existing [] = existing
append existing (item ∷ additions) = existing ++ item ∷ additions

-- The arguments with which `apply_patch` constructs the new state.
unfoldable pub candidate : WorkflowState → WorkflowStatePatch → WorkflowState
candidate state patch = record state {
  status = replacement_or state.status patch.status;
  current_agent =
      replacement_or_clear state.current_agent patch.current_agent patch.clear_current_agent;
  next_agent = replacement_or_clear state.next_agent patch.next_agent patch.clear_next_agent;
  iteration = replacement_or state.iteration patch.iteration;
  evidence = append state.evidence patch.evidence_to_add;
  knowledge_candidates = append state.knowledge_candidates patch.knowledge_candidates_to_add;
  validation_results = append state.validation_results patch.validation_results_to_add;
  reasoning_trace_ids = append state.reasoning_trace_ids patch.reasoning_trace_ids_to_add;
  step_history = append state.step_history patch.step_history_to_add;
  warnings = append state.warnings patch.warnings_to_add;
  errors = append state.errors patch.errors_to_add;
  termination_reason =
      replacement_or_clear state.termination_reason patch.termination_reason
        patch.clear_termination_reason;
  updated_at = replacement_or state.updated_at patch.updated_at;
}

-- `candidate != previous`
unfoldable pub is_changed : WorkflowState → WorkflowState → Bool
is_changed previous candidate = ite (WorkflowState-discrete candidate previous) false true

-- `_validate_lifecycle`
unfoldable pub validate_lifecycle : WorkflowState → WorkflowState → Result Error (Unit {0})
validate_lifecycle previous candidate = do
  raise_if (differs (is_terminal candidate.status) (is_some candidate.termination_reason))
      lifecycle_mismatch
  raise_if
      (is_terminal candidate.status
        && (is_some candidate.current_agent || is_some candidate.next_agent))
      terminal_routing
  raise_if (is_terminal previous.status && is_changed previous candidate) terminal_changed

-- The tests on the counter and the clock, before the new state is constructed.
unfoldable pub check_progress : WorkflowState → WorkflowStatePatch → Result Error (Unit {0})
check_progress state patch = do
  raise_if (ltb (replacement_or state.iteration patch.iteration) state.iteration)
      iteration_decreased
  raise_if (ltb state.max_iterations (replacement_or state.iteration patch.iteration))
      iteration_exceeds_max
  raise_if (precedes (replacement_or state.updated_at patch.updated_at) state.updated_at)
      updated_at_precedes

unfoldable pub apply_patch : WorkflowState → WorkflowStatePatch → Result Error WorkflowState
apply_patch state patch = do
  check_progress state patch
  result ← workflow_state (candidate state patch)
  validate_lifecycle state result
  ok result
