-- ===== src/Workflow/Reducer/Described.antt =====
-- The state that a patch describes, field by field.
use pmqa.Base.{
  ok, ◌≤◌, ◌≡◌, refl, sym, ◌∙◌, Bool, true, false, Option, none, some, List, ◌++◌, arith,
}
use pmqa.Workflow.Models.{WorkflowState}
use pmqa.Workflow.Updates.{WorkflowStatePatch}
use pmqa.Workflow.Reducer.{candidate, append, replacement_or, replacement_or_clear, check_progress}
use pmqa.Workflow.Reducer.Append.{append-eq}

-- A field is replaced where the patch gives a value, and stays where it gives none.
abbrev pub IsReplaced {ℓ} : {A : Type ℓ} → A → Option A → A → Type ℓ
IsReplaced {A = A} existing given new =
    ((a : A) → given ≡ some a → new ≡ a) × (given ≡ none → new ≡ existing)

-- A field that a patch can also clear.
abbrev pub IsCleared {ℓ} : {A : Type ℓ} → Option A → Option A → Bool → Option A → Type ℓ
IsCleared {A = A} existing given clear new =
    (clear ≡ true → new ≡ none)
    × ((a : A) → clear ≡ false → given ≡ some a → new ≡ some a)
    × (clear ≡ false → given ≡ none → new ≡ existing)

-- What a state is that has taken over the replacements and the additions of a patch.
pub record IsResult (s : WorkflowState) (p : WorkflowStatePatch) (t : WorkflowState) : Type 0 where
  pub workflow_id : t.workflow_id ≡ s.workflow_id
  pub workflow_type : t.workflow_type ≡ s.workflow_type
  pub product_id : t.product_id ≡ s.product_id
  pub product_version : t.product_version ≡ s.product_version
  pub goal : t.goal ≡ s.goal
  pub status : IsReplaced s.status p.status t.status
  pub current_agent :
      IsCleared s.current_agent p.current_agent p.clear_current_agent t.current_agent
  pub next_agent : IsCleared s.next_agent p.next_agent p.clear_next_agent t.next_agent
  pub iteration : IsReplaced s.iteration p.iteration t.iteration
  pub max_iterations : t.max_iterations ≡ s.max_iterations
  pub product_context : t.product_context ≡ s.product_context
  pub evidence : t.evidence ≡ s.evidence ++ p.evidence_to_add
  pub knowledge_candidates :
      t.knowledge_candidates ≡ s.knowledge_candidates ++ p.knowledge_candidates_to_add
  pub validation_results :
      t.validation_results ≡ s.validation_results ++ p.validation_results_to_add
  pub reasoning_trace_ids :
      t.reasoning_trace_ids ≡ s.reasoning_trace_ids ++ p.reasoning_trace_ids_to_add
  pub step_history : t.step_history ≡ s.step_history ++ p.step_history_to_add
  pub warnings : t.warnings ≡ s.warnings ++ p.warnings_to_add
  pub errors : t.errors ≡ s.errors ++ p.errors_to_add
  pub termination_reason :
      IsCleared s.termination_reason p.termination_reason p.clear_termination_reason
        t.termination_reason
  pub created_at : t.created_at ≡ s.created_at
  pub updated_at : IsReplaced s.updated_at p.updated_at t.updated_at

replaced {ℓ} :
    {A : Type ℓ} (existing : A) (given : Option A) {new : A}
    → IsReplaced existing given new
    → new ≡ replacement_or existing given
replaced existing none h = h.1 refl
replaced existing (some a) h = h.0 a refl

cleared {ℓ} :
    {A : Type ℓ} (existing given : Option A) (clear : Bool) {new : Option A}
    → IsCleared existing given clear new
    → new ≡ replacement_or_clear existing given clear
cleared existing given true h = h.0 refl
cleared existing none false h = h.2 refl refl
cleared existing (some a) false h = h.1 a refl refl

appended {ℓ} : {A : Type ℓ} (xs ys : List A) {new : List A} → new ≡ xs ++ ys → new ≡ append xs ys
appended xs ys h = h ∙ sym (append-eq xs ys)

-- There is one such state.
pub IsResult-candidate :
    (s t : WorkflowState) (p : WorkflowStatePatch) → IsResult s p t → t ≡ candidate s p
unfolding candidate
IsResult-candidate s t p h = λ i. record {
  workflow_id = h.workflow_id i;
  workflow_type = h.workflow_type i;
  product_id = h.product_id i;
  product_version = h.product_version i;
  goal = h.goal i;
  status = replaced s.status p.status h.status i;
  current_agent = cleared s.current_agent p.current_agent p.clear_current_agent h.current_agent i;
  next_agent = cleared s.next_agent p.next_agent p.clear_next_agent h.next_agent i;
  iteration = replaced s.iteration p.iteration h.iteration i;
  max_iterations = h.max_iterations i;
  product_context = h.product_context i;
  evidence = appended s.evidence p.evidence_to_add h.evidence i;
  knowledge_candidates =
      appended s.knowledge_candidates p.knowledge_candidates_to_add h.knowledge_candidates i;
  validation_results =
      appended s.validation_results p.validation_results_to_add h.validation_results i;
  reasoning_trace_ids =
      appended s.reasoning_trace_ids p.reasoning_trace_ids_to_add h.reasoning_trace_ids i;
  step_history = appended s.step_history p.step_history_to_add h.step_history i;
  warnings = appended s.warnings p.warnings_to_add h.warnings i;
  errors = appended s.errors p.errors_to_add h.errors i;
  termination_reason =
      cleared s.termination_reason p.termination_reason p.clear_termination_reason
        h.termination_reason i;
  created_at = h.created_at i;
  updated_at = replaced s.updated_at p.updated_at h.updated_at i;
}

pub check_progress_of :
    (s : WorkflowState) (p : WorkflowStatePatch)
    → s.iteration ≤ (candidate s p).iteration
    → (candidate s p).iteration ≤ s.max_iterations
    → s.updated_at.instant ≤ (candidate s p).updated_at.instant
    → check_progress s p ≡ ok tt
unfolding check_progress candidate
check_progress_of s p up bounded later = ground arith
