-- ===== src/Workflow/Reducer/Append.antt =====
-- The histories of a state only grow at their ends.
use mathlib.Core.List.{append-nil, map-append}
use pmqa.Base.{ok, ◌≡◌, refl, sym, ap, List, [], ◌∷◌, ◌++◌, map}
use pmqa.Values.{Value}
use pmqa.Workflow.Payload.{freeze}
use pmqa.Workflow.Models.{WorkflowState, freeze_state}
use pmqa.Workflow.Models.Construct.{IsConstructed, Frozen, IsConstructed-Frozen}
use pmqa.Workflow.Updates.{WorkflowStatePatch}
use pmqa.Workflow.Reducer.{candidate, apply_patch, append}
use pmqa.Workflow.Reducer.Progress.{apply_patch-result}

pub append-eq {ℓ} : {A : Type ℓ} (xs ys : List A) → append xs ys ≡ xs ++ ys
append-eq xs [] = sym (append-nil xs)
append-eq xs (y ∷ ys) = refl

frozen_append :
    (xs ys : List Value) → map freeze xs ≡ xs → map freeze (append xs ys) ≡ xs ++ map freeze ys
frozen_append xs ys h = rw (append-eq xs ys, map-append) (ap (λ zs. zs ++ map freeze ys) h)

-- Each list of `t` is that of `s` with the additions of the patch behind it.
pub record Extends (s t : WorkflowState) (p : WorkflowStatePatch) : Type 0 where
  pub evidence : t.evidence ≡ s.evidence ++ map freeze p.evidence_to_add
  pub knowledge_candidates :
      t.knowledge_candidates ≡ s.knowledge_candidates ++ map freeze p.knowledge_candidates_to_add
  pub validation_results :
      t.validation_results ≡ s.validation_results ++ map freeze p.validation_results_to_add
  pub reasoning_trace_ids :
      t.reasoning_trace_ids ≡ s.reasoning_trace_ids ++ p.reasoning_trace_ids_to_add
  pub step_history : t.step_history ≡ s.step_history ++ p.step_history_to_add
  pub warnings : t.warnings ≡ s.warnings ++ p.warnings_to_add
  pub errors : t.errors ≡ s.errors ++ p.errors_to_add

Extends-candidate :
    (s : WorkflowState) (p : WorkflowStatePatch)
    → Frozen s
    → Extends s (freeze_state (candidate s p)) p
unfolding freeze_state candidate
Extends-candidate s p h = record {
  evidence = frozen_append s.evidence p.evidence_to_add h.evidence;
  knowledge_candidates =
      frozen_append s.knowledge_candidates p.knowledge_candidates_to_add h.knowledge_candidates;
  validation_results =
      frozen_append s.validation_results p.validation_results_to_add h.validation_results;
  reasoning_trace_ids = append-eq s.reasoning_trace_ids p.reasoning_trace_ids_to_add;
  step_history = append-eq s.step_history p.step_history_to_add;
  warnings = append-eq s.warnings p.warnings_to_add;
  errors = append-eq s.errors p.errors_to_add;
}

-- A successful patch on a constructed state leaves every recorded item in its place: each history
-- is the old one followed by what the patch adds, with added payloads frozen.
pub apply_patch-Extends :
    (s t : WorkflowState) (p : WorkflowStatePatch)
    → IsConstructed s
    → apply_patch s p ≡ ok t
    → Extends s t p
apply_patch-Extends s t p c h =
    rw (apply_patch-result s t p h) (Extends-candidate s p (IsConstructed-Frozen s c))
