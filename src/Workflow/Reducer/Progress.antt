-- ===== src/Workflow/Reducer/Progress.antt =====
-- The state that `apply_patch` returns, against the state that it was given.
use pmqa.Base.{ok, ◌≤◌, ◌≡◌, refl}
use pmqa.Workflow.Models.{WorkflowState, freeze_state}
use pmqa.Workflow.Models.Construct.{
  IsConstructed, workflow_state-IsConstructed, workflow_state-eq-ok,
}
use pmqa.Workflow.Updates.{WorkflowStatePatch}
use pmqa.Workflow.Reducer.{check_progress, candidate, apply_patch}
use pmqa.Workflow.Reducer.Inversion.{apply_patch-eq-ok, check_progress-eq-ok}

pub apply_patch-result :
    (s t : WorkflowState) (p : WorkflowStatePatch)
    → apply_patch s p ≡ ok t
    → t ≡ freeze_state (candidate s p)
apply_patch-result s t p h =
    (workflow_state-eq-ok (candidate s p) t (apply_patch-eq-ok s t p h).1).2

-- Whatever state `apply_patch` returns is one that the constructor of `WorkflowState` accepts and
-- leaves as it is.
pub apply_patch-IsConstructed :
    (s t : WorkflowState) (p : WorkflowStatePatch) → apply_patch s p ≡ ok t → IsConstructed t
apply_patch-IsConstructed s t p h =
    workflow_state-IsConstructed (candidate s p) t (apply_patch-eq-ok s t p h).1

-- What no patch changes.
pub record SameRun (s t : WorkflowState) : Type 0 where
  pub workflow_id : t.workflow_id ≡ s.workflow_id
  pub workflow_type : t.workflow_type ≡ s.workflow_type
  pub product_id : t.product_id ≡ s.product_id
  pub product_version : t.product_version ≡ s.product_version
  pub goal : t.goal ≡ s.goal
  pub max_iterations : t.max_iterations ≡ s.max_iterations
  pub created_at : t.created_at ≡ s.created_at

SameRun-freeze_state-candidate :
    (s : WorkflowState) (p : WorkflowStatePatch) → SameRun s (freeze_state (candidate s p))
unfolding freeze_state candidate
SameRun-freeze_state-candidate s p = record {
  workflow_id = refl;
  workflow_type = refl;
  product_id = refl;
  product_version = refl;
  goal = refl;
  max_iterations = refl;
  created_at = refl;
}

progress :
    (s : WorkflowState) (p : WorkflowStatePatch)
    → check_progress s p ≡ ok tt
    → (s.iteration ≤ (freeze_state (candidate s p)).iteration)
      × ((freeze_state (candidate s p)).iteration ≤ s.max_iterations)
      × (s.updated_at.instant ≤ (freeze_state (candidate s p)).updated_at.instant)
unfolding freeze_state candidate
progress s p h = check_progress-eq-ok s p h

-- A successful patch keeps the identity, the limit and the creation time of the run. The iteration
-- does not fall and does not pass the limit, and the update time does not go back.
pub apply_patch_progress :
    (s t : WorkflowState) (p : WorkflowStatePatch)
    → apply_patch s p ≡ ok t
    → SameRun s t
      × (s.iteration ≤ t.iteration)
      × (t.iteration ≤ s.max_iterations)
      × (s.updated_at.instant ≤ t.updated_at.instant)
apply_patch_progress s t p h =
    let (up, bounded, later) = progress s p (apply_patch-eq-ok s t p h).0 in
    rw (apply_patch-result s t p h) (SameRun-freeze_state-candidate s p, up, bounded, later)
