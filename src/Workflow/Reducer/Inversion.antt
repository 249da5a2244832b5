-- ===== src/Workflow/Reducer/Inversion.antt =====
-- What a successful `apply_patch` has passed, part by part.
use pmqa.Base.{
  Result, ok, ◌>>=◌, ◌>>◌, >>=-eq-ok, ◌≤◌, ◌≡◌, refl, ◌∙◌, true, false, none, arith, is_some,
}
use mathlib.Core.Logic.{ite}
use pmqa.Workflow.Errors.{Error}
use pmqa.Workflow.Models.{WorkflowState, WorkflowState-discrete, workflow_state, is_terminal}
use pmqa.Workflow.Updates.{WorkflowStatePatch}
use pmqa.Workflow.Reducer.{
  candidate, is_changed, validate_lifecycle, check_progress, apply_patch, replacement_or,
}

pub apply_patch-eq-ok :
    (s t : WorkflowState) (p : WorkflowStatePatch)
    → apply_patch s p ≡ ok t
    → (check_progress s p ≡ ok tt)
      × (workflow_state (candidate s p) ≡ ok t)
      × (validate_lifecycle s t ≡ ok tt)
unfolding apply_patch
apply_patch-eq-ok s t p h =
    let (u, passed, rest) =
      >>=-eq-ok (check_progress s p)
        (λ _. workflow_state (candidate s p) >>= λ r. validate_lifecycle s r >> ok r) h in
    let (r, built, rest') =
      >>=-eq-ok (workflow_state (candidate s p)) (λ r. validate_lifecycle s r >> ok r) rest in
    let (v, lived, same) = >>=-eq-ok (validate_lifecycle s r) (λ _. ok r) rest' in
    (passed, built ∙ same, step r lived same)
  where
    step :
        (r : WorkflowState)
        → validate_lifecycle s r ≡ ok tt
        → ◌≡◌ {A = Result Error WorkflowState} (ok r) (ok t)
        → validate_lifecycle s t ≡ ok tt
    step r lived same = cc

pub apply_patch_of :
    (s t : WorkflowState) (p : WorkflowStatePatch)
    → check_progress s p ≡ ok tt
    → workflow_state (candidate s p) ≡ ok t
    → validate_lifecycle s t ≡ ok tt
    → apply_patch s p ≡ ok t
unfolding apply_patch
apply_patch_of s t p passed built lived = rw (passed, built) (rw lived)

dec_holds {ℓ} : {P : Type ℓ} (d : Dec P) → ite d false true ≡ false → P
dec_holds (yes p) h = p
dec_holds (no n) h = cc

dec_refl {ℓ} : {P : Type ℓ} (d : Dec P) → P → ite d false true ≡ false
dec_refl (yes p) h = refl
dec_refl (no n) h = absurd (n h)

pub eq_of_not_changed : (s t : WorkflowState) → is_changed s t ≡ false → t ≡ s
unfolding is_changed
eq_of_not_changed s t h = dec_holds (WorkflowState-discrete t s) h

pub not_changed_of_eq : (s : WorkflowState) → is_changed s s ≡ false
unfolding is_changed
not_changed_of_eq s = dec_refl (WorkflowState-discrete s s) refl

pub validate_lifecycle-eq-ok :
    (s t : WorkflowState)
    → validate_lifecycle s t ≡ ok tt
    → (is_terminal t.status ≡ is_some t.termination_reason)
      × (is_terminal t.status ≡ true → (t.current_agent ≡ none) × (t.next_agent ≡ none))
      × (is_terminal s.status ≡ true → is_changed s t ≡ false)
unfolding validate_lifecycle
validate_lifecycle-eq-ok s t h = ground arith

pub check_progress-eq-ok :
    (s : WorkflowState) (p : WorkflowStatePatch)
    → check_progress s p ≡ ok tt
    → (s.iteration ≤ replacement_or s.iteration p.iteration)
      × (replacement_or s.iteration p.iteration ≤ s.max_iterations)
      × (s.updated_at.instant ≤ (replacement_or s.updated_at p.updated_at).instant)
unfolding check_progress
check_progress-eq-ok s p h = ground arith
