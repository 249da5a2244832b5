-- ===== src/Workflow/Reducer/Lifecycle.antt =====
-- The lifecycle that `_validate_lifecycle` enforces.
use pmqa.Base.{ok, ◌≤◌, ◌≡◌, refl, true, false, none, arith, is_some}
use pmqa.Workflow.Models.{WorkflowState, is_terminal}
use pmqa.Workflow.Models.Construct.{IsConstructed, IsConstructed-Facts}
use pmqa.Workflow.Updates.{WorkflowStatePatch, empty_patch}
use pmqa.Workflow.Reducer.{candidate, apply_patch, check_progress, validate_lifecycle, is_changed}
use pmqa.Workflow.Reducer.Inversion.{
  apply_patch-eq-ok, apply_patch_of, validate_lifecycle-eq-ok, eq_of_not_changed, not_changed_of_eq,
}

-- A state has a termination reason exactly when its status is terminal, and then no agent is
-- current or next.
pub record IsConsistent (s : WorkflowState) : Type 0 where
  pub reason : is_terminal s.status ≡ is_some s.termination_reason
  pub unrouted : is_terminal s.status ≡ true → (s.current_agent ≡ none) × (s.next_agent ≡ none)

-- Whatever state `apply_patch` returns has a termination reason exactly when its status is
-- terminal, and then it has no agent routing.
pub apply_patch-IsConsistent :
    (s t : WorkflowState) (p : WorkflowStatePatch) → apply_patch s p ≡ ok t → IsConsistent t
apply_patch-IsConsistent s t p h =
    let (reason, unrouted, _) = validate_lifecycle-eq-ok s t (apply_patch-eq-ok s t p h).2 in
    record { reason = reason; unrouted = unrouted }

-- From a terminal state a patch is refused or changes nothing.
pub terminal_absorbs :
    (s t : WorkflowState) (p : WorkflowStatePatch)
    → is_terminal s.status ≡ true
    → apply_patch s p ≡ ok t
    → t ≡ s
terminal_absorbs s t p done h =
    eq_of_not_changed s t ((validate_lifecycle-eq-ok s t (apply_patch-eq-ok s t p h).2).2 done)

check_progress-empty_patch :
    (s : WorkflowState) → s.iteration ≤ s.max_iterations → check_progress s empty_patch ≡ ok tt
unfolding check_progress
check_progress-empty_patch s h = ground arith

candidate-empty_patch : (s : WorkflowState) → candidate s empty_patch ≡ s
unfolding candidate
candidate-empty_patch s = refl

pub validate_lifecycle_of :
    (s t : WorkflowState)
    → IsConsistent t
    → (is_terminal s.status ≡ true → is_changed s t ≡ false)
    → validate_lifecycle s t ≡ ok tt
unfolding validate_lifecycle
validate_lifecycle_of s t c h = ground (arith, c.reason, c.unrouted)

-- The patch that requests nothing is accepted by every constructed, consistent state, terminal or
-- not, and gives that state back.
pub apply_patch-empty_patch :
    (s : WorkflowState) → IsConstructed s → IsConsistent s → apply_patch s empty_patch ≡ ok s
apply_patch-empty_patch s c h =
    apply_patch_of s s empty_patch
      (check_progress-empty_patch s (IsConstructed-Facts s c).within_limit)
      (rw (candidate-empty_patch s) c) (validate_lifecycle_of s s h (λ _. not_changed_of_eq s))
