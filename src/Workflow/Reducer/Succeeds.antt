-- ===== src/Workflow/Reducer/Succeeds.antt =====
-- When `apply_patch` succeeds.
use mathlib.Core.List.{map-append}
use mathlib.Core.Path.{subst}
use pmqa.Workflow.Reducer.Described.{IsResult, IsResult-candidate, check_progress_of}
use pmqa.Base.{
  ok, ◌≤◌, ◌≡◌, ap, ◌∙◌, Bool, true, false, ◌&&◌, Option, none, some, List, [], ◌∷◌, ◌++◌, map,
  arith,
}
use pmqa.Values.{Value}
use pmqa.Workflow.Payload.{validate_all, freeze}
use pmqa.Workflow.Payload.Frozen.{validate_all-append}
use pmqa.Workflow.Models.{
  DateTime, WorkflowState, workflow_state, all_mappings, has_mappings, is_terminal,
}
use pmqa.Workflow.Models.Construct.{
  IsConstructed, IsConstructed-Facts, Frozen, IsConstructed-Frozen, HasPayload,
  IsConstructed-HasPayload, check_fields_of, check_fields-has_mappings, check_contract_of,
  freeze_state_of_Frozen, workflow_state_of, workflow_state-eq-ok,
}
use pmqa.Workflow.Updates.{WorkflowStatePatch}
use pmqa.Workflow.Updates.Construct.{IsConstructedPatch, IsConstructedPatch-PatchFacts, is_aware?}
use pmqa.Workflow.Reducer.{candidate, apply_patch, append, replacement_or, check_progress}
use pmqa.Workflow.Reducer.Inversion.{check_progress-eq-ok, apply_patch_of}
use pmqa.Workflow.Reducer.Append.{append-eq}
use pmqa.Workflow.Reducer.Lifecycle.{IsConsistent, validate_lifecycle_of}

all_mappings-concat :
    (vs ws : List Value)
    → all_mappings vs ≡ true
    → all_mappings ws ≡ true
    → all_mappings (vs ++ ws) ≡ true
unfolding all_mappings
all_mappings-concat [] ws h k = k
all_mappings-concat (v ∷ vs) ws h k = ground (arith, all_mappings-concat vs ws)

all_mappings-append :
    (vs ws : List Value)
    → all_mappings vs ≡ true
    → all_mappings ws ≡ true
    → all_mappings (append vs ws) ≡ true
all_mappings-append vs ws h k = rw (append-eq vs ws) (all_mappings-concat vs ws h k)

validate_all-both :
    (vs ws : List Value)
    → validate_all vs ≡ ok tt
    → validate_all ws ≡ ok tt
    → validate_all (append vs ws) ≡ ok tt
validate_all-both vs ws h k = rw (append-eq vs ws, validate_all-append vs ws, h) k

frozen_both :
    (vs ws : List Value)
    → map freeze vs ≡ vs
    → map freeze ws ≡ ws
    → map freeze (append vs ws) ≡ append vs ws
frozen_both vs ws h k = rw (append-eq vs ws, map-append) (cc (h, k))

split_mappings :
    (a b c d : Bool) → (a && b && c && d) ≡ true → (a ≡ true) × (b ≡ true) × (c ≡ true) × (d ≡ true)
split_mappings a b c d h = ground arith

split_added : (a b c : Bool) → (a && b && c) ≡ true → (a ≡ true) × (b ≡ true) × (c ≡ true)
split_added a b c h = ground arith

join_mappings :
    (a b c d : Bool) → a ≡ true → b ≡ true → c ≡ true → d ≡ true → (a && b && c && d) ≡ true
join_mappings a b c d p q r s = ground arith

aware_either :
    (t : DateTime) (u : Option DateTime)
    → t.is_aware ≡ true
    → is_aware? u ≡ true
    → (replacement_or t u).is_aware ≡ true
aware_either t none h k = h
aware_either t (some u) h k = k

module _ (s : WorkflowState) (p : WorkflowStatePatch) (c : IsConstructed s)
    (q : IsConstructedPatch p) where
  candidate-Frozen : Frozen (candidate s p)
  unfolding candidate
  candidate-Frozen =
      let f = IsConstructed-Frozen s c in
      let g = IsConstructedPatch-PatchFacts p q in
      record {
        context = f.context;
        evidence = frozen_both _ _ f.evidence g.evidence_frozen;
        knowledge_candidates = frozen_both _ _ f.knowledge_candidates g.knowledge_frozen;
        validation_results = frozen_both _ _ f.validation_results g.results_frozen;
      }

  candidate-HasPayload : HasPayload (candidate s p)
  unfolding candidate
  candidate-HasPayload =
      let f = IsConstructed-HasPayload s c in
      let g = IsConstructedPatch-PatchFacts p q in
      record {
        context = f.context;
        evidence = validate_all-both _ _ f.evidence g.evidence_valid;
        knowledge_candidates = validate_all-both _ _ f.knowledge_candidates g.knowledge_valid;
        validation_results = validate_all-both _ _ f.validation_results g.results_valid;
      }

  candidate-has_mappings : has_mappings (candidate s p) ≡ true
  unfolding candidate
  candidate-has_mappings =
      let (context, evidence, knowledge, results) =
        split_mappings _ _ _ _ (check_fields-has_mappings s (workflow_state-eq-ok s s c).0) in
      let g = IsConstructedPatch-PatchFacts p q in
      let (evidence', knowledge', results') = split_added _ _ _ g.mappings in
      join_mappings _ _ _ _ context (all_mappings-append _ _ evidence evidence')
        (all_mappings-append _ _ knowledge knowledge') (all_mappings-append _ _ results results')

  candidate-aware : (candidate s p).updated_at.is_aware ≡ true
  unfolding candidate
  candidate-aware =
      aware_either s.updated_at p.updated_at (IsConstructed-Facts s c).updated_aware
        (IsConstructedPatch-PatchFacts p q).aware

  -- The construction of the new state succeeds, and freezes nothing anew.
  pub workflow_state-candidate :
      check_progress s p ≡ ok tt → workflow_state (candidate s p) ≡ ok (candidate s p)
  unfolding candidate
  workflow_state-candidate passed =
      let f = IsConstructed-Facts s c in
      let (up, bounded, later) = check_progress-eq-ok s p passed in
      workflow_state_of (candidate s p)
        (check_fields_of (candidate s p) f.named f.limited candidate-has_mappings)
        (check_contract_of (candidate s p) f.created_aware candidate-aware
          (omega (arith, f.ordered, later)) bounded candidate-HasPayload)
      ∙ ap ok (freeze_state_of_Frozen (candidate s p) candidate-Frozen)

-- The new state is the candidate itself.
pub candidate_applied :
    (s : WorkflowState) (p : WorkflowStatePatch)
    → IsConstructed s
    → IsConstructedPatch p
    → is_terminal s.status ≡ false
    → check_progress s p ≡ ok tt
    → IsConsistent (candidate s p)
    → apply_patch s p ≡ ok (candidate s p)
candidate_applied s p c q live passed consistent =
    apply_patch_of s (candidate s p) p passed (workflow_state-candidate s p c q passed)
      (validate_lifecycle_of s (candidate s p) consistent (λ done. cc))

-- A constructed patch on a constructed state that is not terminal succeeds, with the state that
-- takes over each of its replacements, clearances and additions and keeps the rest, whenever the
-- iteration of that state has not fallen and is within the limit, its update time has not gone
-- back, and its status, reason and routing are consistent.
pub apply_patch_succeeds :
    (s t : WorkflowState) (p : WorkflowStatePatch)
    → IsConstructed s
    → IsConstructedPatch p
    → is_terminal s.status ≡ false
    → IsResult s p t
    → s.iteration ≤ t.iteration
    → t.iteration ≤ s.max_iterations
    → s.updated_at.instant ≤ t.updated_at.instant
    → IsConsistent t
    → apply_patch s p ≡ ok t
apply_patch_succeeds s t p c q live result up bounded later consistent =
    let same = IsResult-candidate s t p result in
    let passed =
      check_progress_of s p (subst (λ u. s.iteration ≤ u.iteration) same up)
        (subst (λ u. u.iteration ≤ s.max_iterations) same bounded)
        (subst (λ u. s.updated_at.instant ≤ u.updated_at.instant) same later) in
    rw same (candidate_applied s p c q live passed (subst IsConsistent same consistent))
