-- ===== src/Workflow/Updates/Construct.antt =====
-- The patches that the constructor of `WorkflowStatePatch` returns.
use pmqa.Base.{refl, false, is_some, arith, ap, sym, ok, ◌≡◌, Bool, true, Option, none, some, map}
use pmqa.Workflow.Payload.{validate_all, freeze}
use pmqa.Workflow.Models.{require_aware?, DateTime}
use pmqa.Workflow.Updates.{
  is_terminal?, check_replacements, check_additions, WorkflowStatePatch, workflow_state_patch,
  adds_mappings,
}

-- A patch that the constructor returns as it is.
abbrev pub IsConstructedPatch : WorkflowStatePatch → Type 0
IsConstructedPatch p = workflow_state_patch p ≡ ok p

abbrev pub is_aware? : Option DateTime → Bool
is_aware? none = true
is_aware? (some t) = t.is_aware

pub record PatchFacts (p : WorkflowStatePatch) : Type 0 where
  pub mappings : adds_mappings p ≡ true
  pub aware : is_aware? p.updated_at ≡ true
  pub evidence_valid : validate_all p.evidence_to_add ≡ ok tt
  pub knowledge_valid : validate_all p.knowledge_candidates_to_add ≡ ok tt
  pub results_valid : validate_all p.validation_results_to_add ≡ ok tt
  pub evidence_frozen : map freeze p.evidence_to_add ≡ p.evidence_to_add
  pub knowledge_frozen : map freeze p.knowledge_candidates_to_add ≡ p.knowledge_candidates_to_add
  pub results_frozen : map freeze p.validation_results_to_add ≡ p.validation_results_to_add

abbrev pub freeze_patch : WorkflowStatePatch → WorkflowStatePatch
freeze_patch p = record p {
  evidence_to_add = map freeze p.evidence_to_add;
  knowledge_candidates_to_add = map freeze p.knowledge_candidates_to_add;
  validation_results_to_add = map freeze p.validation_results_to_add;
}

pub workflow_state_patch-eq-ok :
    (p q : WorkflowStatePatch)
    → workflow_state_patch p ≡ ok q
    → (adds_mappings p ≡ true)
      × (check_replacements p ≡ ok tt)
      × (require_aware? p.updated_at ≡ ok tt)
      × (check_additions p ≡ ok tt)
      × (q ≡ freeze_patch p)
workflow_state_patch-eq-ok p q h = unfold workflow_state_patch in ground arith

check_additions-eq-ok :
    (p : WorkflowStatePatch)
    → check_additions p ≡ ok tt
    → (validate_all p.evidence_to_add ≡ ok tt)
      × (validate_all p.knowledge_candidates_to_add ≡ ok tt)
      × (validate_all p.validation_results_to_add ≡ ok tt)
unfolding check_additions
check_additions-eq-ok p h = ground arith

require_aware?-eq-ok : (t : Option DateTime) → require_aware? t ≡ ok tt → is_aware? t ≡ true
require_aware?-eq-ok none h = refl
require_aware?-eq-ok (some t) h = ground arith

pub IsConstructedPatch-PatchFacts : (p : WorkflowStatePatch) → IsConstructedPatch p → PatchFacts p
IsConstructedPatch-PatchFacts p h =
    let (mappings, replaced, aware, added, same) = workflow_state_patch-eq-ok p p h in
    let (evidence, knowledge, results) = check_additions-eq-ok p added in
    record {
      mappings = mappings;
      aware = require_aware?-eq-ok p.updated_at aware;
      evidence_valid = evidence;
      knowledge_valid = knowledge;
      results_valid = results;
      evidence_frozen = sym (ap (λ q. q.evidence_to_add) same);
      knowledge_frozen = sym (ap (λ q. q.knowledge_candidates_to_add) same);
      results_frozen = sym (ap (λ q. q.validation_results_to_add) same);
    }

-- The replacements of a constructed patch are coherent: a terminal status comes with a
-- termination reason and a reason with such a status, no field is both set and cleared, and the
-- reason is cleared only beside a status that is not terminal.
pub record IsCoherent (p : WorkflowStatePatch) : Type 0 where
  pub current_agent : p.clear_current_agent ≡ true → p.current_agent ≡ none
  pub next_agent : p.clear_next_agent ≡ true → p.next_agent ≡ none
  pub termination_reason : p.clear_termination_reason ≡ true → p.termination_reason ≡ none
  pub reason : is_terminal? p.status ≡ is_some p.termination_reason
  pub clearing :
      p.clear_termination_reason ≡ true
      → (is_some p.status ≡ true) × (is_terminal? p.status ≡ false)

check_replacements-IsCoherent :
    (p : WorkflowStatePatch) → check_replacements p ≡ ok tt → IsCoherent p
unfolding check_replacements
check_replacements-IsCoherent p h = ground arith

-- Whatever patch the constructor returns has coherent replacements.
pub workflow_state_patch-IsCoherent :
    (p q : WorkflowStatePatch) → workflow_state_patch p ≡ ok q → IsCoherent q
workflow_state_patch-IsCoherent p q h =
    let (mappings, replaced, aware, added, same) = workflow_state_patch-eq-ok p q h in
    let c = check_replacements-IsCoherent p replaced in
    rw same (record {
      current_agent = c.current_agent;
      next_agent = c.next_agent;
      termination_reason = c.termination_reason;
      reason = c.reason;
      clearing = c.clearing;
    })
