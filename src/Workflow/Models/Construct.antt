-- ===== src/Workflow/Models/Construct.antt =====
-- The states that the constructor of `WorkflowState` returns.
use pmqa.Workflow.Payload.Safe.{validate_payload_iff, AllAllowed}
use pmqa.Base.{
  ok, >>=-eq-ok, ◌≤◌, ◌<◌, ◌≡◌, refl, sym, ap, ◌∙◌, true, false, List, [], ◌∷◌, map, arith, All,
}
use pmqa.Values.{Value}
use pmqa.Workflow.Payload.{validate_payload, validate_all, freeze}
use pmqa.Workflow.Payload.Frozen.{
  freeze_idem, validate_payload-freeze, validate_all-map-freeze, map-freeze_idem, is_mapping-freeze,
}
use pmqa.Workflow.Models.{
  has_mappings, require_aware, WorkflowState, workflow_state, check_fields, check_contract,
  freeze_state, all_mappings, has_empty_text,
}

all_mappings-map-freeze : (vs : List Value) → all_mappings (map freeze vs) ≡ all_mappings vs
unfolding all_mappings
all_mappings-map-freeze [] = refl
all_mappings-map-freeze (v ∷ vs) = rw (is_mapping-freeze v, all_mappings-map-freeze vs)

check_fields-freeze_state : (s : WorkflowState) → check_fields (freeze_state s) ≡ check_fields s
unfolding check_fields freeze_state
check_fields-freeze_state s = simp (is_mapping-freeze, all_mappings-map-freeze)

check_contract-freeze_state :
    (s : WorkflowState) → check_contract (freeze_state s) ≡ check_contract s
unfolding check_contract freeze_state
check_contract-freeze_state s = simp (validate_payload-freeze, validate_all-map-freeze)

freeze_state_idem : (s : WorkflowState) → freeze_state (freeze_state s) ≡ freeze_state s
unfolding freeze_state
freeze_state_idem s = simp (freeze_idem, map-freeze_idem)

-- A state that the constructor returns: constructing it again changes nothing.
abbrev pub IsConstructed : WorkflowState → Type 0
IsConstructed s = workflow_state s ≡ ok s

pub workflow_state-eq-ok :
    (s t : WorkflowState)
    → workflow_state s ≡ ok t
    → (check_fields s ≡ ok tt) × (check_contract s ≡ ok tt) × (t ≡ freeze_state s)
unfolding workflow_state
workflow_state-eq-ok s t h = ground arith

pub workflow_state_of :
    (s : WorkflowState)
    → check_fields s ≡ ok tt
    → check_contract s ≡ ok tt
    → workflow_state s ≡ ok (freeze_state s)
unfolding workflow_state
workflow_state_of s f c = ground arith

-- Whatever the constructor returns is a fixed point of it.
pub workflow_state-IsConstructed : (s t : WorkflowState) → workflow_state s ≡ ok t → IsConstructed t
workflow_state-IsConstructed s t h =
    let (f, c, e) = workflow_state-eq-ok s t h in
    rw e (
      workflow_state_of (freeze_state s) (check_fields-freeze_state s ∙ f)
        (check_contract-freeze_state s ∙ c)
      ∙ ap ok (freeze_state_idem s))

-- The facts that hold of a constructed state besides those on its payloads.
pub record Facts (s : WorkflowState) : Type 0 where
  pub named : has_empty_text s ≡ false
  pub limited : 0 < s.max_iterations
  pub within_limit : s.iteration ≤ s.max_iterations
  pub created_aware : s.created_at.is_aware ≡ true
  pub updated_aware : s.updated_at.is_aware ≡ true
  pub ordered : s.created_at.instant ≤ s.updated_at.instant

check_fields-Facts :
    (s : WorkflowState)
    → check_fields s ≡ ok tt
    → (has_empty_text s ≡ false) × (0 < s.max_iterations)
unfolding check_fields
check_fields-Facts s h = ground arith

check_contract-Facts :
    (s : WorkflowState)
    → check_contract s ≡ ok tt
    → (s.created_at.is_aware ≡ true)
      × (s.updated_at.is_aware ≡ true)
      × (s.created_at.instant ≤ s.updated_at.instant)
      × (s.iteration ≤ s.max_iterations)
unfolding check_contract require_aware
check_contract-Facts s h = ground arith

check_contract-payload :
    (s : WorkflowState)
    → check_contract s ≡ ok tt
    → (validate_payload s.product_context ≡ ok tt)
      × (validate_all s.evidence ≡ ok tt)
      × (validate_all s.knowledge_candidates ≡ ok tt)
      × (validate_all s.validation_results ≡ ok tt)
unfolding check_contract require_aware
check_contract-payload s h = ground arith

-- A constructed state has its texts, a positive limit that the iteration has not passed, and two
-- aware timestamps in order.
pub IsConstructed-Facts : (s : WorkflowState) → IsConstructed s → Facts s
IsConstructed-Facts s h =
    let (f, c, _) = workflow_state-eq-ok s s h in
    let (named, limited) = check_fields-Facts s f in
    let (created, updated, ordered, within) = check_contract-Facts s c in
    record {
      named = named;
      limited = limited;
      within_limit = within;
      created_aware = created;
      updated_aware = updated;
      ordered = ordered;
    }

-- The payloads are as `freeze` leaves them.
pub record Frozen (s : WorkflowState) : Type 0 where
  pub context : freeze s.product_context ≡ s.product_context
  pub evidence : map freeze s.evidence ≡ s.evidence
  pub knowledge_candidates : map freeze s.knowledge_candidates ≡ s.knowledge_candidates
  pub validation_results : map freeze s.validation_results ≡ s.validation_results

Frozen-of_eq : (s : WorkflowState) → s ≡ freeze_state s → Frozen s
unfolding freeze_state
Frozen-of_eq s e = record {
  context = sym (ap (λ t. t.product_context) e);
  evidence = sym (ap (λ t. t.evidence) e);
  knowledge_candidates = sym (ap (λ t. t.knowledge_candidates) e);
  validation_results = sym (ap (λ t. t.validation_results) e);
}

pub IsConstructed-Frozen : (s : WorkflowState) → IsConstructed s → Frozen s
IsConstructed-Frozen s h = Frozen-of_eq s (workflow_state-eq-ok s s h).2

all_allowed : (vs : List Value) → validate_all vs ≡ ok tt → All AllAllowed vs
unfolding validate_all
all_allowed [] h = tt
all_allowed (v ∷ vs) h =
    let (u, p, q) = >>=-eq-ok (validate_payload v) (λ _. validate_all vs) h in
    ((validate_payload_iff v).0 p, all_allowed vs q)

-- The product context, the evidence, the knowledge candidates and the validation results of a
-- constructed state hold, at any depth, no runtime object, no float that is not finite, and no
-- mapping with a prohibited key or a key that is not a string. The summaries of its step history
-- are not among these payloads.
pub IsConstructed-AllAllowed :
    (s : WorkflowState)
    → IsConstructed s
    → AllAllowed s.product_context
      × All AllAllowed s.evidence
      × All AllAllowed s.knowledge_candidates
      × All AllAllowed s.validation_results
IsConstructed-AllAllowed s h =
    let (context, evidence, knowledge, results) =
      check_contract-payload s (workflow_state-eq-ok s s h).1 in
    (
      (validate_payload_iff _).0 context,
      all_allowed _ evidence,
      all_allowed _ knowledge,
      all_allowed _ results,
    )

pub check_fields_of :
    (s : WorkflowState)
    → has_empty_text s ≡ false
    → 0 < s.max_iterations
    → has_mappings s ≡ true
    → check_fields s ≡ ok tt
unfolding check_fields
check_fields_of s named limited mappings = ground arith

pub check_fields-has_mappings : (s : WorkflowState) → check_fields s ≡ ok tt → has_mappings s ≡ true
unfolding check_fields
check_fields-has_mappings s h = ground arith

-- Every payload passes its validation.
pub record HasPayload (s : WorkflowState) : Type 0 where
  pub context : validate_payload s.product_context ≡ ok tt
  pub evidence : validate_all s.evidence ≡ ok tt
  pub knowledge_candidates : validate_all s.knowledge_candidates ≡ ok tt
  pub validation_results : validate_all s.validation_results ≡ ok tt

pub check_contract_of :
    (s : WorkflowState)
    → s.created_at.is_aware ≡ true
    → s.updated_at.is_aware ≡ true
    → s.created_at.instant ≤ s.updated_at.instant
    → s.iteration ≤ s.max_iterations
    → HasPayload s
    → check_contract s ≡ ok tt
unfolding check_contract require_aware
check_contract_of s created updated ordered within p = ground arith

pub IsConstructed-HasPayload : (s : WorkflowState) → IsConstructed s → HasPayload s
IsConstructed-HasPayload s h =
    let (context, evidence, knowledge, results) =
      check_contract-payload s (workflow_state-eq-ok s s h).1 in
    record {
      context = context;
      evidence = evidence;
      knowledge_candidates = knowledge;
      validation_results = results;
    }

pub freeze_state_of_Frozen : (s : WorkflowState) → Frozen s → freeze_state s ≡ s
unfolding freeze_state
freeze_state_of_Frozen s h =
    simp (h.context, h.evidence, h.knowledge_candidates, h.validation_results)
