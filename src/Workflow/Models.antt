-- ===== src/Workflow/Models.antt =====
-- The contracts of pmqa/workflow/models.py. A record holds the values of the fields; the function
-- named after it is the constructor of the class, with its validation and its freezing.
-- A field of a type that pydantic checks by itself has that type here.
use pmqa.Base.{
  Result, ok, ◌>>◌, raise_if, ℕ, String, Bool, true, false, not, ◌&&◌, ◌||◌, Option, none, some,
  List, [], ◌∷◌, map, str_eq, ltb, ◌==◌, is_some,
}
pub mod Construct
use native.Mathlib.Decide.{ℕ_discrete}
use pmqa.Values.{Value, is_mapping, String-discrete, Value-discrete}
use pmqa.Workflow.Errors.{
  Error, empty_text, not_a_mapping, max_iterations_below_one, missing_timezone,
  completed_before_started, completed_at_mismatch, updated_before_created, iteration_above_max,
}
use pmqa.Workflow.Payload.{validate_payload, validate_all, freeze}

-- A `datetime`: the microseconds from a fixed time that no `datetime` precedes, in UTC where the
-- value is aware, and whether it has a time zone with an offset.
pub record DateTime : Type 0 where
  pub instant : ℕ
  pub is_aware : Bool

-- `a < b`, of two aware values.
abbrev pub precedes : DateTime → DateTime → Bool
precedes a b = ltb a.instant b.instant

unfoldable pub require_aware : DateTime → Result Error (Unit {0})
require_aware value = raise_if (not value.is_aware) missing_timezone

abbrev pub require_aware? : Option DateTime → Result Error (Unit {0})
require_aware? none = ok tt
require_aware? (some value) = raise_if (not value.is_aware) missing_timezone

pub data WorkflowStatus : Type 0 where
  pending running completed failed terminated : WorkflowStatus

pub data AgentInvocationStatus : Type 0 where
  pending running completed failed : AgentInvocationStatus

pub data AgentRole : Type 0 where
  supervisor explorer validator knowledge : AgentRole

pub data TerminationReason : Type 0 where
  goal_completed max_iterations agent_requested error : TerminationReason

-- `_TERMINAL_STATUSES`
abbrev pub is_terminal : WorkflowStatus → Bool
is_terminal WorkflowStatus.pending = false
is_terminal WorkflowStatus.running = false
is_terminal _ = true

abbrev pub role_eq : AgentRole → AgentRole → Bool
role_eq AgentRole.supervisor AgentRole.supervisor = true
role_eq AgentRole.explorer AgentRole.explorer = true
role_eq AgentRole.validator AgentRole.validator = true
role_eq AgentRole.knowledge AgentRole.knowledge = true
role_eq _ _ = false

-- `min_length=1`
abbrev pub is_empty : String → Bool
is_empty s = str_eq s ""

abbrev pub is_empty? : Option String → Bool
is_empty? none = false
is_empty? (some s) = is_empty s

unfoldable pub all_mappings : List Value → Bool
all_mappings [] = true
all_mappings (item ∷ rest) = is_mapping item && all_mappings rest

pub record AgentInvocation : Type 0 where
  pub agent : AgentRole
  pub started_at : DateTime
  pub completed_at : Option DateTime
  pub status : AgentInvocationStatus
  pub input_summary : Value
  pub output_summary : Value
  pub reasoning_trace_id : Option String

abbrev pub is_done : AgentInvocationStatus → Bool
is_done AgentInvocationStatus.completed = true
is_done AgentInvocationStatus.failed = true
is_done _ = false

abbrev pub precedes? : Option DateTime → DateTime → Bool
precedes? none b = false
precedes? (some a) b = precedes a b

abbrev pub differs : Bool → Bool → Bool
differs true b = not b
differs false b = b

unfoldable pub agent_invocation : AgentInvocation → Result Error AgentInvocation
unfolding require_aware
agent_invocation v = do
  raise_if (is_empty? v.reasoning_trace_id) empty_text
  raise_if (not (is_mapping v.input_summary && is_mapping v.output_summary)) not_a_mapping
  require_aware v.started_at
  require_aware? v.completed_at
  raise_if (precedes? v.completed_at v.started_at) completed_before_started
  raise_if (differs (is_done v.status) (is_some v.completed_at)) completed_at_mismatch
  validate_payload v.input_summary
  validate_payload v.output_summary
  ok (record v { input_summary = freeze v.input_summary; output_summary = freeze v.output_summary })

pub record WorkflowState : Type 0 where
  pub workflow_id : String
  pub workflow_type : String
  pub product_id : String
  pub product_version : String
  pub goal : String
  pub status : WorkflowStatus
  pub current_agent : Option AgentRole
  pub next_agent : Option AgentRole
  pub iteration : ℕ
  pub max_iterations : ℕ
  pub product_context : Value
  pub evidence : List Value
  pub knowledge_candidates : List Value
  pub validation_results : List Value
  pub reasoning_trace_ids : List String
  pub step_history : List AgentInvocation
  pub warnings : List String
  pub errors : List String
  pub termination_reason : Option TerminationReason
  pub created_at : DateTime
  pub updated_at : DateTime

abbrev pub has_empty_text : WorkflowState → Bool
has_empty_text s =
    is_empty s.workflow_id
    || is_empty s.workflow_type
    || is_empty s.product_id
    || is_empty s.product_version
    || is_empty s.goal

abbrev pub has_mappings : WorkflowState → Bool
has_mappings s =
    is_mapping s.product_context
    && all_mappings s.evidence
    && all_mappings s.knowledge_candidates
    && all_mappings s.validation_results

-- The constraints of the fields.
unfoldable pub check_fields : WorkflowState → Result Error (Unit {0})
unfolding all_mappings
check_fields s = do
  raise_if (has_empty_text s) empty_text
  raise_if (s.max_iterations == 0) max_iterations_below_one
  raise_if (not (has_mappings s)) not_a_mapping

-- The tests of `WorkflowState.validate_contract`.
unfoldable pub check_contract : WorkflowState → Result Error (Unit {0})
unfolding require_aware
check_contract s = do
  require_aware s.created_at
  require_aware s.updated_at
  raise_if (precedes s.updated_at s.created_at) updated_before_created
  raise_if (ltb s.max_iterations s.iteration) iteration_above_max
  validate_payload s.product_context
  validate_all s.evidence
  validate_all s.knowledge_candidates
  validate_all s.validation_results

unfoldable pub freeze_state : WorkflowState → WorkflowState
freeze_state s = record s {
  product_context = freeze s.product_context;
  evidence = map freeze s.evidence;
  knowledge_candidates = map freeze s.knowledge_candidates;
  validation_results = map freeze s.validation_results;
}

unfoldable pub workflow_state : WorkflowState → Result Error WorkflowState
workflow_state s = do check_fields s; check_contract s; ok (freeze_state s)

DateTime-discrete : Discrete DateTime
DateTime-discrete = hlevel ℕ_discrete

pub AgentInvocation-discrete : Discrete AgentInvocation
AgentInvocation-discrete = hlevel (ℕ_discrete, String-discrete, Value-discrete, DateTime-discrete)

-- `==` of two states. Python's `==` on payloads also takes 1 and 1.0 or differently ordered
-- dictionaries for equal. The states compared by the reducer have payloads of which one is a
-- prefix of the other, and there the two agree.
pub WorkflowState-discrete : Discrete WorkflowState
WorkflowState-discrete =
    hlevel
      (ℕ_discrete, String-discrete, Value-discrete, DateTime-discrete, AgentInvocation-discrete)
