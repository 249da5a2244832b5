-- ===== src/Workflow/Agents.antt =====
-- The requests and results of pmqa/workflow/agents.py. A record holds the values of the fields; the
-- function named after it is the constructor of the class.
use pmqa.Base.{
  Result, ok, ◌>>=◌, ◌>>◌, raise_if, String, Bool, not, ◌||◌, Option, List, [], ◌∷◌, str_eq,
}
use pmqa.Values.{Value, is_mapping}
use pmqa.Workflow.Errors.{
  Error, empty_text, not_a_mapping, workflow_mismatch, agent_mismatch, invocation_mismatch,
  completed_before_requested,
}
use pmqa.Workflow.Fields.{WorkflowPatchField}
use pmqa.Workflow.Payload.{validate_payload, freeze}
use pmqa.Workflow.Models.{
  DateTime, require_aware, precedes, AgentInvocation, agent_invocation, AgentRole, role_eq,
  WorkflowState, is_empty, is_empty?,
}
use pmqa.Workflow.Updates.{WorkflowStatePatch, workflow_state_patch, validate_patch_for_role}

pub data AgentExecutionStatus : Type 0 where
  succeeded failed no_action : AgentExecutionStatus

pub record AgentRequest : Type 0 where
  pub workflow_id : String
  pub agent : AgentRole
  pub state : WorkflowState
  pub invocation_id : String
  pub requested_at : DateTime
  pub instruction : Option String
  pub context_refs : List String

unfoldable pub agent_request : AgentRequest → Result Error AgentRequest
agent_request r = do
  raise_if (is_empty r.workflow_id || is_empty r.invocation_id) empty_text
  require_aware r.requested_at
  raise_if (not (str_eq r.workflow_id r.state.workflow_id)) workflow_mismatch
  ok r

pub record AgentResult : Type 0 where
  pub workflow_id : String
  pub agent : AgentRole
  pub invocation_id : String
  pub patch : WorkflowStatePatch
  pub completed_at : DateTime
  pub outcome_status : AgentExecutionStatus
  pub summary : Value
  pub reasoning_trace_id : Option String
  pub warnings : List String
  pub errors : List String

abbrev has_empty_text : AgentResult → Bool
has_empty_text r =
    is_empty r.workflow_id || is_empty r.invocation_id || is_empty? r.reasoning_trace_id

unfoldable pub agent_result : AgentResult → Result Error AgentResult
agent_result r = do
  raise_if (has_empty_text r) empty_text
  raise_if (not (is_mapping r.summary)) not_a_mapping
  require_aware r.completed_at
  validate_payload r.summary
  validate_patch_for_role r.agent r.patch
  ok (record r { summary = freeze r.summary })

unfoldable pub agent_invocations : List AgentInvocation → Result Error (List AgentInvocation)
agent_invocations [] = ok []
agent_invocations (v ∷ rest) = do
  v' ← agent_invocation v
  rest' ← agent_invocations rest
  ok (v' ∷ rest')

-- `AgentResult.model_validate` on the dumped fields of a result, which constructs what is nested
-- in it anew.
unfoldable pub revalidate : AgentResult → Result Error AgentResult
unfolding agent_invocations
revalidate r = do
  history ← agent_invocations r.patch.step_history_to_add
  patch ← workflow_state_patch (record r.patch { step_history_to_add = history })
  agent_result (record r { patch = patch })

unfoldable pub validate_agent_result : AgentRequest → AgentResult → Result Error AgentResult
validate_agent_result request result = do
  raise_if (not (role_eq result.agent request.agent)) agent_mismatch
  raise_if (not (str_eq result.workflow_id request.workflow_id)) workflow_mismatch
  raise_if (not (str_eq result.invocation_id request.invocation_id)) invocation_mismatch
  raise_if (precedes result.completed_at request.requested_at) completed_before_requested
  validate_patch_for_role result.agent result.patch
  ok result

-- `PMQAAgent`: what an agent declares, and what its `invoke` returns. It may raise.
pub record PmqaAgent : Type 0 where
  pub role : AgentRole
  pub capability_role : AgentRole
  pub allowed_patch_fields : WorkflowPatchField → Bool
  pub invoke : AgentRequest → Option AgentResult
