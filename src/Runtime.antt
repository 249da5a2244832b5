-- ===== src/Runtime.antt =====
-- pmqa/runtime/runtime.py: one agent invocation, and one tool invocation.
pub mod Isolation
pub mod Reports
pub mod Dispatch
use pmqa.Base.{
  Result, ok, err, ◌>>=◌, ◌>>◌, raise_if, String, Bool, true, false, not, Option, none, some, List,
  [],
}
use pmqa.Workflow.Errors.{Error, agent_raised, capability_role_mismatch, exceeds_capabilities}
use pmqa.Workflow.Models.{DateTime, role_eq, WorkflowState}
use pmqa.Workflow.Updates.{requested_fields, minus, raise_filled}
use pmqa.Workflow.Reducer.{apply_patch}
use pmqa.Workflow.Agents.{
  AgentRequest, agent_request, AgentResult, revalidate, validate_agent_result, PmqaAgent,
}
use pmqa.Workflow.Errors.{category_mismatch, tool_raised}
use pmqa.Workflow.ToolIds.{ToolCategory}
use pmqa.Workflow.Tools.{
  ToolRequest, ToolResult, PmqaTool, revalidate_tool_result, validate_tool_result,
}
use pmqa.Workflow.ToolRegistry.{get_tool}

-- What `agent.invoke(request)` returns, or the error that it raises.
abbrev pub invoked : Option AgentResult → Result Error AgentResult
invoked none = err agent_raised
invoked (some result) = ok result

-- The request that `execute_agent` constructs.
abbrev pub request_for : WorkflowState → PmqaAgent → String → DateTime → AgentRequest
request_for state agent invocation_id requested_at = record {
  workflow_id = state.workflow_id;
  agent = agent.role;
  state = state;
  invocation_id = invocation_id;
  requested_at = requested_at;
  instruction = none;
  context_refs = [];
}

-- The steps of `execute_agent` behind the call of the agent.
unfoldable pub reduce_result :
    WorkflowState → PmqaAgent → AgentRequest → AgentResult → Result Error WorkflowState
reduce_result state agent request raw = do
  result ← revalidate raw
  validate_agent_result request result
  raise_filled (minus (requested_fields result.patch) agent.allowed_patch_fields)
      exceeds_capabilities
  apply_patch state result.patch

unfoldable pub execute_agent :
    WorkflowState → PmqaAgent → String → DateTime → Result Error WorkflowState
unfolding reduce_result
execute_agent state agent invocation_id requested_at = do
  raise_if (not (role_eq agent.capability_role agent.role)) capability_role_mismatch
  request ← agent_request (request_for state agent invocation_id requested_at)
  raw ← invoked (agent.invoke request)
  reduce_result state agent request raw

-- `a is b`, of two categories.
abbrev pub category_eq : ToolCategory → ToolCategory → Bool
category_eq ToolCategory.playwright ToolCategory.playwright = true
category_eq ToolCategory.reasoning ToolCategory.reasoning = true
category_eq ToolCategory.product_memory ToolCategory.product_memory = true
category_eq ToolCategory.filesystem ToolCategory.filesystem = true
category_eq ToolCategory.validation ToolCategory.validation = true
category_eq ToolCategory.utility ToolCategory.utility = true
category_eq _ _ = false

-- What `tool.invoke(request)` returns, or the error that it raises.
abbrev pub tool_invoked : Option ToolResult → Result Error ToolResult
tool_invoked none = err tool_raised
tool_invoked (some result) = ok result

unfoldable pub invoke_tool : List PmqaTool → ToolRequest → Result Error ToolResult
invoke_tool registry request = do
  tool ← get_tool registry request.tool_id
  raise_if (not (category_eq tool.metadata.category request.category)) category_mismatch
  raw ← tool_invoked (tool.invoke request)
  result ← revalidate_tool_result raw
  validate_tool_result request result
