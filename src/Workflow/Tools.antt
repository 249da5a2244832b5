-- ===== src/Workflow/Tools.antt =====
-- The contracts of pmqa/workflow/tools.py. A record holds the values of the fields; the function
-- named after it is the constructor of the class.
use pmqa.Base.{
  Result, ok, ◌>>=◌, ◌>>◌, raise_if, String, Bool, not, ◌&&◌, ◌||◌, Option, List, [], ◌∷◌, str_eq,
}
use pmqa.Values.{Value, is_mapping}
use pmqa.Workflow.Errors.{
  Error, empty_text, not_a_mapping, tool_mismatch, workflow_mismatch, invocation_mismatch,
  completed_before_requested,
}
use pmqa.Workflow.Payload.{validate_payload, freeze}
use pmqa.Workflow.Models.{DateTime, require_aware, precedes, AgentRole, is_empty}
use pmqa.Workflow.ToolIds.{ToolCategory, validate_tool_id, validate_tool_category}

pub data ToolExecutionStatus : Type 0 where
  succeeded failed partial skipped : ToolExecutionStatus

pub record ToolMetadata : Type 0 where
  pub tool_id : String
  pub category : ToolCategory
  pub description : String
  pub input_schema_version : String
  pub output_schema_version : String

unfoldable pub tool_metadata : ToolMetadata → Result Error ToolMetadata
unfolding validate_tool_id validate_tool_category
tool_metadata m = do
  raise_if (is_empty m.tool_id) empty_text
  validate_tool_id m.tool_id
  raise_if
      (is_empty m.description
        || is_empty m.input_schema_version
        || is_empty m.output_schema_version)
      empty_text
  validate_tool_category m.tool_id m.category
  ok m

pub record ArtifactReference : Type 0 where
  pub artifact_id : String
  pub artifact_type : String
  pub content_type : String
  pub location : String
  pub created_at : DateTime

unfoldable pub artifact_reference : ArtifactReference → Result Error ArtifactReference
artifact_reference a = do
  raise_if
      (is_empty a.artifact_id
        || is_empty a.artifact_type
        || is_empty a.content_type
        || is_empty a.location)
      empty_text
  require_aware a.created_at
  ok a

pub record ToolError : Type 0 where
  pub code : String
  pub message : String
  pub retryable : Bool

unfoldable pub tool_error : ToolError → Result Error ToolError
tool_error e = do raise_if (is_empty e.code || is_empty e.message) empty_text; ok e

pub record ToolRequest : Type 0 where
  pub tool_id : String
  pub category : ToolCategory
  pub workflow_id : String
  pub invocation_id : String
  pub requested_by_agent : AgentRole
  pub requested_at : DateTime
  pub input : Value

unfoldable pub tool_request : ToolRequest → Result Error ToolRequest
unfolding validate_tool_id validate_tool_category
tool_request r = do
  raise_if (is_empty r.tool_id) empty_text
  validate_tool_id r.tool_id
  raise_if (is_empty r.workflow_id || is_empty r.invocation_id) empty_text
  raise_if (not (is_mapping r.input)) not_a_mapping
  require_aware r.requested_at
  validate_tool_category r.tool_id r.category
  validate_payload r.input
  ok (record r { input = freeze r.input })

pub record ToolResult : Type 0 where
  pub tool_id : String
  pub workflow_id : String
  pub invocation_id : String
  pub completed_at : DateTime
  pub status : ToolExecutionStatus
  pub output : Value
  pub summary : Value
  pub artifacts : List ArtifactReference
  pub warnings : List String
  pub errors : List ToolError

unfoldable pub tool_result : ToolResult → Result Error ToolResult
unfolding validate_tool_id
tool_result r = do
  raise_if (is_empty r.tool_id) empty_text
  validate_tool_id r.tool_id
  raise_if (is_empty r.workflow_id || is_empty r.invocation_id) empty_text
  raise_if (not (is_mapping r.output && is_mapping r.summary)) not_a_mapping
  require_aware r.completed_at
  validate_payload r.output
  validate_payload r.summary
  ok (record r { output = freeze r.output; summary = freeze r.summary })

unfoldable pub artifact_references : List ArtifactReference → Result Error (List ArtifactReference)
artifact_references [] = ok []
artifact_references (a ∷ rest) = do
  a' ← artifact_reference a
  rest' ← artifact_references rest
  ok (a' ∷ rest')

unfoldable pub tool_errors : List ToolError → Result Error (List ToolError)
tool_errors [] = ok []
tool_errors (e ∷ rest) = do e' ← tool_error e; rest' ← tool_errors rest; ok (e' ∷ rest')

-- `ToolResult.model_validate` on the dumped fields of a result.
unfoldable pub revalidate_tool_result : ToolResult → Result Error ToolResult
revalidate_tool_result r = do
  artifacts ← artifact_references r.artifacts
  errors ← tool_errors r.errors
  tool_result (record r { artifacts = artifacts; errors = errors })

unfoldable pub validate_tool_result : ToolRequest → ToolResult → Result Error ToolResult
validate_tool_result request result = do
  raise_if (not (str_eq result.tool_id request.tool_id)) tool_mismatch
  raise_if (not (str_eq result.workflow_id request.workflow_id)) workflow_mismatch
  raise_if (not (str_eq result.invocation_id request.invocation_id)) invocation_mismatch
  raise_if (precedes result.completed_at request.requested_at) completed_before_requested
  ok result

-- `PMQATool`: what a tool declares, and what its `invoke` returns. It may raise.
pub record PmqaTool : Type 0 where
  pub metadata : ToolMetadata
  pub invoke : ToolRequest → Option ToolResult
