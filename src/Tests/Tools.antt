-- ===== src/Tests/Tools.antt =====
-- A tool, its registry and an invocation of it.
use pmqa.Base.{ok, String, ◌≡◌, refl, true, ◌&&◌, some, List, [], ◌∷◌, codes, All}
use pmqa.Tests.Samples.{time, page_evidence}
use pmqa.Security.{
  is_plain, casefold_char, casefold, sub_runs, strip_left, strip_right, normalize_boundary_key,
  in_policy, is_prohibited_key,
}
use pmqa.Values.{Value, Entries, is_mapping, is_string_keyed}
use pmqa.Workflow.Payload.{check_entry, validate_payload, freeze}
use pmqa.Workflow.Models.{AgentRole, require_aware}
use pmqa.Workflow.ToolIds.{ToolCategory, is_tool_id, matches, validate_tool_id}
use pmqa.Workflow.ToolIds.Segments.{segments, all_segments, is_dotted, is_tool_id-segments}
use pmqa.Workflow.Tools.{
  ToolRequest, ToolResult, ToolExecutionStatus, PmqaTool, tool_result, revalidate_tool_result,
  validate_tool_result, artifact_references, tool_errors,
}
use pmqa.Workflow.ToolRegistry.{
  codes_leb, find_tool, insert_tool, sort_tools, register, tool_registry, get_tool,
}
use pmqa.Workflow.ToolRegistry.Order.{IsSorted, tool_registry-IsSorted}
use pmqa.Workflow.ToolRegistry.Lookup.{get_tool-tool_registry}
use pmqa.Runtime.{invoke_tool}
use pmqa.Runtime.Dispatch.{IsInvoked, invoke_tool-Answers}

-- A tool that answers every request with the same payload.
abbrev tool_with : String → ToolCategory → PmqaTool
tool_with tool_id category = record {
  metadata = record {
    tool_id = tool_id;
    category = category;
    description = "opens a page";
    input_schema_version = "1";
    output_schema_version = "1";
  };
  invoke = λ request. some (record {
    tool_id = request.tool_id;
    workflow_id = request.workflow_id;
    invocation_id = request.invocation_id;
    completed_at = request.requested_at;
    status = ToolExecutionStatus.succeeded;
    output = page_evidence;
    summary = Value.frozen Entries.end;
    artifacts = [];
    warnings = [];
    errors = [];
  });
}

abbrev open_page : PmqaTool
open_page = tool_with "playwright.open" ToolCategory.playwright

abbrev check_page : PmqaTool
check_page = tool_with "memory.check" ToolCategory.product_memory

abbrev tools : List PmqaTool
tools = open_page ∷ check_page ∷ []

tools-sorted : tool_registry tools ≡ ok (check_page ∷ open_page ∷ [])
unfolding tool_registry register sort_tools insert_tool codes_leb find_tool
tools-sorted = refl

get_tool-tool_registry_example :
    All (λ t. get_tool (check_page ∷ open_page ∷ []) t.metadata.tool_id ≡ ok t) tools
    × ((id : String) → get_tool (check_page ∷ open_page ∷ []) id ≡ get_tool tools id)
get_tool-tool_registry_example =
    get_tool-tool_registry tools (check_page ∷ open_page ∷ []) tools-sorted

tool_registry-IsSorted_example : IsSorted (check_page ∷ open_page ∷ [])
tool_registry-IsSorted_example =
    tool_registry-IsSorted tools (check_page ∷ open_page ∷ []) tools-sorted

open_accepted : is_tool_id (codes "playwright.open") ≡ true
unfolding is_tool_id matches
open_accepted = refl

is_tool_id-segments_example : is_tool_id (codes "playwright.open") ≡ (
    all_segments (segments (codes "playwright.open"))
    && is_dotted (segments (codes "playwright.open")))
is_tool_id-segments_example = is_tool_id-segments (codes "playwright.open")

abbrev open_request : ToolRequest
open_request = record {
  tool_id = "playwright.open";
  category = ToolCategory.playwright;
  workflow_id = "w1";
  invocation_id = "w1:1:explorer";
  requested_by_agent = AgentRole.explorer;
  requested_at = time 14;
  input = Value.frozen Entries.end;
}

abbrev open_result : ToolResult
open_result = record {
  tool_id = "playwright.open";
  workflow_id = "w1";
  invocation_id = "w1:1:explorer";
  completed_at = time 14;
  status = ToolExecutionStatus.succeeded;
  output = page_evidence;
  summary = Value.frozen Entries.end;
  artifacts = [];
  warnings = [];
  errors = [];
}

page_opened : invoke_tool (check_page ∷ open_page ∷ []) open_request ≡ ok open_result
unfolding invoke_tool get_tool find_tool revalidate_tool_result artifact_references tool_errors
    tool_result validate_tool_result validate_tool_id is_tool_id matches require_aware is_mapping
    is_string_keyed validate_payload check_entry freeze is_prohibited_key is_plain casefold_char
    casefold sub_runs strip_left strip_right normalize_boundary_key in_policy
page_opened = refl

invoke_tool-Answers_example : IsInvoked (check_page ∷ open_page ∷ []) open_request open_result
invoke_tool-Answers_example =
    invoke_tool-Answers (check_page ∷ open_page ∷ []) open_request open_result page_opened
