-- ===== src/Runtime/Dispatch.antt =====
-- What comes back from a tool.
use pmqa.Base.{
  Result, ok, raise_if, >>=-eq-ok, raise_if-eq-ok, ◌≤◌, String, ◌≡◌, refl, sym, ap, ◌∙◌, inl, inr,
  Bool, true, false, not, Option, none, some, List, [], ◌∷◌, arith, str_eq, eq_iff, ltb, ltb-false,
  Bool-cases,
}
use mathlib.Core.Path.{subst}
use mathlib.Core.List.{Mem, mem-cons_self, mem-cons_of_mem}
use pmqa.Base.{Option, none, some, Bool-cases, inl, inr, ◌∷◌, []}
use pmqa.Workflow.ToolRegistry.{find_tool, or_unregistered}
use pmqa.Workflow.Errors.{category_mismatch}
use pmqa.Workflow.Errors.{Error}
use pmqa.Workflow.ToolIds.{ToolCategory}
use pmqa.Workflow.Tools.{
  ToolRequest, ToolResult, PmqaTool, revalidate_tool_result, validate_tool_result,
}
use pmqa.Workflow.ToolRegistry.{get_tool}
use pmqa.Runtime.Reports.{IsSealed, Reports, revalidate_tool_result-Reports}
use pmqa.Runtime.{invoke_tool, category_eq, tool_invoked}

-- A result answers a request.
pub record Answers (request : ToolRequest) (result : ToolResult) : Type 0 where
  pub tool_id : result.tool_id ≡ request.tool_id
  pub workflow_id : result.workflow_id ≡ request.workflow_id
  pub invocation_id : result.invocation_id ≡ request.invocation_id
  pub order : request.requested_at.instant ≤ result.completed_at.instant

not-false : (b : Bool) → not b ≡ false → b ≡ true
not-false true h = refl
not-false false h = cc

str_of : (a b : String) → not (str_eq a b) ≡ false → a ≡ b
str_of a b h = (eq_iff a b).0 (not-false (str_eq a b) h)

same_result : (a b : ToolResult) → ◌≡◌ {A = Result Error ToolResult} (ok a) (ok b) → a ≡ b
same_result a b h = cc

validate_tool_result-Answers :
    (request : ToolRequest) (raw result : ToolResult)
    → validate_tool_result request raw ≡ ok result
    → (result ≡ raw) × Answers request raw
unfolding validate_tool_result
validate_tool_result-Answers request raw result h =
    let (_, a, h1) = >>=-eq-ok (raise_if (not (str_eq raw.tool_id request.tool_id)) _) _ h in
    let (_, b, h2) =
      >>=-eq-ok (raise_if (not (str_eq raw.workflow_id request.workflow_id)) _) _ h1 in
    let (_, c, h3) =
      >>=-eq-ok (raise_if (not (str_eq raw.invocation_id request.invocation_id)) _) _ h2 in
    let (_, d, h4) =
      >>=-eq-ok (raise_if (ltb raw.completed_at.instant request.requested_at.instant) _) _ h3 in
    (
      sym (same_result _ _ h4),
      record {
        tool_id = str_of _ _ (raise_if-eq-ok _ _ a);
        workflow_id = str_of _ _ (raise_if-eq-ok _ _ b);
        invocation_id = str_of _ _ (raise_if-eq-ok _ _ c);
        order = ltb-false _ _ (raise_if-eq-ok _ _ d);
      },
    )

-- A tool that is found is one of the tools, and has the identifier.
find_tool-Mem :
    (id : String) (tools : List PmqaTool) (tool : PmqaTool)
    → find_tool id tools ≡ some tool
    → Mem tool tools × (tool.metadata.tool_id ≡ id)
unfolding find_tool
find_tool-Mem id [] tool h = cc
find_tool-Mem id (first ∷ rest) tool h = elim (Bool-cases (str_eq first.metadata.tool_id id)) [
  | inl e ↦
      let same : first ≡ tool = cc (rw e at h) in
      subst (λ t. Mem t (first ∷ rest) × (t.metadata.tool_id ≡ id)) same
        (mem-cons_self, (eq_iff first.metadata.tool_id id).0 e)
  | inr e ↦
      let (within, named) = find_tool-Mem id rest tool (rw e at h) in
      (mem-cons_of_mem first within, named)
]

get_tool-Mem :
    (id : String) (tools : List PmqaTool) (tool : PmqaTool)
    → get_tool tools id ≡ ok tool
    → Mem tool tools × (tool.metadata.tool_id ≡ id)
unfolding get_tool
get_tool-Mem id tools tool h = find_tool-Mem id tools tool (registered_of (find_tool id tools) h)
  where
    registered_of : (o : Option PmqaTool) → or_unregistered o ≡ ok tool → o ≡ some tool
    registered_of none k = cc
    registered_of (some t) k = cc

tool_invoked-eq-ok : (o : Option ToolResult) {r : ToolResult} → tool_invoked o ≡ ok r → o ≡ some r
tool_invoked-eq-ok none h = cc
tool_invoked-eq-ok (some r) h = cc

category_of : (a b : ToolCategory) → category_eq a b ≡ true → a ≡ b
category_of ToolCategory.playwright b h = ground arith
category_of ToolCategory.reasoning b h = ground arith
category_of ToolCategory.product_memory b h = ground arith
category_of ToolCategory.filesystem b h = ground arith
category_of ToolCategory.validation b h = ground arith
category_of ToolCategory.utility b h = ground arith

-- What a result of an invocation comes from: a tool of the registry that has the requested
-- identifier and category, and what that tool returned for the request.
pub record IsInvoked (registry : List PmqaTool) (request : ToolRequest) (result : ToolResult)
    : Type 0 where
  pub tool : PmqaTool
  pub is_registered : Mem tool registry
  pub tool_id : tool.metadata.tool_id ≡ request.tool_id
  pub category : tool.metadata.category ≡ request.category
  pub raw : ToolResult
  pub returned : tool.invoke request ≡ some raw
  pub reports : Reports raw result
  pub answers : Answers request result
  pub sealed : IsSealed result

-- The result of a successful tool invocation comes from a tool of the registry that has the
-- requested identifier and category: the tool was invoked with the request and returned a result
-- whose time, status, artifacts, warnings and errors are the same and whose output and summary are
-- frozen. Whatever the tool returned, the result answers the request, by its identifiers and its
-- time, and its payloads are valid and frozen.
pub invoke_tool-Answers :
    (registry : List PmqaTool) (request : ToolRequest) (result : ToolResult)
    → invoke_tool registry request ≡ ok result
    → IsInvoked registry request result
unfolding invoke_tool
invoke_tool-Answers registry request result h =
    let (tool, found, h1) = >>=-eq-ok (get_tool registry request.tool_id) _ h in
    let (_, same, h2) =
      >>=-eq-ok
        (raise_if (not (category_eq tool.metadata.category request.category)) category_mismatch) _
        h1 in
    let (raw, invoked, h3) = >>=-eq-ok (tool_invoked (tool.invoke request)) _ h2 in
    let (checked, read, h4) = >>=-eq-ok (revalidate_tool_result raw) _ h3 in
    let (eq, answers) = validate_tool_result-Answers request checked result h4 in
    let (within, named) = get_tool-Mem request.tool_id registry tool found in
    let (sealed, reports) = revalidate_tool_result-Reports raw result (read ∙ ap ok (sym eq)) in
    record {
      tool = tool;
      is_registered = within;
      tool_id = named;
      category = category_of _ _ (not-false _ (raise_if-eq-ok _ _ same));
      raw = raw;
      returned = tool_invoked-eq-ok _ invoked;
      reports = reports;
      answers = subst (Answers request) (sym eq) answers;
      sealed = sealed;
    }
