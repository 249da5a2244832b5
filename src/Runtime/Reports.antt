-- ===== src/Runtime/Reports.antt =====
-- What is read back of a result that a tool has returned.
use pmqa.Base.{ok, raise_if, >>=-eq-ok, ok-inj, ◌≡◌, refl, sym, ◌∙◌, not, ◌&&◌, ◌||◌, List, [], ◌∷◌}
use pmqa.Values.{is_mapping}
use mathlib.Core.Path.{subst}
use pmqa.Base.{ok-inj, ◌∷◌, []}
use pmqa.Workflow.Tools.{ArtifactReference, ToolError, artifact_reference, tool_error}
use pmqa.Workflow.Models.{is_empty, require_aware}
use pmqa.Workflow.ToolIds.{validate_tool_id}
use pmqa.Workflow.Errors.{empty_text, not_a_mapping}
use pmqa.Workflow.Tools.{
  ToolResult, revalidate_tool_result, tool_result, artifact_references, tool_errors,
}
use pmqa.Workflow.Payload.{freeze, validate_payload}
use pmqa.Workflow.Payload.Frozen.{freeze_idem, validate_payload-freeze}

-- The payloads of a result are safe and frozen.
abbrev pub IsSealed : ToolResult → Type 0
IsSealed r =
    (validate_payload r.output ≡ ok tt)
    × (validate_payload r.summary ≡ ok tt)
    × (freeze r.output ≡ r.output)
    × (freeze r.summary ≡ r.summary)

-- What is read back of a result that a tool has returned.
pub record Reports (raw result : ToolResult) : Type 0 where
  pub completed_at : result.completed_at ≡ raw.completed_at
  pub status : result.status ≡ raw.status
  pub output : result.output ≡ freeze raw.output
  pub summary : result.summary ≡ freeze raw.summary
  pub artifacts : result.artifacts ≡ raw.artifacts
  pub warnings : result.warnings ≡ raw.warnings
  pub errors : result.errors ≡ raw.errors

-- What the constructor leaves of its arguments.
tool_result-Reports :
    (raw result : ToolResult) → tool_result raw ≡ ok result → IsSealed result × Reports raw result
unfolding tool_result
tool_result-Reports raw result h =
    let (_, _, h1) = >>=-eq-ok (raise_if (is_empty raw.tool_id) empty_text) _ h in
    let (_, _, h2) = >>=-eq-ok (validate_tool_id raw.tool_id) _ h1 in
    let (_, _, h3) =
      >>=-eq-ok (raise_if (is_empty raw.workflow_id || is_empty raw.invocation_id) empty_text) _
        h2 in
    let (_, _, h4) =
      >>=-eq-ok (raise_if (not (is_mapping raw.output && is_mapping raw.summary)) not_a_mapping) _
        h3 in
    let (_, _, h5) = >>=-eq-ok (require_aware raw.completed_at) _ h4 in
    let (_, a, h6) = >>=-eq-ok (validate_payload raw.output) _ h5 in
    let (_, b, h7) = >>=-eq-ok (validate_payload raw.summary) _ h6 in
    subst (λ r. IsSealed r × Reports raw r) (sym (ok-inj h7))
      (
        (
          validate_payload-freeze raw.output ∙ a,
          validate_payload-freeze raw.summary ∙ b,
          freeze_idem raw.output,
          freeze_idem raw.summary,
        ),
        record {
          completed_at = refl;
          status = refl;
          output = refl;
          summary = refl;
          artifacts = refl;
          warnings = refl;
          errors = refl;
        },
      )

same_artifact : (a b : ArtifactReference) → artifact_reference a ≡ ok b → b ≡ a
unfolding artifact_reference
same_artifact a b h =
    let (_, _, h1) =
      >>=-eq-ok
        (raise_if
          (is_empty a.artifact_id
            || is_empty a.artifact_type
            || is_empty a.content_type
            || is_empty a.location)
          empty_text)
        _ h in
    let (_, _, h2) = >>=-eq-ok (require_aware a.created_at) _ h1 in ok-inj h2

same_artifacts :
    (given kept : List ArtifactReference) → artifact_references given ≡ ok kept → kept ≡ given
unfolding artifact_references
same_artifacts [] kept h = ok-inj h
same_artifacts (a ∷ given) kept h =
    let (b, first, h1) = >>=-eq-ok (artifact_reference a) _ h in
    let (rest, after, h2) = >>=-eq-ok (artifact_references given) _ h1 in
    ok-inj h2 ∙ cc (same_artifact a b first, same_artifacts given rest after)

same_error : (a b : ToolError) → tool_error a ≡ ok b → b ≡ a
unfolding tool_error
same_error a b h =
    let (_, _, h1) = >>=-eq-ok (raise_if (is_empty a.code || is_empty a.message) empty_text) _ h in
    ok-inj h1

same_errors : (given kept : List ToolError) → tool_errors given ≡ ok kept → kept ≡ given
unfolding tool_errors
same_errors [] kept h = ok-inj h
same_errors (a ∷ given) kept h =
    let (b, first, h1) = >>=-eq-ok (tool_error a) _ h in
    let (rest, after, h2) = >>=-eq-ok (tool_errors given) _ h1 in
    ok-inj h2 ∙ cc (same_error a b first, same_errors given rest after)

pub revalidate_tool_result-Reports :
    (raw result : ToolResult)
    → revalidate_tool_result raw ≡ ok result
    → IsSealed result × Reports raw result
unfolding revalidate_tool_result
revalidate_tool_result-Reports raw result h =
    let (artifacts, kept, h1) = >>=-eq-ok (artifact_references raw.artifacts) _ h in
    let (errors, listed, h2) = >>=-eq-ok (tool_errors raw.errors) _ h1 in
    let (sealed, reports) =
      tool_result-Reports (record raw { artifacts = artifacts; errors = errors }) result h2 in
    (
      sealed,
      record {
        completed_at = reports.completed_at;
        status = reports.status;
        output = reports.output;
        summary = reports.summary;
        artifacts = reports.artifacts ∙ same_artifacts raw.artifacts artifacts kept;
        warnings = reports.warnings;
        errors = reports.errors ∙ same_errors raw.errors errors listed;
      },
    )
