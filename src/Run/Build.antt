-- ===== src/Run/Build.antt =====
-- The constructors of the parts of pmqa/run/models.py.
use pmqa.Base.{Result, ok, ◌>>=◌, ◌>>◌, ℕ, Bool, Option, none, some, [], ◌∷◌}
use pmqa.Run.Identifiers.{Error, validate_identifiers, validate_optional, validate_run_identifier}
use pmqa.Run.Parts.{RunReference, StructuredResult, RunArtifact, RunError, OutcomeMetrics}
use pmqa.Run.Json.{safe_payload_mapping}
use pmqa.Run.Plain.{to_json}
use pmqa.Run.Texts.{bounded_text, validate_storage_key, validate_content_digest}
use pmqa.Run.Dumps.{
  dump_reference, dump_result, dump_artifact, dump_error, dump_metrics, check_tree,
}

unfoldable pub run_reference : RunReference → Result Error RunReference
run_reference r = do
  validate_identifiers (r.reference_type ∷ r.reference_id ∷ [])
  check_tree (dump_reference r)
  ok r

unfoldable pub structured_result : StructuredResult → Result Error StructuredResult
structured_result r = do
  validate_identifiers (r.schema_id ∷ r.result_schema_version ∷ [])
  data' ← safe_payload_mapping r.data_
  let frozen = record r { data_ = data' }
  check_tree (dump_result frozen)
  ok frozen

-- The validation of the fields of a dumped result.
unfoldable pub rebuild_result : StructuredResult → Result Error StructuredResult
unfolding structured_result
rebuild_result r = structured_result (record r { data_ = to_json r.data_ })

unfoldable pub run_artifact : RunArtifact → Result Error RunArtifact
run_artifact a = do
  validate_identifiers (a.artifact_id ∷ a.artifact_type ∷ a.artifact_schema_version ∷ [])
  validate_storage_key a.storage_key
  validate_content_digest a.content_digest
  check_tree (dump_artifact a)
  ok a

unfoldable pub run_error : (ℕ → Bool) → RunError → Result Error RunError
run_error printable e = do
  validate_run_identifier e.code
  bounded_text printable 1000 e.safe_message
  validate_optional e.step_id
  validate_optional e.error_type
  check_tree (dump_error e)
  ok e

unfoldable pub outcome_metrics : OutcomeMetrics → Result Error OutcomeMetrics
outcome_metrics m = do check_tree (dump_metrics m); ok m

-- A part that may be missing.
abbrev pub optionally {ℓ} : {A : Type ℓ} → (A → Result Error A) → Option A → Result Error (Option A)
optionally build none = ok none
optionally build (some value) = build value >>= λ built. ok (some built)
