-- ===== src/Run/Requests.antt =====
-- `RunRequest` and `PMQARunContext` of pmqa/run/models.py.
use pmqa.Base.{Result, ok, collect, ◌>>=◌, ◌>>◌, raise_if, ℕ, String, List, [], ◌∷◌}
use pmqa.Values.{Value}
use pmqa.Run.Identifiers.{Error, validate_identifiers, duplicate_reference}
use pmqa.Run.Parts.{RunReference}
use pmqa.Run.Texts.{check_array}
use pmqa.Run.Json.{safe_payload_mapping}
use pmqa.Run.Plain.{to_json}
use pmqa.Run.Dumps.{object_of, version, array_of, time_value, dump_reference, check_tree, from_dict}
use pmqa.Run.Build.{run_reference}
use pmqa.Run.Records.{has_duplicate_reference}

pub record RunRequest : Type 0 where
  pub request_id : String
  pub session_id : String
  pub workflow_id : String
  pub workflow_version : String
  pub runner_id : String
  pub input_schema_id : String
  pub input_schema_version : String
  pub inputs : Value
  pub references : List RunReference
  pub requested_at : ℕ

unfoldable pub dump_request : RunRequest → Value
dump_request r = object_of (
    version
    ∷ ("request_id", Value.text r.request_id)
    ∷ ("session_id", Value.text r.session_id)
    ∷ ("workflow_id", Value.text r.workflow_id)
    ∷ ("workflow_version", Value.text r.workflow_version)
    ∷ ("runner_id", Value.text r.runner_id)
    ∷ ("input_schema_id", Value.text r.input_schema_id)
    ∷ ("input_schema_version", Value.text r.input_schema_version)
    ∷ ("inputs", to_json r.inputs)
    ∷ ("references", array_of dump_reference r.references)
    ∷ ("requested_at", time_value r.requested_at)
    ∷ [])

-- The constructor of the class.
unfoldable pub run_request : RunRequest → Result Error RunRequest
run_request r = do
  validate_identifiers (
      r.request_id ∷ r.session_id ∷ r.workflow_id ∷ r.workflow_version ∷ r.runner_id
      ∷ r.input_schema_id ∷ r.input_schema_version ∷ [])
  inputs ← safe_payload_mapping r.inputs
  check_array r.references
  check_tree (dump_request (record r { inputs = inputs }))
  raise_if (has_duplicate_reference r.references) duplicate_reference
  ok (record r { inputs = inputs })

-- The validation of the fields of a dumped request.
unfoldable pub rebuild_request : RunRequest → Result Error RunRequest
unfolding run_request
rebuild_request r = do
  references ← collect run_reference r.references
  run_request (record r { inputs = to_json r.inputs; references = references })

-- `RunRequest.from_dict(request.to_dict())`
unfoldable pub request_snapshot : RunRequest → Result Error RunRequest
unfolding rebuild_request
request_snapshot r = from_dict dump_request (dump_request r) (rebuild_request r)

-- `PMQARunContext`
pub record PmqaRunContext : Type 0 where
  pub run_id : String
  pub request_id : String
  pub session_id : String
  pub workflow_id : String
  pub workflow_version : String
  pub runner_id : String
  pub references : List RunReference
  pub started_at : ℕ

unfoldable pub dump_context : PmqaRunContext → Value
dump_context c = object_of (
    version
    ∷ ("run_id", Value.text c.run_id)
    ∷ ("request_id", Value.text c.request_id)
    ∷ ("session_id", Value.text c.session_id)
    ∷ ("workflow_id", Value.text c.workflow_id)
    ∷ ("workflow_version", Value.text c.workflow_version)
    ∷ ("runner_id", Value.text c.runner_id)
    ∷ ("references", array_of dump_reference c.references)
    ∷ ("started_at", time_value c.started_at)
    ∷ [])

-- The constructor of the class.
unfoldable pub pmqa_run_context : PmqaRunContext → Result Error PmqaRunContext
pmqa_run_context c = do
  validate_identifiers (
      c.run_id ∷ c.request_id ∷ c.session_id ∷ c.workflow_id ∷ c.workflow_version ∷ c.runner_id
      ∷ [])
  check_array c.references
  check_tree (dump_context c)
  raise_if (has_duplicate_reference c.references) duplicate_reference
  ok c

-- The validation of the fields of a dumped context.
unfoldable pub rebuild_context : PmqaRunContext → Result Error PmqaRunContext
unfolding pmqa_run_context
rebuild_context c = do
  references ← collect run_reference c.references
  pmqa_run_context (record c { references = references })
