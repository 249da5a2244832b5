-- ===== src/Run/Definitions.antt =====
-- `WorkflowPreviewStep` and `WorkflowDefinition` of pmqa/run/models.py.
use pmqa.Base.{
  Result, ok, collect, ◌>>=◌, ◌>>◌, raise_if, ℕ, String, Bool, Option, none, some, List, [], ◌∷◌,
  map, codes, if◌then◌else◌,
}
use pmqa.Values.{Value}
use pmqa.Workflow.ToolRegistry.{codes_leb}
use pmqa.Run.Identifiers.{
  Error, validate_identifiers, validate_run_identifier, duplicate_capability, duplicate_step,
}
use pmqa.Run.Texts.{check_array, bounded_text}
use pmqa.Run.Dumps.{object_of, version, array_of, optional, check_tree, from_dict}
use pmqa.Run.Records.{has_duplicate}

pub data ApprovalMode : Type 0 where
  none_ pre_run : ApprovalMode

pub record WorkflowPreviewStep : Type 0 where
  pub step_id : String
  pub display_name : String
  pub description : Option String

pub record WorkflowDefinition : Type 0 where
  pub workflow_id : String
  pub workflow_version : String
  pub display_name : String
  pub description : String
  pub input_schema_id : String
  pub input_schema_version : String
  pub result_schema_id : String
  pub result_schema_version : String
  pub preview_steps : List WorkflowPreviewStep
  pub required_runner_capabilities : List String
  pub approval_mode : ApprovalMode

unfoldable pub dump_step : WorkflowPreviewStep → Value
dump_step s = object_of (
    ("step_id", Value.text s.step_id)
    ∷ ("display_name", Value.text s.display_name)
    ∷ ("description", optional Value.text s.description)
    ∷ [])

abbrev pub approval_value : ApprovalMode → String
approval_value ApprovalMode.none_ = "none"
approval_value ApprovalMode.pre_run = "pre_run"

unfoldable pub dump_definition : WorkflowDefinition → Value
dump_definition d = object_of (
    version
    ∷ ("workflow_id", Value.text d.workflow_id)
    ∷ ("workflow_version", Value.text d.workflow_version)
    ∷ ("display_name", Value.text d.display_name)
    ∷ ("description", Value.text d.description)
    ∷ ("input_schema_id", Value.text d.input_schema_id)
    ∷ ("input_schema_version", Value.text d.input_schema_version)
    ∷ ("result_schema_id", Value.text d.result_schema_id)
    ∷ ("result_schema_version", Value.text d.result_schema_version)
    ∷ ("preview_steps", array_of dump_step d.preview_steps)
    ∷ ("required_runner_capabilities", array_of Value.text d.required_runner_capabilities)
    ∷ ("approval_mode", Value.text (approval_value d.approval_mode))
    ∷ [])

-- `sorted` of strings, by code points.
unfoldable pub insert_text : String → List String → List String
insert_text s [] = s ∷ []
insert_text s (t ∷ rest) =
    if codes_leb (codes s) (codes t) then s ∷ t ∷ rest else t ∷ insert_text s rest

unfoldable pub sort_texts : List String → List String
sort_texts [] = []
sort_texts (s ∷ rest) = insert_text s (sort_texts rest)

-- The capabilities of a definition or a runner.
unfoldable pub capabilities_of : List String → Result Error (List String)
capabilities_of values = do
  check_array values
  validate_identifiers values
  raise_if (has_duplicate values) duplicate_capability
  ok (sort_texts values)

abbrev pub optional_text : (ℕ → Bool) → ℕ → Option String → Result Error (Unit {0})
optional_text printable maximum none = ok tt
optional_text printable maximum (some value) = bounded_text printable maximum value

unfoldable pub workflow_preview_step :
    (ℕ → Bool) → WorkflowPreviewStep → Result Error WorkflowPreviewStep
workflow_preview_step printable s = do
  validate_run_identifier s.step_id
  bounded_text printable 160 s.display_name
  optional_text printable 2000 s.description
  check_tree (dump_step s)
  ok s

-- The constructor of the class.
unfoldable pub workflow_definition :
    (ℕ → Bool) → WorkflowDefinition → Result Error WorkflowDefinition
workflow_definition printable d = do
  validate_identifiers (d.workflow_id ∷ d.workflow_version ∷ [])
  bounded_text printable 160 d.display_name
  bounded_text printable 2000 d.description
  validate_identifiers (
      d.input_schema_id ∷ d.input_schema_version ∷ d.result_schema_id ∷ d.result_schema_version
      ∷ [])
  check_array d.preview_steps
  capabilities ← capabilities_of d.required_runner_capabilities
  check_tree (dump_definition (record d { required_runner_capabilities = capabilities }))
  raise_if (has_duplicate (map (λ step. step.step_id) d.preview_steps)) duplicate_step
  ok (record d { required_runner_capabilities = capabilities })

-- The validation of the fields of a dumped definition.
unfoldable pub rebuild_definition :
    (ℕ → Bool) → WorkflowDefinition → Result Error WorkflowDefinition
rebuild_definition printable d = do
  steps ← collect (workflow_preview_step printable) d.preview_steps
  workflow_definition printable (record d { preview_steps = steps })

-- `WorkflowDefinition.from_dict(definition.to_dict())`
unfoldable pub definition_snapshot :
    (ℕ → Bool) → WorkflowDefinition → Result Error WorkflowDefinition
definition_snapshot printable d =
    from_dict dump_definition (dump_definition d) (rebuild_definition printable d)
