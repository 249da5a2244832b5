-- ===== src/Run/Dumps.antt =====
-- `to_dict` of the parts of pmqa/run/models.py: the plain trees of `model_dump(mode="json")`.
use pmqa.Base.{
  Result, ok, err, ◌>>=◌, ◌>>◌, raise_if, ℕ, String, not, Option, none, some, List, [], ◌∷◌,
}
use pmqa.Values.{Key, Value, Items, Entries, pos}
use pmqa.Run.Identifiers.{Error, tree_exceeded, not_canonical}
use pmqa.Run.Parts.{
  RunReference, StructuredResult, RunArtifact, RunErrorCategory, RunError, OutcomeMetrics,
}
use pmqa.Run.Plain.{is_plain_json, plain_json_equal, to_json}
use pmqa.Run.Timestamps.{serialize_timestamp}

abbrev pub fields : List (String × Value) → Entries
fields [] = Entries.end
fields ((key, value) ∷ rest) = Entries.entry (Key.name key) value (fields rest)

abbrev pub object_of : List (String × Value) → Value
object_of entries = Value.dict (fields entries)

abbrev pub items_of {ℓ} : {A : Type ℓ} → (A → Value) → List A → Items
items_of dump [] = Items.nil
items_of dump (item ∷ rest) = Items.cons (dump item) (items_of dump rest)

abbrev pub array_of {ℓ} : {A : Type ℓ} → (A → Value) → List A → Value
array_of dump items = Value.list (items_of dump items)

abbrev pub optional {ℓ} : {A : Type ℓ} → (A → Value) → Option A → Value
optional dump none = Value.null
optional dump (some value) = dump value

abbrev pub number : ℕ → Value
number n = Value.int (pos n)

abbrev pub time_value : ℕ → Value
time_value instant = Value.text (serialize_timestamp instant)

abbrev pub version : String × Value
version = ("schema_version", Value.text "1")

unfoldable pub dump_reference : RunReference → Value
dump_reference r = object_of (
    ("reference_type", Value.text r.reference_type)
    ∷ ("reference_id", Value.text r.reference_id)
    ∷ [])

unfoldable pub dump_result : StructuredResult → Value
dump_result r = object_of (
    version
    ∷ ("schema_id", Value.text r.schema_id)
    ∷ ("result_schema_version", Value.text r.result_schema_version)
    ∷ ("data", to_json r.data_)
    ∷ [])

unfoldable pub dump_artifact : RunArtifact → Value
dump_artifact a = object_of (
    ("artifact_id", Value.text a.artifact_id)
    ∷ ("artifact_type", Value.text a.artifact_type)
    ∷ ("artifact_schema_version", Value.text a.artifact_schema_version)
    ∷ ("storage_key", Value.text a.storage_key)
    ∷ ("content_digest", Value.text a.content_digest)
    ∷ ("created_at", time_value a.created_at)
    ∷ [])

abbrev pub category_value : RunErrorCategory → String
category_value RunErrorCategory.validation = "validation"
category_value RunErrorCategory.configuration = "configuration"
category_value RunErrorCategory.execution = "execution"
category_value RunErrorCategory.timeout = "timeout"
category_value RunErrorCategory.cancelled = "cancelled"
category_value RunErrorCategory.provider = "provider"
category_value RunErrorCategory.internal = "internal"

unfoldable pub dump_error : RunError → Value
dump_error e = object_of (
    ("code", Value.text e.code)
    ∷ ("category", Value.text (category_value e.category))
    ∷ ("safe_message", Value.text e.safe_message)
    ∷ ("step_id", optional Value.text e.step_id)
    ∷ ("retryable", Value.bool e.retryable)
    ∷ ("error_type", optional Value.text e.error_type)
    ∷ [])

unfoldable pub dump_metrics : OutcomeMetrics → Value
dump_metrics m = object_of (
    ("tests_generated", optional number m.tests_generated)
    ∷ ("tests_updated", optional number m.tests_updated)
    ∷ ("tests_passed", optional number m.tests_passed)
    ∷ ("tests_failed", optional number m.tests_failed)
    ∷ ("files_changed", optional number m.files_changed)
    ∷ ("knowledge_items_created", optional number m.knowledge_items_created)
    ∷ ("knowledge_items_updated", optional number m.knowledge_items_updated)
    ∷ ("coverage_suggestions_generated", optional number m.coverage_suggestions_generated)
    ∷ ("human_review_required", optional Value.bool m.human_review_required)
    ∷ [])

-- `_RunContract.validate_canonical_tree`
unfoldable pub check_tree : Value → Result Error (Unit {0})
check_tree tree = raise_if (not (is_plain_json tree)) tree_exceeded

-- The only exception of `from_dict`.
abbrev pub or_not_canonical {ℓ} : {A : Type ℓ} → Result Error A → Result Error A
or_not_canonical (ok a) = ok a
or_not_canonical (err e) = err not_canonical

-- `from_dict` of a tree that a contract has dumped, given what the validation of its fields builds.
unfoldable pub from_dict {ℓ} : {A : Type ℓ} → (A → Value) → Value → Result Error A → Result Error A
from_dict dump submitted built = do
  raise_if (not (is_plain_json submitted)) not_canonical
  value ← or_not_canonical built
  raise_if (not (plain_json_equal submitted (dump value))) not_canonical
  ok value
