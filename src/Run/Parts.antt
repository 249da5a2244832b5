-- ===== src/Run/Parts.antt =====
-- The parts of a run's record, of pmqa/run/models.py. Timestamps are microseconds from the start of
-- the year 1, in UTC.
use pmqa.Base.{ℕ, String, Bool, Option}
use native.Mathlib.Decide.{ℕ_discrete}
use pmqa.Values.{Value, String-discrete, Value-discrete}

pub record RunReference : Type 0 where
  pub reference_type : String
  pub reference_id : String

pub record StructuredResult : Type 0 where
  pub schema_id : String
  pub result_schema_version : String
  pub data_ : Value

pub record RunArtifact : Type 0 where
  pub artifact_id : String
  pub artifact_type : String
  pub artifact_schema_version : String
  pub storage_key : String
  pub content_digest : String
  pub created_at : ℕ

pub data RunErrorCategory : Type 0 where
  validation configuration execution timeout cancelled provider internal : RunErrorCategory

pub record RunError : Type 0 where
  pub code : String
  pub category : RunErrorCategory
  pub safe_message : String
  pub step_id : Option String
  pub retryable : Bool
  pub error_type : Option String

pub record OutcomeMetrics : Type 0 where
  pub tests_generated : Option ℕ
  pub tests_updated : Option ℕ
  pub tests_passed : Option ℕ
  pub tests_failed : Option ℕ
  pub files_changed : Option ℕ
  pub knowledge_items_created : Option ℕ
  pub knowledge_items_updated : Option ℕ
  pub coverage_suggestions_generated : Option ℕ
  pub human_review_required : Option Bool

pub RunReference-discrete : Discrete RunReference
RunReference-discrete = hlevel String-discrete

-- `==` of two results. Python's `==` also takes 1 and 1.0 or differently ordered dictionaries for
-- equal.
pub StructuredResult-discrete : Discrete StructuredResult
StructuredResult-discrete = hlevel (String-discrete, Value-discrete)

pub RunArtifact-discrete : Discrete RunArtifact
RunArtifact-discrete = hlevel (ℕ_discrete, String-discrete)

pub RunError-discrete : Discrete RunError
RunError-discrete = hlevel String-discrete
