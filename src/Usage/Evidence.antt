-- ===== src/Usage/Evidence.antt =====
-- `TokenUsageEvidence` of pmqa/usage/contracts.py.
use pmqa.Usage.Ranks.{has_rank, has_repeated, sort_by}
use pmqa.Base.{
  collect, Result, ok, ◌>>=◌, ◌>>◌, raise_if, ℕ, String, Bool, true, false, not, ◌&&◌, Option, none,
  some, List, [], ◌∷◌, ltb, if◌then◌else◌, is_some, length,
}
use pmqa.Base.{
  collect, Result, ok, ◌>>=◌, ◌>>◌, raise_if, ℕ, String, Bool, true, false, not, ◌&&◌, Option, none,
  some, List, [], ◌∷◌, ltb, if◌then◌else◌, is_some, length,
}
use pmqa.Values.{Value}
use pmqa.Workflow.Models.{differs}
use pmqa.Run.Identifiers.{
  Error, integer_out_of_range, too_many_absences, duplicate_absence, undeclared_absence,
  unavailable_with_counts, available_without_counts,
}
use pmqa.Run.Dumps.{object_of, version, optional, number, array_of, check_tree, from_dict}

pub data UsageSource : Type 0 where
  provider_reported parsed_from_cli estimated unavailable : UsageSource

pub data CostType : Type 0 where
  provider_reported estimated subscription_included unavailable : CostType

pub data EvidenceUnavailableReason : Type 0 where
  not_reported not_supported parsing_failed not_collected : EvidenceUnavailableReason

pub data TokenField : Type 0 where
  input_tokens output_tokens cached_input_tokens total_tokens : TokenField

pub record TokenFieldAbsence : Type 0 where
  pub field : TokenField
  pub reason : EvidenceUnavailableReason

-- `MAX_USAGE_INTEGER`
abbrev pub max_usage_integer : ℕ
max_usage_integer = 9223372036854775807

-- The order of the values of the fields.
abbrev pub rank : TokenField → ℕ
rank TokenField.cached_input_tokens = 0
rank TokenField.input_tokens = 1
rank TokenField.output_tokens = 2
rank TokenField.total_tokens = 3

-- Some absence is of the field.
unfoldable pub declares : TokenField → List TokenFieldAbsence → Bool
unfolding has_rank
declares field absences = has_rank (λ a. rank a.field) (rank field) absences

pub record TokenUsageEvidence : Type 0 where
  pub source : UsageSource
  pub input_tokens : Option ℕ
  pub output_tokens : Option ℕ
  pub cached_input_tokens : Option ℕ
  pub total_tokens : Option ℕ
  pub unavailable_fields : List TokenFieldAbsence

-- `getattr(self, field_name)`
abbrev pub tokens_of : TokenField → TokenUsageEvidence → Option ℕ
tokens_of TokenField.input_tokens u = u.input_tokens
tokens_of TokenField.output_tokens u = u.output_tokens
tokens_of TokenField.cached_input_tokens u = u.cached_input_tokens
tokens_of TokenField.total_tokens u = u.total_tokens

abbrev pub is_missing : TokenField → TokenUsageEvidence → Bool
is_missing field u = not (is_some (tokens_of field u))

-- The field is missing exactly if its absence is declared.
abbrev pub is_accounted : TokenField → TokenUsageEvidence → Bool
is_accounted field u = not (differs (is_missing field u) (declares field u.unavailable_fields))

-- `actual_missing == declared_missing`
unfoldable pub is_declared : TokenUsageEvidence → Bool
unfolding declares
is_declared u =
    is_accounted TokenField.input_tokens u
    && is_accounted TokenField.output_tokens u
    && is_accounted TokenField.cached_input_tokens u
    && is_accounted TokenField.total_tokens u

-- Every field is missing.
unfoldable pub is_all_missing : TokenUsageEvidence → Bool
is_all_missing u =
    is_missing TokenField.input_tokens u
    && is_missing TokenField.output_tokens u
    && is_missing TokenField.cached_input_tokens u
    && is_missing TokenField.total_tokens u

abbrev pub is_unavailable_source : UsageSource → Bool
is_unavailable_source UsageSource.unavailable = true
is_unavailable_source _ = false

-- `validate_evidence`
unfoldable pub check_usage : TokenUsageEvidence → Result Error (Unit {0})
unfolding is_declared is_all_missing
check_usage u = do
  raise_if (not (is_declared u)) undeclared_absence
  if is_unavailable_source u.source
      then raise_if (not (is_all_missing u)) unavailable_with_counts
      else raise_if (is_all_missing u) available_without_counts

-- `Field(ge=0, le=MAX_USAGE_INTEGER)` of a field that may be missing.
abbrev pub check_usage_integer : Option ℕ → Result Error (Unit {0})
check_usage_integer none = ok tt
check_usage_integer (some n) = raise_if (ltb max_usage_integer n) integer_out_of_range

abbrev pub source_value : UsageSource → String
source_value UsageSource.provider_reported = "provider_reported"
source_value UsageSource.parsed_from_cli = "parsed_from_cli"
source_value UsageSource.estimated = "estimated"
source_value UsageSource.unavailable = "unavailable"

abbrev pub field_value : TokenField → String
field_value TokenField.input_tokens = "input_tokens"
field_value TokenField.output_tokens = "output_tokens"
field_value TokenField.cached_input_tokens = "cached_input_tokens"
field_value TokenField.total_tokens = "total_tokens"

abbrev pub reason_value : EvidenceUnavailableReason → String
reason_value EvidenceUnavailableReason.not_reported = "not_reported"
reason_value EvidenceUnavailableReason.not_supported = "not_supported"
reason_value EvidenceUnavailableReason.parsing_failed = "parsing_failed"
reason_value EvidenceUnavailableReason.not_collected = "not_collected"

unfoldable pub dump_absence : TokenFieldAbsence → Value
dump_absence a = object_of (
    ("field", Value.text (field_value a.field))
    ∷ ("reason", Value.text (reason_value a.reason))
    ∷ [])

unfoldable pub token_field_absence : TokenFieldAbsence → Result Error TokenFieldAbsence
unfolding dump_absence
token_field_absence a = do check_tree (dump_absence a); ok a

unfoldable pub dump_usage : TokenUsageEvidence → Value
unfolding dump_absence
dump_usage u = object_of (
    version
    ∷ ("source", Value.text (source_value u.source))
    ∷ ("input_tokens", optional number u.input_tokens)
    ∷ ("output_tokens", optional number u.output_tokens)
    ∷ ("cached_input_tokens", optional number u.cached_input_tokens)
    ∷ ("total_tokens", optional number u.total_tokens)
    ∷ ("unavailable_fields", array_of dump_absence u.unavailable_fields)
    ∷ [])

-- The constructor of the class.
unfoldable pub token_usage_evidence : TokenUsageEvidence → Result Error TokenUsageEvidence
unfolding check_usage has_repeated sort_by dump_usage token_field_absence
token_usage_evidence u = do
  check_usage_integer u.input_tokens
  check_usage_integer u.output_tokens
  check_usage_integer u.cached_input_tokens
  check_usage_integer u.total_tokens
  raise_if (ltb 4 (length u.unavailable_fields)) too_many_absences
  raise_if (has_repeated (λ a. rank a.field) u.unavailable_fields) duplicate_absence
  snapshots ←
      collect (λ a. from_dict dump_absence (dump_absence a) (token_field_absence a))
        u.unavailable_fields
  let kept = record u { unavailable_fields = sort_by (λ a. rank a.field) snapshots }
  check_tree (dump_usage kept)
  check_usage kept
  ok kept
