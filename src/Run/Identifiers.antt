-- ===== src/Run/Identifiers.antt =====
-- `validate_run_identifier` of pmqa/run/models.py, by code points.
use pmqa.Base.{
  Result, ok, ◌>>◌, raise_if, ℕ, String, Bool, true, false, not, ◌&&◌, ◌||◌, Option, none, some,
  List, [], ◌∷◌, codes, leb, ◌==◌, if◌then◌else◌, length,
}
use pmqa.Security.{is_plain}

-- The exceptions of the validators, with a constructor for each test.
pub data Error : Type 0 where
  invalid_identifier attempt_below_one : Error
  completion_incomplete completion_mismatch completed_before_started : Error
  retry_of_itself fallback_from_itself first_with_predecessor later_without_predecessor : Error
  started_before_created updated_before_started completed_after_updated : Error
  step_while_not_running result_while_not_successful : Error
  duplicate_reference duplicate_artifact duplicate_invocation : Error
  -- the payloads
  payload_too_deep payload_too_large string_too_long non_finite_number runtime_object : Error
  non_string_key invalid_key prohibited_field not_an_object : Error
  -- the arrays, the texts and the canonical tree
  too_many_items unbounded_text invalid_storage_key invalid_digest : Error
  duplicate_capability duplicate_step : Error
  tree_exceeded not_canonical : Error
  -- the contracts of pmqa/runners/contracts.py
  timeout_out_of_range inconsistent_request requested_after_start not_pending : Error
  not_terminal success_with_errors partial_incomplete failure_with_result : Error
  cancellation_without_error duplicate_output : Error
  -- `ApplicationRunResult` of pmqa/application/contracts.py
  inconsistent_status inconsistent_result : Error
  -- the contracts of pmqa/usage/contracts.py
  invalid_decimal unbounded_decimal invalid_currency integer_out_of_range : Error
  too_many_absences duplicate_absence undeclared_absence : Error
  unavailable_with_counts available_without_counts : Error
  incomplete_pricing money_missing money_unavailable estimate_without_pricing : Error
  money_not_allowed unavailable_without_reason subscription_unavailable : Error
  late_pricing model_or_reason success_with_error error_missing : Error
  not_classified_cancelled classified_cancelled : Error
  -- `ModelPricing` of pmqa/usage/pricing.py
  late_start too_many_components duplicate_component undeclared_component : Error
  no_component reason_missing reason_without_absence : Error

-- `RUN_IDENTIFIER_MAX_LENGTH`
abbrev pub run_identifier_max_length : ℕ
run_identifier_max_length = 256

-- `[._:-]`
abbrev pub is_separator : ℕ → Bool
is_separator c = c == b'.' || c == b'_' || c == b':' || c == b'-'

-- `_IDENTIFIER_PATTERN.fullmatch`, from a place on: whether a segment has begun.
unfoldable pub identifier_matches : Bool → List ℕ → Bool
identifier_matches inside [] = inside
identifier_matches false (c ∷ cs) = let rest = identifier_matches true cs in is_plain c && rest
identifier_matches true (c ∷ cs) =
    let rest = identifier_matches true cs in
    let next = identifier_matches false cs in if is_separator c then next else is_plain c && rest

-- `".." in value`
unfoldable pub has_double_dot : List ℕ → Bool
has_double_dot [] = false
has_double_dot (c ∷ []) = false
has_double_dot (c ∷ d ∷ cs) = c == b'.' && d == b'.' || has_double_dot (d ∷ cs)

unfoldable pub is_run_identifier : List ℕ → Bool
unfolding identifier_matches has_double_dot
is_run_identifier value =
    leb (length value) run_identifier_max_length
    && identifier_matches false value
    && not (has_double_dot value)

unfoldable pub validate_run_identifier : String → Result Error (Unit {0})
unfolding is_run_identifier
validate_run_identifier value = raise_if (not (is_run_identifier (codes value))) invalid_identifier

abbrev pub validate_optional : Option String → Result Error (Unit {0})
validate_optional none = ok tt
validate_optional (some value) = validate_run_identifier value

unfoldable pub validate_identifiers : List String → Result Error (Unit {0})
validate_identifiers [] = ok tt
validate_identifiers (value ∷ rest) = validate_run_identifier value >> validate_identifiers rest
