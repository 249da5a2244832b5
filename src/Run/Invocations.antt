-- ===== src/Run/Invocations.antt =====
-- `RunnerInvocationRecord` of pmqa/run/models.py. The timestamps are canonical, which makes them
-- aware, and are the microseconds from the start of the year 1.
use pmqa.Base.{
  collect, Result, ok, ◌>>=◌, ◌>>◌, raise_if, ℕ, ◌+◌, String, Bool, true, false, not, ◌&&◌, Option,
  none, some, List, [], ◌∷◌, str_eq, ltb, ◌==◌, is_some,
}
use pmqa.Values.{Value}
use pmqa.Run.Parts.{RunError}
use pmqa.Run.Texts.{check_array}
use pmqa.Run.Dumps.{
  object_of, version, optional, number, time_value, array_of, dump_error, check_tree,
}
use pmqa.Run.Build.{run_error}
use pmqa.Run.Identifiers.{
  Error, validate_identifiers, validate_optional, attempt_below_one, completion_incomplete,
  completion_mismatch, completed_before_started, retry_of_itself, fallback_from_itself,
  first_with_predecessor, later_without_predecessor,
}
use pmqa.Workflow.Models.{differs}

pub data RunnerInvocationStatus : Type 0 where
  pending running succeeded partially_succeeded failed cancelled : RunnerInvocationStatus

-- `_TERMINAL_INVOCATION_STATUSES`
abbrev pub is_terminal_invocation : RunnerInvocationStatus → Bool
is_terminal_invocation RunnerInvocationStatus.pending = false
is_terminal_invocation RunnerInvocationStatus.running = false
is_terminal_invocation _ = true

pub record RunnerInvocationRecord : Type 0 where
  pub invocation_id : String
  pub run_id : String
  pub runner_id : String
  pub operation : String
  pub step_id : Option String
  pub status : RunnerInvocationStatus
  pub started_at : ℕ
  pub completed_at : Option ℕ
  pub duration_ms : Option ℕ
  pub attempt_number : ℕ
  pub retry_of_invocation_id : Option String
  pub fallback_from_invocation_id : Option String
  pub errors : List RunError

abbrev pub is_before : Option ℕ → ℕ → Bool
is_before none b = false
is_before (some a) b = ltb a b

-- `a == b`, where `a` may be missing.
abbrev pub is_text : Option String → String → Bool
is_text none b = false
is_text (some a) b = str_eq a b

abbrev pub count : Bool → ℕ
count true = 1
count false = 0

abbrev pub predecessor_count : RunnerInvocationRecord → ℕ
predecessor_count r =
    count (is_some r.retry_of_invocation_id) + count (is_some r.fallback_from_invocation_id)

-- The constraints of the fields and their validators.
unfoldable pub check_invocation_fields : RunnerInvocationRecord → Result Error (Unit {0})
check_invocation_fields r = do
  validate_identifiers (r.invocation_id ∷ r.run_id ∷ r.runner_id ∷ r.operation ∷ [])
  validate_optional r.step_id
  raise_if (r.attempt_number == 0) attempt_below_one
  validate_optional r.retry_of_invocation_id
  validate_optional r.fallback_from_invocation_id
  check_array r.errors

-- `validate_contract`
unfoldable pub check_invocation : RunnerInvocationRecord → Result Error (Unit {0})
check_invocation r = do
  raise_if (differs (not (is_some r.completed_at)) (not (is_some r.duration_ms)))
      completion_incomplete
  raise_if
      (differs (is_terminal_invocation r.status) (is_some r.completed_at && is_some r.duration_ms))
      completion_mismatch
  raise_if (is_before r.completed_at r.started_at) completed_before_started
  raise_if (is_text r.retry_of_invocation_id r.invocation_id) retry_of_itself
  raise_if (is_text r.fallback_from_invocation_id r.invocation_id) fallback_from_itself
  raise_if (r.attempt_number == 1 && not (predecessor_count r == 0)) first_with_predecessor
  raise_if (ltb 1 r.attempt_number && not (predecessor_count r == 1)) later_without_predecessor

abbrev pub invocation_status_value : RunnerInvocationStatus → String
invocation_status_value RunnerInvocationStatus.pending = "pending"
invocation_status_value RunnerInvocationStatus.running = "running"
invocation_status_value RunnerInvocationStatus.succeeded = "succeeded"
invocation_status_value RunnerInvocationStatus.partially_succeeded = "partially_succeeded"
invocation_status_value RunnerInvocationStatus.failed = "failed"
invocation_status_value RunnerInvocationStatus.cancelled = "cancelled"

unfoldable pub dump_invocation : RunnerInvocationRecord → Value
dump_invocation r = object_of (
    version
    ∷ ("invocation_id", Value.text r.invocation_id)
    ∷ ("run_id", Value.text r.run_id)
    ∷ ("runner_id", Value.text r.runner_id)
    ∷ ("operation", Value.text r.operation)
    ∷ ("step_id", optional Value.text r.step_id)
    ∷ ("status", Value.text (invocation_status_value r.status))
    ∷ ("started_at", time_value r.started_at)
    ∷ ("completed_at", optional time_value r.completed_at)
    ∷ ("duration_ms", optional number r.duration_ms)
    ∷ ("attempt_number", number r.attempt_number)
    ∷ ("retry_of_invocation_id", optional Value.text r.retry_of_invocation_id)
    ∷ ("fallback_from_invocation_id", optional Value.text r.fallback_from_invocation_id)
    ∷ ("errors", array_of dump_error r.errors)
    ∷ [])

-- The constructor of the class.
unfoldable pub runner_invocation_record :
    RunnerInvocationRecord → Result Error RunnerInvocationRecord
unfolding check_invocation_fields check_invocation
runner_invocation_record r = do
  check_invocation_fields r
  check_tree (dump_invocation r)
  check_invocation r
  ok r

-- The validation of the fields of a dumped record.
unfoldable pub rebuild_invocation :
    (ℕ → Bool) → RunnerInvocationRecord → Result Error RunnerInvocationRecord
rebuild_invocation printable r = do
  errors ← collect (run_error printable) r.errors
  runner_invocation_record (record r { errors = errors })
