-- ===== src/Supervisor/History.antt =====
-- pmqa/supervisor/policy.py: the validation results and the rounds of invocations behind them.
use pmqa.Base.{
  Result, ok, err, ◌>>=◌, ◌>>◌, raise_if, ℕ, suc, ◌-◌, String, Bool, true, false, not, ◌&&◌, ◌||◌,
  Option, none, some, List, [], ◌∷◌, ◌++◌, str_eq, ltb, leb, if◌then◌else◌, length, take, drop,
}
use pmqa.Values.{Value, text, get_item}
use pmqa.Workflow.Models.{AgentInvocation, AgentInvocationStatus, AgentRole, role_eq, WorkflowState}
use pmqa.Supervisor.Contracts.{
  Error, missing_status, status_not_text, unsupported_status, unmatched_result, missing_result,
  continued_after_passed, failed_invocation, incomplete_invocation, broken_cycle, broken_recovery,
}

pub data Verdict : Type 0 where
  passed failed : Verdict

text_status : String → Result Error Verdict
text_status status =
    if str_eq status "passed"
    then ok passed
    else if str_eq status "failed"
    then ok failed
    else err unsupported_status

status_value : Option Value → Result Error Verdict
unfolding text_status
status_value none = err missing_status
status_value (some (text status)) = text_status status
status_value (some _) = err status_not_text

-- `_validation_status`: one of the two texts that it lets through.
unfoldable pub validation_status : Value → Result Error Verdict
unfolding status_value
validation_status result = status_value (get_item "status" result)

unfoldable pub validation_statuses : List Value → Result Error (List Verdict)
validation_statuses [] = ok []
validation_statuses (result ∷ rest) = do
  status ← validation_status result
  statuses ← validation_statuses rest
  ok (status ∷ statuses)

-- `"passed" in statuses[:-1]`
unfoldable pub passed_before_last : List Verdict → Bool
passed_before_last [] = false
passed_before_last (status ∷ []) = false
passed_before_last (passed ∷ next ∷ rest) = true
passed_before_last (failed ∷ next ∷ rest) = passed_before_last (next ∷ rest)

abbrev pub is_completed : AgentInvocationStatus → Bool
is_completed AgentInvocationStatus.completed = true
is_completed _ = false

abbrev pub is_completed_validator : AgentInvocation → Bool
is_completed_validator v = role_eq v.agent AgentRole.validator && is_completed v.status

-- `completed_validator_indexes`, from an index on.
unfoldable pub validator_indexes : ℕ → List AgentInvocation → List ℕ
validator_indexes index [] = []
validator_indexes index (v ∷ rest) =
    let later = validator_indexes (suc index) rest in
    if is_completed_validator v then index ∷ later else later

-- One round of `_recovery_roles`: what it appends.
recovery_role : AgentRole → AgentInvocationStatus → Result Error (List AgentRole)
recovery_role AgentRole.supervisor status = ok []
recovery_role role AgentInvocationStatus.failed = err failed_invocation
recovery_role role AgentInvocationStatus.completed = ok (role ∷ [])
recovery_role role _ = err incomplete_invocation

unfoldable pub recovery_roles : List AgentInvocation → Result Error (List AgentRole)
unfolding recovery_role
recovery_roles [] = ok []
recovery_roles (v ∷ rest) = do
  role ← recovery_role v.agent v.status
  roles ← recovery_roles rest
  ok (role ++ roles)

abbrev pub roles_eq : List AgentRole → List AgentRole → Bool
roles_eq [] [] = true
roles_eq (a ∷ as') (b ∷ bs) = role_eq a b && roles_eq as' bs
roles_eq _ _ = false

-- `expected`
abbrev pub recovery_cycle : List AgentRole
recovery_cycle = AgentRole.explorer ∷ AgentRole.knowledge ∷ AgentRole.validator ∷ []

-- `_require_recovery_sequence`
unfoldable pub require_recovery_sequence : List AgentRole → Bool → Result Error (Unit {0})
require_recovery_sequence roles true = raise_if (not (roles_eq roles recovery_cycle)) broken_cycle
require_recovery_sequence roles false =
    raise_if
      (leb (length recovery_cycle) (length roles)
        || not (roles_eq roles (take (length roles) recovery_cycle)))
      broken_recovery

-- The loop of `_validate_validation_history` over the neighbours among the indexes.
unfoldable pub require_cycles : List AgentInvocation → List ℕ → Result Error (Unit {0})
unfolding require_recovery_sequence
require_cycles history [] = ok tt
require_cycles history (index ∷ []) = ok tt
require_cycles history (previous ∷ current ∷ rest) = do
  roles ← recovery_roles (take (current - previous) (drop (suc previous) history))
  require_recovery_sequence roles true
  require_cycles history (current ∷ rest)

-- `_validate_validation_history`
unfoldable pub validate_validation_history : WorkflowState → Result Error (List ℕ)
validate_validation_history state = do
  let indexes = validator_indexes 0 state.step_history
  raise_if (ltb (length indexes) (length state.validation_results)) unmatched_result
  raise_if (ltb (length state.validation_results) (length indexes)) missing_result
  statuses ← validation_statuses state.validation_results
  raise_if (passed_before_last statuses) continued_after_passed
  require_cycles state.step_history indexes
  ok indexes
