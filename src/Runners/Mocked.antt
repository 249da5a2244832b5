-- ===== src/Runners/Mocked.antt =====
-- What `MockRunner.execute` answers.
use pmqa.Runners.Mock.{mock_answer}
use pmqa.Base.{
  collect, Result, ok, err, raise_if, >>=-eq-ok, ok-inj, ℕ, ◌≡◌, refl, sym, ap, ◌∙◌, Bool, not,
  Option, none, some, List, [], ◌∷◌, str_eq, ltb, if◌then◌else◌,
}
use pmqa.Run.Attempts.{invocation_same}
use pmqa.Runners.Correlation.{runner_response_same}
use pmqa.Workflow.Models.{DateTime}
use pmqa.Run.Identifiers.{validate_run_identifier, validate_optional}
use pmqa.Run.Texts.{bounded_text}
use pmqa.Run.Dumps.{check_tree, dump_error}
use mathlib.Core.Path.{subst}
use pmqa.Runners.Outcome.{HasOutcome, HasOutcome_of}
use pmqa.Base.{
  collect, Result, ok, err, raise_if, >>=-eq-ok, ok-inj, ℕ, ◌≡◌, refl, sym, ap, ◌∙◌, Bool, not,
  Option, none, some, List, [], ◌∷◌, str_eq, ltb, if◌then◌else◌,
}
use pmqa.Run.Parts.{RunError}
use pmqa.Run.Identifiers.{Error}
use pmqa.Run.Build.{structured_result, run_error, optionally}
use pmqa.Run.Invocations.{RunnerInvocationRecord, RunnerInvocationStatus, runner_invocation_record}
use pmqa.Run.Attempts.{IsAttempt, runner_invocation_record-IsAttempt}
use pmqa.Runners.Contracts.{RunnerRequest}
use pmqa.Runners.Response.{RunnerResponse, runner_response}
use pmqa.Runners.Correlation.{IsAnswer, validate_runner_response-IsAnswer}
use pmqa.Runners.Mock.{
  FloatArithmetic, MockRunner, boundary_failure, or_boundary, or_contract, sample_monotonic,
  sample_wall_clock, duration_milliseconds, mock_result, mock_errors, completed_invocation,
  mock_execute,
}

-- What the runner answers to a request, given whether a cancellation was requested.
pub record IsMocked (m : MockRunner) (request : RunnerRequest) (cancelled : Bool)
    (p : RunnerResponse) : Type 0 where
  pub answer : IsAnswer request p
  pub attempt : IsAttempt p.invocation
  pub status :
      p.invocation.status ≡ (if cancelled then RunnerInvocationStatus.cancelled else m.outcome)
  pub outcome : HasOutcome p.invocation.status request p.invocation.errors p.result
  pub artifacts : p.artifacts ≡ (if cancelled then [] else m.output_artifacts)
  pub clock :
      (t : DateTime) × (m.wall_clock ≡ some t) × (p.invocation.completed_at ≡ some t.instant)

boundary_ok {ℓ κ} :
    {E : Type κ} {A : Type ℓ} (r : Result E A) {a : A} → or_boundary r ≡ ok a → r ≡ ok a
boundary_ok (ok b) h = cc
boundary_ok (err e) h = cc

contract_ok {ℓ} : {A : Type ℓ} (r : Result Error A) {a : A} → or_contract r ≡ ok a → r ≡ ok a
contract_ok (ok b) h = cc
contract_ok (err e) h = cc

error_same : (printable : ℕ → Bool) (e q : RunError) → run_error printable e ≡ ok q → q ≡ e
unfolding run_error
error_same printable e q h =
    let (_, _, h1) = >>=-eq-ok (validate_run_identifier e.code) _ h in
    let (_, _, h2) = >>=-eq-ok (bounded_text printable 1000 e.safe_message) _ h1 in
    let (_, _, h3) = >>=-eq-ok (validate_optional e.step_id) _ h2 in
    let (_, _, h4) = >>=-eq-ok (validate_optional e.error_type) _ h3 in
    let (_, _, h5) = >>=-eq-ok (check_tree (dump_error e)) _ h4 in ok-inj h5

-- Constructed errors are the errors that were given.
errors_kept :
    (printable : ℕ → Bool) (given errors : List RunError)
    → collect (run_error printable) given ≡ ok errors
    → errors ≡ given
unfolding collect
errors_kept printable [] errors h = ok-inj h
errors_kept printable (e ∷ rest) errors h =
    let (built, first, h1) = >>=-eq-ok (run_error printable e) _ h in
    let (others, after, h2) = >>=-eq-ok (collect (run_error printable) rest) _ h1 in
    ok-inj h2 ∙ cc (error_same printable e built first, errors_kept printable rest others after)

clock_of :
    (clock : Option DateTime) (instant : ℕ)
    → sample_wall_clock clock ≡ ok instant
    → (t : DateTime) × (clock ≡ some t) × (t.instant ≡ instant)
unfolding sample_wall_clock
clock_of none instant h = cc
clock_of (some t) instant h =
    let (_, _, h1) = >>=-eq-ok (raise_if (not t.is_aware) boundary_failure) _ h in
    (t, refl, sym (ok-inj h1))

-- What the part that answers gives.
record IsMockedAt (m : MockRunner) (request : RunnerRequest) (status : RunnerInvocationStatus)
    (cancelled : Bool) (completed_at : ℕ) (p : RunnerResponse) : Type 0 where
  answer : IsAnswer request p
  attempt : IsAttempt p.invocation
  status_is : p.invocation.status ≡ status
  result : optionally structured_result (mock_result request status) ≡ ok p.result
  errors : p.invocation.errors ≡ mock_errors status
  artifacts : p.artifacts ≡ (if cancelled then [] else m.output_artifacts)
  completed : p.invocation.completed_at ≡ some completed_at

mock_answer-IsMockedAt :
    (printable : ℕ → Bool) (m : MockRunner) (request : RunnerRequest)
    (status : RunnerInvocationStatus) (cancelled : Bool) (completed_at duration : ℕ)
    (p : RunnerResponse)
    → mock_answer printable m request status cancelled completed_at duration ≡ ok p
    → IsMockedAt m request status cancelled completed_at p
unfolding mock_answer
mock_answer-IsMockedAt printable m request status cancelled completed_at duration p h =
    let (result, there, h1) =
      >>=-eq-ok (or_contract (optionally structured_result (mock_result request status))) _ h in
    let (errors, listed, h2) =
      >>=-eq-ok (or_contract (collect (run_error printable) (mock_errors status))) _ h1 in
    let done = completed_invocation request.invocation status completed_at duration errors in
    let (invocation, recorded, h3) = >>=-eq-ok (or_contract (runner_invocation_record done)) _ h2 in
    let built : RunnerResponse = record {
      invocation = invocation;
      result = result;
      artifacts = if cancelled then [] else m.output_artifacts;
    } in
    let (response, made, h4) = >>=-eq-ok (or_contract (runner_response built)) _ h3 in
    let (same, answer) = validate_runner_response-IsAnswer request response p (boundary_ok _ h4) in
    let kept = runner_response_same built response (contract_ok _ made) in
    let constructed = contract_ok _ recorded in
    let completed_as = invocation_same done invocation constructed in
    subst (IsMockedAt m request status cancelled completed_at) (sym (same ∙ kept)) (record {
      answer = subst (IsAnswer request) kept answer;
      attempt =
          subst IsAttempt (sym completed_as)
            (runner_invocation_record-IsAttempt done invocation constructed);
      status_is = ap (λ (i : RunnerInvocationRecord). i.status) completed_as;
      result = contract_ok _ there;
      errors =
          ap (λ (i : RunnerInvocationRecord). i.errors) completed_as
          ∙ errors_kept printable _ _ (contract_ok _ listed);
      artifacts = refl;
      completed = ap (λ (i : RunnerInvocationRecord). i.completed_at) completed_as;
    })

-- What the runner answers is an answer to the request that it was given, with a well-formed
-- invocation. Its status is cancelled exactly as a cancellation was requested and otherwise the
-- configured one. A full or partial success has a result of the expected schema whose data name
-- that status, and any other answer has none. A success has no errors; a partial success, a
-- cancellation and any other answer have one each, of the code and the category for it. The
-- artifacts are the configured ones unless it is cancelled, and it is completed when the wall clock
-- says.
pub mock_execute-IsMocked :
    (printable : ℕ → Bool) (floats : FloatArithmetic) (m : MockRunner) (request : RunnerRequest)
    (cancelled : Bool) (p : RunnerResponse)
    → mock_execute printable floats m request cancelled ≡ ok p
    → IsMocked m request cancelled p
unfolding mock_execute
mock_execute-IsMocked printable floats m request cancelled p h =
    let status = if cancelled then RunnerInvocationStatus.cancelled else m.outcome in
    let (_, _, h1) =
      >>=-eq-ok
        (raise_if (not (str_eq request.context.runner_id m.metadata.runner_id)) boundary_failure) _
        h in
    let (started, _, h2) = >>=-eq-ok (sample_monotonic m.started_monotonic) _ h1 in
    let (completed_at, sampled, h3) = >>=-eq-ok (sample_wall_clock m.wall_clock) _ h2 in
    let (completed, _, h4) = >>=-eq-ok (sample_monotonic m.completed_monotonic) _ h3 in
    let (_, _, h5) =
      >>=-eq-ok (raise_if (floats.less_than completed started) boundary_failure) _ h4 in
    let (_, _, h6) =
      >>=-eq-ok (raise_if (ltb completed_at request.invocation.started_at) boundary_failure) _ h5 in
    let (duration, _, h7) = >>=-eq-ok (duration_milliseconds floats started completed) _ h6 in
    let at =
      mock_answer-IsMockedAt printable m request status cancelled completed_at duration p h7 in
    let (t, p1, p2) = clock_of m.wall_clock completed_at sampled in
    record {
      answer = at.answer;
      attempt = at.attempt;
      status = at.status_is;
      outcome =
          subst (λ t. HasOutcome t request p.invocation.errors p.result) (sym at.status_is)
            (HasOutcome_of status request p.invocation.errors p.result at.errors at.result);
      artifacts = at.artifacts;
      clock = (t, p1, at.completed ∙ ap some (sym p2));
    }
