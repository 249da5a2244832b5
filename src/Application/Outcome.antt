-- ===== src/Application/Outcome.antt =====
-- What `PMQAApplicationService.execute` returns, whatever the adapter and the runner do.
use pmqa.Base.{
  ok, >>=-eq-ok, ok-inj, ℕ, String, ◌≡◌, refl, sym, ap, ◌∙◌, Bool, Option, none, some, [], ◌∷◌,
}
use pmqa.Run.Lifecycle.{run_record_same}
use pmqa.Run.Lifecycle.{run_record-IsLifecycle, IsLifecycle}
use pmqa.Run.Requests.{RunRequest}
use pmqa.Run.Records.{run_record, RunStatus}
use pmqa.Run.Dumps.{check_tree}
use pmqa.Runners.Contracts.{RunnerRequest}
use pmqa.Runners.Response.{RunnerResponse}
use pmqa.Application.Service.{Admission, PmqaApplicationService}
use pmqa.Application.Dispatch.{ControlArgument, run_of, status_found, assemble_result}
use pmqa.Base.{ok, >>=-eq-ok, ℕ, String, ◌≡◌, refl, sym, ap, Bool, Option, none, some}
use mathlib.Core.Path.{subst}
use pmqa.Base.{◌∷◌, [], ◌∙◌}
use pmqa.Run.Records.{RunRecord}
use pmqa.Run.Invocations.{RunnerInvocationStatus}
use pmqa.Application.Dispatch.{ControlArgument, invocation_run_status, time_or}
use pmqa.Application.Preparation.{HasControl}
use pmqa.Application.Answers.{IsAnswered, HasAcceptedResult}
use pmqa.Application.Contracts.{
  check_application_result, dump_application_result, ApplicationRunResult, application_run_result,
  or_invalid,
}
use pmqa.Application.Preparation.{IsPrepared, or_invalid-eq-ok}
use pmqa.Application.Admission.{IsAdmitted}

application_run_result_same : (r q : ApplicationRunResult) → application_run_result r ≡ ok q → q ≡ r
unfolding application_run_result
application_run_result_same r q h =
    let (_, _, h1) = >>=-eq-ok (check_tree (dump_application_result r)) _ h in
    let (_, _, h2) = >>=-eq-ok (check_application_result r) _ h1 in ok-inj h2

-- The status of a run, for that of its invocation.
pub data SameOutcome : RunnerInvocationStatus → RunStatus → Type 0 where
  both_succeeded : SameOutcome RunnerInvocationStatus.succeeded RunStatus.succeeded
  both_partial :
      SameOutcome RunnerInvocationStatus.partially_succeeded RunStatus.partially_succeeded
  both_failed : SameOutcome RunnerInvocationStatus.failed RunStatus.failed
  both_cancelled : SameOutcome RunnerInvocationStatus.cancelled RunStatus.cancelled

-- What is assembled from a request and a response.
pub record IsAssembled (request : RunRequest) (response : RunnerResponse) (r : ApplicationRunResult)
    : Type 0 where
  pub run_request : r.run_request ≡ request
  pub runner_response : r.runner_response ≡ response
  pub status : SameOutcome response.invocation.status r.run_record.status
  pub run_id : r.run_record.run_id ≡ response.invocation.run_id
  pub request_id : r.run_record.request_id ≡ request.request_id
  pub session_id : r.run_record.session_id ≡ request.session_id
  pub workflow_id : r.run_record.workflow_id ≡ request.workflow_id
  pub workflow_version : r.run_record.workflow_version ≡ request.workflow_version
  pub runner_id : r.run_record.runner_id ≡ request.runner_id
  pub references : r.run_record.references ≡ request.references
  pub started_at : r.run_record.started_at ≡ response.invocation.started_at
  pub completed_at : r.run_record.completed_at ≡ response.invocation.completed_at
  pub duration_ms : r.run_record.duration_ms ≡ response.invocation.duration_ms
  pub current_step_id : r.run_record.current_step_id ≡ none
  pub result : r.run_record.result ≡ response.result
  pub artifacts : r.run_record.artifacts ≡ response.artifacts
  pub errors : r.run_record.errors ≡ response.invocation.errors
  pub runner_invocation_ids :
      r.run_record.runner_invocation_ids ≡ response.invocation.invocation_id ∷ []
  pub outcome_metrics : r.run_record.outcome_metrics ≡ none
  pub created_at : r.run_record.created_at ≡ request.requested_at
  pub updated_at :
      (time : ℕ) → response.invocation.completed_at ≡ some time → r.run_record.updated_at ≡ time
  pub lifecycle : IsLifecycle r.run_record

invocation_run_status-SameOutcome :
    (s : RunnerInvocationStatus) (t : RunStatus)
    → invocation_run_status s ≡ some t
    → SameOutcome s t
invocation_run_status-SameOutcome RunnerInvocationStatus.pending t h = cc
invocation_run_status-SameOutcome RunnerInvocationStatus.running t h = cc
invocation_run_status-SameOutcome RunnerInvocationStatus.succeeded t h =
    subst (SameOutcome RunnerInvocationStatus.succeeded) (cc h) both_succeeded
invocation_run_status-SameOutcome RunnerInvocationStatus.partially_succeeded t h =
    subst (SameOutcome RunnerInvocationStatus.partially_succeeded) (cc h) both_partial
invocation_run_status-SameOutcome RunnerInvocationStatus.failed t h =
    subst (SameOutcome RunnerInvocationStatus.failed) (cc h) both_failed
invocation_run_status-SameOutcome RunnerInvocationStatus.cancelled t h =
    subst (SameOutcome RunnerInvocationStatus.cancelled) (cc h) both_cancelled

found : (o : Option RunStatus) (status : RunStatus) → status_found o ≡ ok status → o ≡ some status
found none status h = cc
found (some s) status h = ap some (sym (ok-inj h))

abbrev recorded : RunRequest → RunnerResponse → RunRecord → ApplicationRunResult
recorded request response run = record {
  run_request = request;
  run_record = run;
  runner_response = response;
}

pub assemble_result-IsAssembled :
    (request : RunRequest) (response : RunnerResponse) (r : ApplicationRunResult)
    → assemble_result request response ≡ ok r
    → IsAssembled request response r
unfolding assemble_result
assemble_result-IsAssembled request response r h =
    let (status, mapped, h1) =
      >>=-eq-ok (status_found (invocation_run_status response.invocation.status)) _ h in
    let (run, made, h2) =
      >>=-eq-ok (or_invalid (run_record (run_of request response status))) _ h1 in
    let constructed = or_invalid-eq-ok _ made in
    let lifecycle = run_record-IsLifecycle _ run constructed in
    let kept = run_record_same (run_of request response status) run constructed in
    let built =
      application_run_result_same
        (record { run_request = request; run_record = run; runner_response = response }) r
        (or_invalid-eq-ok _ h2) in
    subst (IsAssembled request response) (sym (built ∙ ap (recorded request response) kept))
      (record {
        run_request = refl;
        runner_response = refl;
        status = invocation_run_status-SameOutcome _ status (found _ _ mapped);
        run_id = refl;
        request_id = refl;
        session_id = refl;
        workflow_id = refl;
        workflow_version = refl;
        runner_id = refl;
        references = refl;
        started_at = refl;
        completed_at = refl;
        duration_ms = refl;
        current_step_id = refl;
        result = refl;
        artifacts = refl;
        errors = refl;
        runner_invocation_ids = refl;
        outcome_metrics = refl;
        created_at = refl;
        updated_at = λ time e. ap (time_or response.invocation.started_at) e;
        lifecycle = lifecycle;
      })

-- What `execute` returns.
pub record IsOutcome (s : PmqaApplicationService) (submitted : RunRequest)
    (run_id invocation_id : String) (argument : ControlArgument) (r : ApplicationRunResult)
    : Type 0 where
  pub admission : Admission
  pub admitted : IsAdmitted s submitted admission
  pub request : RunnerRequest
  pub prepared : IsPrepared admission run_id invocation_id request
  pub control : Bool
  pub controlled : HasControl argument control
  pub answered : IsAnswered admission.runner.runner request control r.runner_response
  pub accepted : HasAcceptedResult admission.workflow.adapter r.runner_response.result
  pub assembled : IsAssembled admission.request r.runner_response r
