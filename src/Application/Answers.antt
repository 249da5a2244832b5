-- ===== src/Application/Answers.antt =====
-- What a runner and an adapter have answered when `execute` goes on.
use pmqa.Base.{collect, ok, >>=-eq-ok, ℕ, ◌≡◌, sym, Bool, true, Option, none, some}
use pmqa.Run.Attempts.{invocation_same}
use pmqa.Runners.Correlation.{runner_response_same}
use pmqa.Runners.Correlation.{validate_runner_response-IsAnswer, IsAnswer}
use pmqa.Run.Build.{run_error, run_artifact, optionally}
use pmqa.Runners.Contracts.{runner_request_snapshot, RunnerRequest}
use pmqa.Run.Attempts.{runner_invocation_record-IsAttempt, IsAttempt}
use pmqa.Application.Registry.{PmqaRunner}
use pmqa.Run.Invocations.{rebuild_invocation}
use pmqa.Runners.Response.{RunnerResponse, response_snapshot, rebuild_response}
use pmqa.Application.Service.{or_failure}
use pmqa.Application.Dispatch.{validate_if_present, replied, execute_runner}
use pmqa.Base.{ok, collect, >>=-eq-ok, ℕ, ◌≡◌, sym, Bool, Option, none, some}
use mathlib.Core.Path.{subst}
use pmqa.Run.Plain.{plain_json_equal}
use pmqa.Run.Dumps.{dump_result, from_dict}
use pmqa.Run.Parts.{StructuredResult}
use pmqa.Runners.Contracts.{dump_runner_request, rebuild_runner_request}
use pmqa.Application.Registry.{Reply, Signal, PmqaWorkflowAdapter}
use pmqa.Application.Service.{validate_workflow_result}
use pmqa.Application.Preparation.{from_dict-IsCopy}
use pmqa.Application.Admission.{answered-eq-ok}
use pmqa.Runners.Response.{dump_response}
use pmqa.Run.Build.{rebuild_result}
use pmqa.Application.Contracts.{runner_boundary_failed, or_invalid}
use pmqa.Application.Preparation.{or_invalid-eq-ok, or_failure-eq-ok, from_dict-eq-ok}

-- The invocation of a response that is read back is a constructed one.
rebuild_response-IsAttempt :
    (printable : ℕ → Bool) (raw r : RunnerResponse)
    → rebuild_response printable raw ≡ ok r
    → IsAttempt r.invocation
unfolding rebuild_response rebuild_invocation
rebuild_response-IsAttempt printable raw r h =
    let (invocation, made, h1) = >>=-eq-ok (rebuild_invocation printable raw.invocation) _ h in
    let (result, _, h2) = >>=-eq-ok (optionally rebuild_result raw.result) _ h1 in
    let (artifacts, _, h3) = >>=-eq-ok (collect run_artifact raw.artifacts) _ h2 in
    let same =
      runner_response_same
        (record { invocation = invocation; result = result; artifacts = artifacts }) r h3 in
    let (errors, _, constructed) =
      >>=-eq-ok (collect (run_error printable) raw.invocation.errors) _ made in
    let kept = invocation_same (record raw.invocation { errors = errors }) invocation constructed in
    let attempt =
      runner_invocation_record-IsAttempt (record raw.invocation { errors = errors }) invocation
        constructed in
    subst (λ (p : RunnerResponse). IsAttempt p.invocation) (sym same)
      (subst IsAttempt (sym kept) attempt)

-- What a runner has answered: it was called with a copy of the request, and what it returned is
-- read back as a copy of that. A copy has the same tree.
pub record IsAnswered (runner : PmqaRunner) (request : RunnerRequest) (control : Bool)
    (response : RunnerResponse) : Type 0 where
  pub dispatched : RunnerRequest
  pub copied :
      plain_json_equal (dump_runner_request request) (dump_runner_request dispatched) ≡ true
  pub raw : RunnerResponse
  pub returned : runner.execute dispatched control ≡ Reply.response raw
  pub read : plain_json_equal (dump_response raw) (dump_response response) ≡ true
  pub answer : IsAnswer request response
  pub attempt : IsAttempt response.invocation

replied-eq-ok :
    (reply : Reply) {r : RunnerResponse} → replied reply ≡ ok r → reply ≡ Reply.response r
replied-eq-ok (Reply.response r) h = cc
replied-eq-ok Reply.boundary_failed h = cc
replied-eq-ok Reply.other_exception h = cc

-- The answer of a runner that `_execute_runner` lets through.
pub execute_runner-IsAnswered :
    (printable : ℕ → Bool) (runner : PmqaRunner) (request : RunnerRequest) (control : Bool)
    (response : RunnerResponse)
    → execute_runner printable runner request control ≡ ok response
    → IsAnswered runner request control response
unfolding execute_runner response_snapshot runner_request_snapshot
execute_runner-IsAnswered printable runner request control response h =
    let (dispatched, sent, h1) =
      >>=-eq-ok (or_invalid (runner_request_snapshot printable request)) _ h in
    let (raw, returned, h2) = >>=-eq-ok (replied (runner.execute dispatched control)) _ h1 in
    let (copy, snapshot, h3) =
      >>=-eq-ok (or_failure runner_boundary_failed (response_snapshot printable raw)) _ h2 in
    let (same, answer) =
      validate_runner_response-IsAnswer request copy response (or_failure-eq-ok _ _ h3) in
    let from = or_failure-eq-ok _ _ snapshot in
    let built =
      from_dict-eq-ok dump_response (dump_response raw) (rebuild_response printable raw) from in
    subst (IsAnswered runner request control) (sym same) (record {
      dispatched = dispatched;
      copied =
          from_dict-IsCopy dump_runner_request (dump_runner_request request)
            (rebuild_runner_request printable request) (or_invalid-eq-ok _ sent);
      raw = raw;
      returned = replied-eq-ok _ returned;
      read =
          from_dict-IsCopy dump_response (dump_response raw) (rebuild_response printable raw) from;
      answer = answer;
      attempt = rebuild_response-IsAttempt printable raw copy built;
    })

-- An adapter has accepted a copy of a result, if there is one.
abbrev pub HasAcceptedResult : PmqaWorkflowAdapter → Option StructuredResult → Type 0
HasAcceptedResult adapter none = Unit
HasAcceptedResult adapter (some result) =
    (q : StructuredResult) × (plain_json_equal (dump_result result) (dump_result q) ≡ true)
    × (adapter.validate_result q ≡ Signal.accepted)

pub validate_if_present-HasAcceptedResult :
    (adapter : PmqaWorkflowAdapter) (o : Option StructuredResult)
    → validate_if_present adapter o ≡ ok tt
    → HasAcceptedResult adapter o
unfolding validate_workflow_result
validate_if_present-HasAcceptedResult adapter none h = tt
validate_if_present-HasAcceptedResult adapter (some result) h =
    let (q, snapshot, h1) =
      >>=-eq-ok (or_invalid (from_dict dump_result (dump_result result) (rebuild_result result))) _
        h in
    (
      q,
      from_dict-IsCopy dump_result (dump_result result) (rebuild_result result)
          (or_invalid-eq-ok _ snapshot),
      answered-eq-ok _ _ h1,
    )
