-- ===== src/Application/Reasons.antt =====
-- The reasons for which `PMQAApplicationService.execute` refuses its arguments before the runner is
-- called, and what the errors of its tests say.
use pmqa.Base.{
  Result, ok, err, raise_if, >>=-eq-ok, ok-inj, ℕ, ◌<◌, String, ◌≡◌, refl, sym, Bool, true, false,
  not, Option, none, some, arith, ltb,
}
use pmqa.Workflow.Models.{DateTime}
use pmqa.Run.Identifiers.{Error, validate_run_identifier}
use pmqa.Run.Requests.{RunRequest, PmqaRunContext, pmqa_run_context}
use pmqa.Run.Invocations.{RunnerInvocationRecord, runner_invocation_record}
use pmqa.Runners.Contracts.{runner_request}
use pmqa.Application.Contracts.{
  Failure, failure, invalid_contract, or_invalid, invalid_application_request,
  invalid_run_identifier, invalid_application_clock,
}
use pmqa.Application.Service.{PmqaApplicationService, Admission, admit}
use pmqa.Application.Dispatch.{
  ControlArgument, control_of, sample_clock, context_of, pending_invocation,
}
use pmqa.Application.Preparation.{runner_request_of}
use pmqa.Application.Refusals.{NotAdmitted}

-- A reason to refuse the arguments of `execute`, and the failure that it is reported as.
pub data Refusal (s : PmqaApplicationService) (submitted : RunRequest)
    (run_id invocation_id : String) (argument : ControlArgument) : Failure → Type 0 where
  not_admitted :
      (f : Failure)
      → NotAdmitted s submitted f
      → Refusal s submitted run_id invocation_id argument f
  bad_run_id :
      (e : Error)
      → validate_run_identifier run_id ≡ err e
      → Refusal s submitted run_id invocation_id argument (failure invalid_run_identifier)
  bad_invocation_id :
      (e : Error)
      → validate_run_identifier invocation_id ≡ err e
      → Refusal s submitted run_id invocation_id argument (failure invalid_run_identifier)
  bad_control :
      argument ≡ ControlArgument.other_object
      → Refusal s submitted run_id invocation_id argument (failure invalid_application_request)
  no_clock :
      s.clock ≡ none
      → Refusal s submitted run_id invocation_id argument (failure invalid_application_clock)
  naive_clock :
      (time : DateTime)
      → s.clock ≡ some time
      → time.is_aware ≡ false
      → Refusal s submitted run_id invocation_id argument (failure invalid_application_clock)
  early_clock :
      (a : Admission) (time : DateTime)
      → admit s submitted ≡ ok a
      → s.clock ≡ some time
      → time.instant < a.request.requested_at
      → Refusal s submitted run_id invocation_id argument (failure invalid_application_clock)
  invalid_context :
      (a : Admission) (time : DateTime) (e : Error)
      → admit s submitted ≡ ok a
      → s.clock ≡ some time
      → pmqa_run_context (context_of a.request run_id time.instant) ≡ err e
      → Refusal s submitted run_id invocation_id argument (invalid_contract e)
  invalid_invocation :
      (a : Admission) (time : DateTime) (e : Error)
      → admit s submitted ≡ ok a
      → s.clock ≡ some time
      → runner_invocation_record (pending_invocation a.request run_id invocation_id time.instant)
        ≡ err e
      → Refusal s submitted run_id invocation_id argument (invalid_contract e)
  invalid_runner_request :
      (a : Admission) (context : PmqaRunContext) (invocation : RunnerInvocationRecord) (e : Error)
      → admit s submitted ≡ ok a
      → runner_request (runner_request_of s a context invocation) ≡ err e
      → Refusal s submitted run_id invocation_id argument (invalid_contract e)

pub or_invalid-eq-err {ℓ} :
    {A : Type ℓ} (r : Result Error A) {f : Failure}
    → or_invalid r ≡ err f
    → (e : Error) × (r ≡ err e) × (invalid_contract e ≡ f)
or_invalid-eq-err (ok a) h = cc
or_invalid-eq-err (err e) h = (e, refl, cc)

pub control_of-eq-err :
    (argument : ControlArgument) {f : Failure}
    → control_of argument ≡ err f
    → (argument ≡ ControlArgument.other_object) × (failure invalid_application_request ≡ f)
control_of-eq-err ControlArgument.absent h = cc
control_of-eq-err (ControlArgument.given control) h = cc
control_of-eq-err ControlArgument.other_object h = (refl, cc)

pub sample_clock-eq-ok :
    (clock : Option DateTime) {instant : ℕ}
    → sample_clock clock ≡ ok instant
    → (time : DateTime) × (clock ≡ some time) × (time.instant ≡ instant)
unfolding sample_clock
sample_clock-eq-ok none h = cc
sample_clock-eq-ok (some time) h =
    let (_, _, h1) =
      >>=-eq-ok (raise_if (not time.is_aware) (failure invalid_application_clock)) _ h in
    (time, refl, sym (ok-inj h1))

pub less_of_ltb : (a b : ℕ) → ltb a b ≡ true → a < b
less_of_ltb a b h = ground arith

pub was_not : (b : Bool) → not b ≡ true → b ≡ false
was_not true h = cc
was_not false h = refl
