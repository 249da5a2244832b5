-- ===== src/Application/Preparation.antt =====
-- What `execute` prepares for the runner.
use pmqa.Base.{
  collect, Result, ok, err, raise_if, >>=-eq-ok, raise_if-eq-ok, ok-inj, ◌≤◌, String, ◌≡◌, refl,
  sym, ap, ◌∙◌, Bool, true, false, not, ◌||◌, none, List, [], ◌∷◌, ltb, ◌==◌, ltb-false, was_true,
}
use pmqa.Run.Attempts.{invocation_same}
use pmqa.Values.{Value}
use pmqa.Base.{
  Result, ok, err, collect, raise_if, >>=-eq-ok, raise_if-eq-ok, ◌≤◌, String, ◌≡◌, refl, sym, ap,
  ◌∙◌, not, ◌||◌, none, List, [], ◌∷◌, ltb, ◌==◌, ltb-false,
}
use mathlib.Core.Path.{subst}
use pmqa.Base.{Bool, true, false, was_true}
use pmqa.Application.Dispatch.{ControlArgument, control_of, Prepared}
use pmqa.Application.Contracts.{ApplicationFailureCode}
use pmqa.Run.Identifiers.{
  not_canonical, Error, validate_identifiers, validate_run_identifier, duplicate_reference,
  timeout_out_of_range,
}
use pmqa.Run.Plain.{is_plain_json, plain_json_equal, to_json}
use pmqa.Run.Texts.{check_array}
use pmqa.Run.Json.{safe_payload_mapping}
use pmqa.Run.Dumps.{from_dict, or_not_canonical, check_tree}
use pmqa.Run.Build.{run_reference}
use pmqa.Run.Records.{has_duplicate_reference}
use pmqa.Run.Requests.{
  RunRequest, dump_request, run_request, rebuild_request, request_snapshot, PmqaRunContext,
  pmqa_run_context,
}
use pmqa.Run.Invocations.{RunnerInvocationRecord, runner_invocation_record}
use pmqa.Runners.Contracts.{
  RunnerRequest, dump_runner_request, check_runner_request, max_runner_timeout_ms, runner_request,
}
use pmqa.Application.Contracts.{
  application_run_operation, invalid_application_clock, invalid_run_identifier, failure, or_invalid,
}
use pmqa.Application.Service.{PmqaApplicationService, Admission, or_failure}
use pmqa.Application.Dispatch.{prepare, sample_clock, context_of, pending_invocation}

pub or_invalid-eq-ok {ℓ} :
    {A : Type ℓ} (r : Result Error A) {a : A} → or_invalid r ≡ ok a → r ≡ ok a
or_invalid-eq-ok (ok b) h = cc
or_invalid-eq-ok (err e) h = cc

or_not_canonical-eq-ok {ℓ} :
    {A : Type ℓ} (r : Result Error A) {a : A} → or_not_canonical r ≡ ok a → r ≡ ok a
or_not_canonical-eq-ok (ok b) h = cc
or_not_canonical-eq-ok (err e) h = cc

-- What is read back has the tree that was submitted, and is what was built.
pub from_dict-IsCopy {ℓ} :
    {A : Type ℓ} (dump : A → Value) (submitted : Value) (built : Result Error A) {a : A}
    → from_dict dump submitted built ≡ ok a
    → plain_json_equal submitted (dump a) ≡ true
unfolding from_dict
from_dict-IsCopy dump submitted built h =
    let (_, _, h1) = >>=-eq-ok (raise_if (not (is_plain_json submitted)) not_canonical) _ h in
    let (value, made, h2) = >>=-eq-ok (or_not_canonical built) _ h1 in
    let (_, same, h3) =
      >>=-eq-ok (raise_if (not (plain_json_equal submitted (dump value))) not_canonical) _ h2 in
    subst (λ a. plain_json_equal submitted (dump a) ≡ true) (sym (ok-inj h3))
      (was_true _ (raise_if-eq-ok _ _ same))

pub from_dict-eq-ok {ℓ} :
    {A : Type ℓ} (dump : A → Value) (submitted : Value) (built : Result Error A) {a : A}
    → from_dict dump submitted built ≡ ok a
    → built ≡ ok a
unfolding from_dict
from_dict-eq-ok dump submitted built h =
    let (_, _, h1) = >>=-eq-ok (raise_if (not (is_plain_json submitted)) not_canonical) _ h in
    let (value, made, h2) = >>=-eq-ok (or_not_canonical built) _ h1 in
    let (_, _, h3) =
      >>=-eq-ok (raise_if (not (plain_json_equal submitted (dump value))) not_canonical) _ h2 in
    or_not_canonical-eq-ok built made ∙ ap ok (sym (ok-inj h3))

-- The request that is run is the submitted one, but for the copies of its inputs and references.
pub record SameRequest (r q : RunRequest) : Type 0 where
  pub request_id : q.request_id ≡ r.request_id
  pub session_id : q.session_id ≡ r.session_id
  pub workflow_id : q.workflow_id ≡ r.workflow_id
  pub workflow_version : q.workflow_version ≡ r.workflow_version
  pub runner_id : q.runner_id ≡ r.runner_id
  pub input_schema_id : q.input_schema_id ≡ r.input_schema_id
  pub input_schema_version : q.input_schema_version ≡ r.input_schema_version
  pub requested_at : q.requested_at ≡ r.requested_at

abbrev identifiers_of : RunRequest → List String
identifiers_of r =
    r.request_id ∷ r.session_id ∷ r.workflow_id ∷ r.workflow_version ∷ r.runner_id
    ∷ r.input_schema_id ∷ r.input_schema_version ∷ []

run_request-SameRequest : (r q : RunRequest) → run_request r ≡ ok q → SameRequest r q
unfolding run_request
run_request-SameRequest r q h =
    let (_, _, h1) = >>=-eq-ok (validate_identifiers (identifiers_of r)) _ h in
    let (inputs, _, h2) = >>=-eq-ok (safe_payload_mapping r.inputs) _ h1 in
    let (_, _, h3) = >>=-eq-ok (check_array r.references) _ h2 in
    let (_, _, h4) = >>=-eq-ok (check_tree (dump_request (record r { inputs = inputs }))) _ h3 in
    let (_, _, h5) =
      >>=-eq-ok (raise_if (has_duplicate_reference r.references) duplicate_reference) _ h4 in
    subst (SameRequest r) (sym (ok-inj h5)) (record {
      request_id = refl;
      session_id = refl;
      workflow_id = refl;
      workflow_version = refl;
      runner_id = refl;
      input_schema_id = refl;
      input_schema_version = refl;
      requested_at = refl;
    })

pub request_snapshot-SameRequest : (r q : RunRequest) → request_snapshot r ≡ ok q → SameRequest r q
unfolding request_snapshot rebuild_request
request_snapshot-SameRequest r q h =
    let built = from_dict-eq-ok dump_request (dump_request r) (rebuild_request r) h in
    let (references, _, h1) = >>=-eq-ok (collect run_reference r.references) _ built in
    let same =
      run_request-SameRequest (record r { inputs = to_json r.inputs; references = references }) q
        h1 in
    record {
      request_id = same.request_id;
      session_id = same.session_id;
      workflow_id = same.workflow_id;
      workflow_version = same.workflow_version;
      runner_id = same.runner_id;
      input_schema_id = same.input_schema_id;
      input_schema_version = same.input_schema_version;
      requested_at = same.requested_at;
    }

-- What the request of a runner was prepared as.
pub record IsPrepared (a : Admission) (id call : String) (r : RunnerRequest) : Type 0 where
  pub run_request : r.run_request ≡ a.request
  pub run_id : r.invocation.run_id ≡ id
  pub invocation_id : r.invocation.invocation_id ≡ call
  pub runner_id : r.invocation.runner_id ≡ a.request.runner_id
  pub operation : r.invocation.operation ≡ application_run_operation
  pub step_id : r.invocation.step_id ≡ none
  pub attempt_number : r.invocation.attempt_number ≡ 1
  pub retry_of : r.invocation.retry_of_invocation_id ≡ none
  pub fallback_from : r.invocation.fallback_from_invocation_id ≡ none
  pub started : a.request.requested_at ≤ r.invocation.started_at
  pub schema_id : r.expected_result_schema_id ≡ a.workflow.definition.result_schema_id
  pub schema_version :
      r.expected_result_schema_version ≡ a.workflow.definition.result_schema_version

-- The control that an argument stands for.
abbrev pub HasControl : ControlArgument → Bool → Type 0
HasControl ControlArgument.absent control = control ≡ false
HasControl (ControlArgument.given requested) control = control ≡ requested
HasControl ControlArgument.other_object control = ⊥

control_of-HasControl :
    (argument : ControlArgument) {control : Bool}
    → control_of argument ≡ ok control
    → HasControl argument control
control_of-HasControl ControlArgument.absent h = ok-inj h
control_of-HasControl (ControlArgument.given requested) h = ok-inj h
control_of-HasControl ControlArgument.other_object h = cc

-- What was prepared, for an admission and the other arguments.
abbrev pub IsPreparedFor : Admission → String → String → ControlArgument → Prepared → Type 0
IsPreparedFor a id call argument p =
    (p.admission ≡ a) × HasControl argument p.control × IsPrepared a id call p.request

runner_request_same : (r q : RunnerRequest) → runner_request r ≡ ok q → q ≡ r
unfolding runner_request
runner_request_same r q h =
    let (_, _, h1) =
      >>=-eq-ok
        (validate_identifiers (r.expected_result_schema_id ∷ r.expected_result_schema_version ∷ []))
        _ h in
    let (_, _, h2) =
      >>=-eq-ok
        (raise_if (r.timeout_ms == 0 || ltb max_runner_timeout_ms r.timeout_ms)
          timeout_out_of_range)
        _ h1 in
    let (_, _, h3) = >>=-eq-ok (check_tree (dump_runner_request r)) _ h2 in
    let (_, _, h4) = >>=-eq-ok (check_runner_request r) _ h3 in ok-inj h4

abbrev pub runner_request_of :
    PmqaApplicationService → Admission → PmqaRunContext → RunnerInvocationRecord → RunnerRequest
runner_request_of s a context invocation = record {
  run_request = a.request;
  context = context;
  invocation = invocation;
  expected_result_schema_id = a.workflow.definition.result_schema_id;
  expected_result_schema_version = a.workflow.definition.result_schema_version;
  timeout_ms = s.runner_timeout_ms;
}

pub prepare-IsPrepared :
    (s : PmqaApplicationService) (a : Admission) (run_id invocation_id : String)
    (argument : ControlArgument) (p : Prepared)
    → prepare s a run_id invocation_id argument ≡ ok p
    → IsPreparedFor a run_id invocation_id argument p
unfolding prepare
prepare-IsPrepared s a run_id invocation_id argument p h =
    let (_, _, h1) =
      >>=-eq-ok (or_failure invalid_run_identifier (validate_run_identifier run_id)) _ h in
    let (_, _, h2) =
      >>=-eq-ok (or_failure invalid_run_identifier (validate_run_identifier invocation_id)) _ h1 in
    let (control, controlled, h3) = >>=-eq-ok (control_of argument) _ h2 in
    let (start, _, h4) = >>=-eq-ok (sample_clock s.clock) _ h3 in
    let (_, late, h5) =
      >>=-eq-ok (raise_if (ltb start a.request.requested_at) (failure invalid_application_clock)) _
        h4 in
    let (context, _, h6) =
      >>=-eq-ok (or_invalid (pmqa_run_context (context_of a.request run_id start))) _ h5 in
    let pending = pending_invocation a.request run_id invocation_id start in
    let (invocation, made, h7) = >>=-eq-ok (or_invalid (runner_invocation_record pending)) _ h6 in
    let same = invocation_same pending invocation (or_invalid-eq-ok _ made) in
    let (request, requested, h8) =
      >>=-eq-ok (or_invalid (runner_request (runner_request_of s a context invocation))) _ h7 in
    let built =
      runner_request_same (runner_request_of s a context invocation) request
        (or_invalid-eq-ok _ requested) in
    let prepared : IsPrepared a run_id invocation_id request =
      subst (IsPrepared a run_id invocation_id) (sym built) (
        subst (λ i. IsPrepared a run_id invocation_id (runner_request_of s a context i)) (sym same)
          (record {
            run_request = refl;
            run_id = refl;
            invocation_id = refl;
            runner_id = refl;
            operation = refl;
            step_id = refl;
            attempt_number = refl;
            retry_of = refl;
            fallback_from = refl;
            started = ltb-false _ _ (raise_if-eq-ok _ _ late);
            schema_id = refl;
            schema_version = refl;
          })) in
    subst (IsPreparedFor a run_id invocation_id argument) (sym (ok-inj h8))
      (refl, control_of-HasControl argument controlled, prepared)

pub or_failure-eq-ok {ℓ κ} :
    {E : Type κ} {A : Type ℓ} (code : ApplicationFailureCode) (r : Result E A) {a : A}
    → or_failure code r ≡ ok a
    → r ≡ ok a
or_failure-eq-ok code (ok b) h = cc
or_failure-eq-ok code (err e) h = cc
