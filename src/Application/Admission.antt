-- ===== src/Application/Admission.antt =====
-- What `execute` admits.
use pmqa.Application.Service.{admit_workflow, admit_runner}
use pmqa.Application.Registry.{WorkflowRegistration, RunnerRegistration}
use pmqa.Base.{
  ok, raise_if, >>=-eq-ok, raise_if-eq-ok, ok-inj, ◌≡◌, refl, sym, ◌∙◌, true, false, not, ◌&&◌,
  str_eq, eq_iff, &&-true, was_true,
}
use pmqa.Application.Registry.{resolve_runner, resolve_workflow}
use pmqa.Application.Preparation.{SameRequest, request_snapshot-SameRequest, or_failure-eq-ok}
use pmqa.Base.{
  ok, raise_if, >>=-eq-ok, raise_if-eq-ok, ◌≡◌, refl, sym, ◌∙◌, true, false, not, ◌&&◌, str_eq,
  eq_iff, &&-true, was_true,
}
use mathlib.Core.Path.{subst}
use pmqa.Application.Resolved.{
  IsRegisteredAdapter, IsRegisteredRunner, resolve_workflow-IsRegisteredAdapter,
  resolve_runner-IsRegisteredRunner,
}
use pmqa.Application.Registry.{PmqaWorkflowAdapter, Signal}
use pmqa.Application.Contracts.{ApplicationFailureCode, or_invalid}
use pmqa.Application.Service.{answered}
use pmqa.Application.Preparation.{from_dict-IsCopy, or_invalid-eq-ok}
use pmqa.Run.Plain.{plain_json_equal}
use pmqa.Run.Requests.{dump_request, rebuild_request}
use mathlib.Core.Logic.{ite}
use pmqa.Run.Definitions.{ApprovalMode}
use pmqa.Application.Contracts.{
  invalid_application_request, equals, workflow_input_schema_mismatch, runner_capability_mismatch,
  approval_required,
}
use pmqa.Application.Service.{
  admit, has_capabilities, needs_approval, validate_live_definition, validate_live_metadata,
  validate_workflow_request, Definition-discrete, Metadata-discrete,
}
use pmqa.Run.Requests.{RunRequest, request_snapshot}
use pmqa.Application.Contracts.{failure}
use pmqa.Application.Service.{PmqaApplicationService, Admission, or_failure}

-- An adapter has accepted a copy of a request, which has the same tree.
abbrev pub HasAcceptedInput : PmqaWorkflowAdapter → RunRequest → Type 0
HasAcceptedInput adapter request =
    (q : RunRequest) × (plain_json_equal (dump_request request) (dump_request q) ≡ true)
    × SameRequest request q
    × (adapter.validate_request q ≡ Signal.accepted)

pub answered-eq-ok :
    (code : ApplicationFailureCode) (signal : Signal)
    → answered code signal ≡ ok tt
    → signal ≡ Signal.accepted
answered-eq-ok code Signal.accepted h = refl
answered-eq-ok code Signal.rejected h = cc
answered-eq-ok code Signal.raised h = cc

request_snapshot-IsCopy :
    (r q : RunRequest)
    → request_snapshot r ≡ ok q
    → plain_json_equal (dump_request r) (dump_request q) ≡ true
unfolding request_snapshot
request_snapshot-IsCopy r q h = from_dict-IsCopy dump_request (dump_request r) (rebuild_request r) h

validate_workflow_request-HasAcceptedInput :
    (adapter : PmqaWorkflowAdapter) (request : RunRequest)
    → validate_workflow_request adapter request ≡ ok tt
    → HasAcceptedInput adapter request
unfolding validate_workflow_request
validate_workflow_request-HasAcceptedInput adapter request h =
    let (q, snapshot, h1) = >>=-eq-ok (or_invalid (request_snapshot request)) _ h in
    let read = or_invalid-eq-ok _ snapshot in
    (
      q,
      request_snapshot-IsCopy request q read,
      request_snapshot-SameRequest request q read,
      answered-eq-ok _ _ h1,
    )

-- What a request was admitted with: the workflow and the runner that are registered as it names
-- them, with schemas, declarations and capabilities that fit, an input that the adapter accepts,
-- and no approval due.
pub record IsAdmitted (s : PmqaApplicationService) (submitted : RunRequest) (a : Admission)
    : Type 0 where
  pub same : SameRequest submitted a.request
  pub workflow :
      IsRegisteredAdapter s.workflows submitted.workflow_id submitted.workflow_version
        a.workflow.adapter
  pub runner : IsRegisteredRunner s.runners submitted.runner_id a.runner.runner
  pub input_schema_id : submitted.input_schema_id ≡ a.workflow.definition.input_schema_id
  pub input_schema_version :
      submitted.input_schema_version ≡ a.workflow.definition.input_schema_version
  pub definition : a.workflow.adapter.live_definition ≡ a.workflow.definition
  pub metadata : a.runner.runner.live_metadata ≡ a.runner.metadata
  pub capabilities :
      has_capabilities a.workflow.definition.required_runner_capabilities
        a.runner.metadata.capabilities
      ≡ true
  pub approval : a.workflow.definition.approval_mode ≡ ApprovalMode.none_
  pub accepted : HasAcceptedInput a.workflow.adapter a.request

equals_of {ℓ} : {A : Type ℓ} (decide : Discrete A) (a b : A) → equals decide a b ≡ true → a ≡ b
equals_of decide a b h = decided (decide a b) h
  where
    decided : (d : Dec (a ≡ b)) → ite d true false ≡ true → a ≡ b
    decided (yes e) h = e
    decided (no n) h = cc

approved : (mode : ApprovalMode) → needs_approval mode ≡ false → mode ≡ ApprovalMode.none_
approved ApprovalMode.none_ h = refl
approved ApprovalMode.pre_run h = cc

-- What the workflow of a request was found with.
record IsFitting (s : PmqaApplicationService) (request : RunRequest) (w : WorkflowRegistration)
    : Type 0 where
  resolved :
      resolve_workflow s.printable s.workflows request.workflow_id request.workflow_version ≡ ok w
  schema_id : request.input_schema_id ≡ w.definition.input_schema_id
  schema_version : request.input_schema_version ≡ w.definition.input_schema_version
  live : w.adapter.live_definition ≡ w.definition
  accepted : HasAcceptedInput w.adapter request

admit_workflow-IsFitting :
    (s : PmqaApplicationService) (request : RunRequest) (w : WorkflowRegistration)
    → admit_workflow s request ≡ ok w
    → IsFitting s request w
unfolding admit_workflow validate_live_definition
admit_workflow-IsFitting s request w h =
    let (found, resolved, h1) =
      >>=-eq-ok
        (resolve_workflow s.printable s.workflows request.workflow_id request.workflow_version) _
        h in
    let (_, schema, h2) =
      >>=-eq-ok
        (raise_if
          (not (
            str_eq request.input_schema_id found.definition.input_schema_id
            && str_eq request.input_schema_version found.definition.input_schema_version))
          (failure workflow_input_schema_mismatch))
        _ h1 in
    let (_, live, h3) = >>=-eq-ok (validate_live_definition found) _ h2 in
    let (_, judged, h4) = >>=-eq-ok (validate_workflow_request found.adapter request) _ h3 in
    let (schema_id, schema_version) = &&-true _ _ (was_true _ (raise_if-eq-ok _ _ schema)) in
    subst (IsFitting s request) (sym (ok-inj h4)) (record {
      resolved = resolved;
      schema_id = (eq_iff _ _).0 schema_id;
      schema_version = (eq_iff _ _).0 schema_version;
      live = equals_of Definition-discrete _ _ (was_true _ (raise_if-eq-ok _ _ live));
      accepted = validate_workflow_request-HasAcceptedInput found.adapter request judged;
    })

-- What the runner of a request was found with.
record IsCapable (s : PmqaApplicationService) (request : RunRequest) (w : WorkflowRegistration)
    (r : RunnerRegistration) : Type 0 where
  resolved : resolve_runner s.printable s.runners request.runner_id ≡ ok r
  capabilities :
      has_capabilities w.definition.required_runner_capabilities r.metadata.capabilities ≡ true
  live : r.runner.live_metadata ≡ r.metadata
  approval : w.definition.approval_mode ≡ ApprovalMode.none_

admit_runner-IsCapable :
    (s : PmqaApplicationService) (request : RunRequest) (w : WorkflowRegistration)
    (r : RunnerRegistration)
    → admit_runner s request w ≡ ok r
    → IsCapable s request w r
unfolding admit_runner validate_live_metadata
admit_runner-IsCapable s request w r h =
    let (found, resolved, h1) =
      >>=-eq-ok (resolve_runner s.printable s.runners request.runner_id) _ h in
    let (_, able, h2) =
      >>=-eq-ok
        (raise_if
          (not (
            has_capabilities w.definition.required_runner_capabilities found.metadata.capabilities))
          (failure runner_capability_mismatch))
        _ h1 in
    let (_, declared, h3) = >>=-eq-ok (validate_live_metadata found) _ h2 in
    let (_, free, h4) =
      >>=-eq-ok (raise_if (needs_approval w.definition.approval_mode) (failure approval_required)) _
        h3 in
    subst (IsCapable s request w) (sym (ok-inj h4)) (record {
      resolved = resolved;
      capabilities = was_true _ (raise_if-eq-ok _ _ able);
      live = equals_of Metadata-discrete _ _ (was_true _ (raise_if-eq-ok _ _ declared));
      approval = approved _ (raise_if-eq-ok _ _ free);
    })

pub admit-IsAdmitted :
    (s : PmqaApplicationService) (submitted : RunRequest) (a : Admission)
    → admit s submitted ≡ ok a
    → IsAdmitted s submitted a
unfolding admit
admit-IsAdmitted s submitted a h =
    let (request, snapshot, h1) =
      >>=-eq-ok (or_failure invalid_application_request (request_snapshot submitted)) _ h in
    let same = request_snapshot-SameRequest submitted request (or_failure-eq-ok _ _ snapshot) in
    let (workflow, found, h2) = >>=-eq-ok (admit_workflow s request) _ h1 in
    let (runner, chosen, h3) = >>=-eq-ok (admit_runner s request workflow) _ h2 in
    let fitting = admit_workflow-IsFitting s request workflow found in
    let capable = admit_runner-IsCapable s request workflow runner chosen in
    subst (IsAdmitted s submitted) (sym (ok-inj h3)) (record {
      same = same;
      workflow =
          subst (λ v. IsRegisteredAdapter s.workflows submitted.workflow_id v workflow.adapter)
            same.workflow_version
            (subst
              (λ id. IsRegisteredAdapter s.workflows id request.workflow_version workflow.adapter)
              same.workflow_id
              (resolve_workflow-IsRegisteredAdapter s.printable s.workflows _ _ workflow
                fitting.resolved));
      runner =
          subst (λ id. IsRegisteredRunner s.runners id runner.runner) same.runner_id
            (resolve_runner-IsRegisteredRunner s.printable s.runners _ runner capable.resolved);
      accepted = fitting.accepted;
      input_schema_id = sym same.input_schema_id ∙ fitting.schema_id;
      input_schema_version = sym same.input_schema_version ∙ fitting.schema_version;
      definition = fitting.live;
      metadata = capable.live;
      capabilities = capable.capabilities;
      approval = capable.approval;
    })
