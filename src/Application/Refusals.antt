-- ===== src/Application/Refusals.antt =====
-- Why `PMQAApplicationService.execute` finds no workflow or no runner for a request.
use pmqa.Application.Service.{
  admit, admit_workflow, admit_runner, Definition-discrete, Metadata-discrete, needs_approval,
  validate_live_definition, validate_live_metadata,
}
use pmqa.Application.Contracts.{
  workflow_input_schema_mismatch, runner_capability_mismatch, approval_required,
  invalid_application_request,
}
use pmqa.Application.Preparation.{or_failure-eq-ok}
use pmqa.Application.Statuses.{&&-intro}
use mathlib.Core.Path.{subst}
use pmqa.Base.{
  Result, ok, err, ◌>>=◌, raise_if, ◌≡◌, refl, ◌≢◌, ◌⊎◌, inl, inr, Bool, true, false, not, ◌&&◌,
  str_eq, eq_iff,
}
use mathlib.Core.Logic.{ite}
use pmqa.Base.{
  Result, ok, err, ◌>>=◌, raise_if, ◌≡◌, refl, ◌≢◌, ◌⊎◌, inl, inr, Bool, true, false, not,
}
use pmqa.Run.Identifiers.{Error}
use pmqa.Run.Requests.{RunRequest, request_snapshot}
use pmqa.Run.Definitions.{ApprovalMode}
use pmqa.Application.Contracts.{
  ApplicationFailureCode, Failure, failure, equals, invalid_application_request,
  workflow_input_schema_mismatch, workflow_definition_changed, runner_capability_mismatch,
  runner_metadata_changed, approval_required,
}
use pmqa.Application.Registry.{
  WorkflowRegistration, RunnerRegistration, resolve_workflow, resolve_runner,
}
use pmqa.Application.Service.{
  PmqaApplicationService, or_failure, validate_workflow_request, has_capabilities,
}

-- A reason not to admit a submitted request, and the failure that it is reported as.
pub data NotAdmitted (s : PmqaApplicationService) (submitted : RunRequest) : Failure → Type 0 where
  invalid_request :
      (e : Error)
      → request_snapshot submitted ≡ err e
      → NotAdmitted s submitted (failure invalid_application_request)
  unresolved_workflow :
      (request : RunRequest) (f : Failure)
      → request_snapshot submitted ≡ ok request
      → resolve_workflow s.printable s.workflows request.workflow_id request.workflow_version
        ≡ err f
      → NotAdmitted s submitted f
  wrong_schema :
      (request : RunRequest) (w : WorkflowRegistration)
      → request_snapshot submitted ≡ ok request
      → resolve_workflow s.printable s.workflows request.workflow_id request.workflow_version ≡ ok w
      → ¬ (
          (request.input_schema_id ≡ w.definition.input_schema_id)
          × (request.input_schema_version ≡ w.definition.input_schema_version))
      → NotAdmitted s submitted (failure workflow_input_schema_mismatch)
  changed_definition :
      (request : RunRequest) (w : WorkflowRegistration)
      → request_snapshot submitted ≡ ok request
      → resolve_workflow s.printable s.workflows request.workflow_id request.workflow_version ≡ ok w
      → w.adapter.live_definition ≢ w.definition
      → NotAdmitted s submitted (failure workflow_definition_changed)
  refused_input :
      (request : RunRequest) (w : WorkflowRegistration) (f : Failure)
      → request_snapshot submitted ≡ ok request
      → resolve_workflow s.printable s.workflows request.workflow_id request.workflow_version ≡ ok w
      → validate_workflow_request w.adapter request ≡ err f
      → NotAdmitted s submitted f
  unresolved_runner :
      (request : RunRequest) (f : Failure)
      → request_snapshot submitted ≡ ok request
      → resolve_runner s.printable s.runners request.runner_id ≡ err f
      → NotAdmitted s submitted f
  incapable_runner :
      (request : RunRequest) (w : WorkflowRegistration) (r : RunnerRegistration)
      → request_snapshot submitted ≡ ok request
      → admit_workflow s request ≡ ok w
      → resolve_runner s.printable s.runners request.runner_id ≡ ok r
      → has_capabilities w.definition.required_runner_capabilities r.metadata.capabilities ≡ false
      → NotAdmitted s submitted (failure runner_capability_mismatch)
  changed_metadata :
      (request : RunRequest) (r : RunnerRegistration)
      → request_snapshot submitted ≡ ok request
      → resolve_runner s.printable s.runners request.runner_id ≡ ok r
      → r.runner.live_metadata ≢ r.metadata
      → NotAdmitted s submitted (failure runner_metadata_changed)
  unapproved :
      (request : RunRequest) (w : WorkflowRegistration)
      → request_snapshot submitted ≡ ok request
      → admit_workflow s request ≡ ok w
      → w.definition.approval_mode ≡ ApprovalMode.pre_run
      → NotAdmitted s submitted (failure approval_required)

-- A body that raises does so in its first statement or in the rest after it.
pub >>=-eq-err {ℓ κ μ} :
    {E : Type ℓ} {A : Type κ} {B : Type μ} (first : Result E A) (rest : A → Result E B) {e : E}
    → (first >>= rest) ≡ err e
    → (first ≡ err e) ⊎ ((a : A) × (first ≡ ok a) × (rest a ≡ err e))
>>=-eq-err (err exception) rest raised = inl (cc)
>>=-eq-err (ok value) rest raised = inr (value, refl, raised)

pub raise_if-eq-err {ℓ} :
    {E : Type ℓ} (test : Bool) (exception : E) {e : E}
    → raise_if test exception ≡ err e
    → (test ≡ true) × (exception ≡ e)
raise_if-eq-err true exception h = (refl, cc)
raise_if-eq-err false exception h = cc

pub or_failure-eq-err {ℓ κ} :
    {E : Type κ} {A : Type ℓ} (code : ApplicationFailureCode) (r : Result E A) {f : Failure}
    → or_failure code r ≡ err f
    → ((e : E) × (r ≡ err e)) × (failure code ≡ f)
or_failure-eq-err code (ok a) h = cc
or_failure-eq-err code (err e) h = ((e, refl), cc)

was_false : (b : Bool) → not b ≡ true → b ≡ false
was_false true h = cc
was_false false h = refl

differs_of {ℓ} :
    {A : Type ℓ} (decide : Discrete A) (a b : A) → not (equals decide a b) ≡ true → a ≢ b
differs_of decide a b h = decided (decide a b) h
  where
    decided : (d : Dec (a ≡ b)) → not (ite d true false) ≡ true → a ≢ b
    decided (yes e) h = cc
    decided (no n) h = n

admit_workflow-NotAdmitted :
    (s : PmqaApplicationService) (submitted request : RunRequest) (f : Failure)
    → request_snapshot submitted ≡ ok request
    → admit_workflow s request ≡ err f
    → NotAdmitted s submitted f
unfolding admit_workflow validate_live_definition
admit_workflow-NotAdmitted s submitted request f snapshot h =
    elim (>>=-eq-err
      (resolve_workflow s.printable s.workflows request.workflow_id request.workflow_version) _ h) [
        | inl e ↦ unresolved_workflow request f snapshot e
        | inr (w, resolved, h1) ↦
            elim (>>=-eq-err
              (raise_if
                (not (
                  str_eq request.input_schema_id w.definition.input_schema_id
                  && str_eq request.input_schema_version w.definition.input_schema_version))
                (failure workflow_input_schema_mismatch))
              _ h1) [
                | inl e ↦
                    let (differs, code) = raise_if-eq-err _ _ e in
                    subst (NotAdmitted s submitted) code (
                      wrong_schema request w snapshot resolved (λ (a, b).
                        cc (differs, &&-intro _ _ ((eq_iff _ _).1 a) ((eq_iff _ _).1 b))))
                | inr (_, _, h2) ↦ elim (>>=-eq-err (validate_live_definition w) _ h2) [
                  | inl e ↦
                      let (differs, code) = raise_if-eq-err _ _ e in
                      subst (NotAdmitted s submitted) code (
                        changed_definition request w snapshot resolved
                          (differs_of Definition-discrete _ _ differs))
                  | inr (_, _, h3) ↦
                      elim (>>=-eq-err (validate_workflow_request w.adapter request) _ h3) [
                        | inl e ↦ refused_input request w f snapshot resolved e
                        | inr (_, _, h4) ↦ cc h4
                      ]
                ]
              ]
      ]

due : (mode : ApprovalMode) → needs_approval mode ≡ true → mode ≡ ApprovalMode.pre_run
due ApprovalMode.none_ h = cc
due ApprovalMode.pre_run h = refl

module _ (s : PmqaApplicationService) (submitted request : RunRequest)
    (w : WorkflowRegistration) where
  admit_runner-NotAdmitted :
      (f : Failure)
      → request_snapshot submitted ≡ ok request
      → admit_workflow s request ≡ ok w
      → admit_runner s request w ≡ err f
      → NotAdmitted s submitted f
  unfolding admit_runner validate_live_metadata
  admit_runner-NotAdmitted f snapshot fits h =
      elim (>>=-eq-err (resolve_runner s.printable s.runners request.runner_id) _ h) [
        | inl e ↦ unresolved_runner request f snapshot e
        | inr (r, resolved, h1) ↦
            elim (>>=-eq-err
              (raise_if
                (not (
                  has_capabilities w.definition.required_runner_capabilities
                    r.metadata.capabilities))
                (failure runner_capability_mismatch))
              _ h1) [
                | inl e ↦
                    let (lacks, code) = raise_if-eq-err _ _ e in
                    subst (NotAdmitted s submitted) code
                      (incapable_runner request w r snapshot fits resolved (was_false _ lacks))
                | inr (_, _, h2) ↦ elim (>>=-eq-err (validate_live_metadata r) _ h2) [
                  | inl e ↦
                      let (differs, code) = raise_if-eq-err _ _ e in
                      subst (NotAdmitted s submitted) code (
                        changed_metadata request r snapshot resolved
                          (differs_of Metadata-discrete _ _ differs))
                  | inr (_, _, h3) ↦
                      elim (>>=-eq-err
                        (raise_if (needs_approval w.definition.approval_mode)
                          (failure approval_required))
                        _ h3) [
                          | inl e ↦
                              let (needed, code) = raise_if-eq-err _ _ e in
                              subst (NotAdmitted s submitted) code
                                (unapproved request w snapshot fits (due _ needed))
                          | inr (_, _, h4) ↦ cc h4
                        ]
                ]
              ]
      ]

-- A request that is not admitted is refused for one of these reasons.
pub admit-NotAdmitted :
    (s : PmqaApplicationService) (submitted : RunRequest) (f : Failure)
    → admit s submitted ≡ err f
    → NotAdmitted s submitted f
unfolding admit
admit-NotAdmitted s submitted f h =
    elim (>>=-eq-err (or_failure invalid_application_request (request_snapshot submitted)) _ h) [
      | inl e ↦
          let ((error, raised), code) = or_failure-eq-err _ _ e in
          subst (NotAdmitted s submitted) code (invalid_request error raised)
      | inr (request, made, h1) ↦ elim (>>=-eq-err (admit_workflow s request) _ h1) [
        | inl e ↦ admit_workflow-NotAdmitted s submitted request f (or_failure-eq-ok _ _ made) e
        | inr (w, fits, h2) ↦ elim (>>=-eq-err (admit_runner s request w) _ h2) [
          | inl e ↦
              admit_runner-NotAdmitted s submitted request w f (or_failure-eq-ok _ _ made) fits e
          | inr (_, _, h3) ↦ cc h3
        ]
      ]
    ]
