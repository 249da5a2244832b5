-- ===== src/Application/Constructed.antt =====
-- What the constructors of the contracts of an attempt establish.
use pmqa.Base.{ok-inj}
use pmqa.Run.Invocations.{check_invocation_fields, runner_invocation_record, RunnerInvocationRecord}
use pmqa.Base.{
  ok, raise_if, >>=-eq-ok, raise_if-eq-ok, String, ◌≡◌, sym, false, List, [], ◌∷◌, map, ◌==◌,
  is_some,
}
use mathlib.Core.Path.{subst}
use pmqa.Base.{
  ok, raise_if, >>=-eq-ok, raise_if-eq-ok, String, ◌≡◌, sym, false, List, [], ◌∷◌, map, ◌==◌,
  is_some,
}
use pmqa.Run.Dumps.{check_tree}
use pmqa.Run.Identifiers.{
  attempt_below_one, validate_optional, duplicate_reference, validate_identifiers,
  validate_run_identifier,
}
use pmqa.Application.Statuses.{goes_on}
use pmqa.Runners.Response.{
  check_response, RunnerResponse, runner_response, dump_response, check_outcome,
}
use pmqa.Run.Records.{has_duplicate, has_duplicate_reference}
use pmqa.Run.Texts.{check_array}
use pmqa.Run.Requests.{RunRequest, run_request, dump_request}
use pmqa.Run.Json.{safe_payload_mapping}

one_more :
    (value : String) (rest : List String)
    → validate_identifiers (value ∷ rest) ≡ ok tt
    → (validate_run_identifier value ≡ ok tt) × (validate_identifiers rest ≡ ok tt)
unfolding validate_identifiers
one_more value rest h =
    let (_, first, others) = >>=-eq-ok (validate_run_identifier value) _ h in (first, others)

pub add_one :
    (value : String) (rest : List String)
    → validate_run_identifier value ≡ ok tt
    → validate_identifiers rest ≡ ok tt
    → validate_identifiers (value ∷ rest) ≡ ok tt
unfolding validate_identifiers
add_one value rest h k = goes_on (validate_run_identifier value) _ h k

-- What a constructed request gives to the record of its run.
pub record IsConstructed (r : RunRequest) : Type 0 where
  pub request_id : validate_run_identifier r.request_id ≡ ok tt
  pub session_id : validate_run_identifier r.session_id ≡ ok tt
  pub workflow_id : validate_run_identifier r.workflow_id ≡ ok tt
  pub workflow_version : validate_run_identifier r.workflow_version ≡ ok tt
  pub references : check_array r.references ≡ ok tt
  pub unique : has_duplicate_reference r.references ≡ false

pub run_request-IsConstructed : (r q : RunRequest) → run_request r ≡ ok q → IsConstructed q
unfolding run_request
run_request-IsConstructed r q h =
    let (_, identifiers, h1) =
      >>=-eq-ok
        (validate_identifiers (
          r.request_id ∷ r.session_id ∷ r.workflow_id ∷ r.workflow_version ∷ r.runner_id
          ∷ r.input_schema_id ∷ r.input_schema_version ∷ []))
        _ h in
    let (inputs, _, h2) = >>=-eq-ok (safe_payload_mapping r.inputs) _ h1 in
    let (_, array, h3) = >>=-eq-ok (check_array r.references) _ h2 in
    let (_, _, h4) = >>=-eq-ok (check_tree (dump_request (record r { inputs = inputs }))) _ h3 in
    let (_, unique, h5) =
      >>=-eq-ok (raise_if (has_duplicate_reference r.references) duplicate_reference) _ h4 in
    let (a, i1) = one_more _ _ identifiers in
    let (b, i2) = one_more _ _ i1 in
    let (c, i3) = one_more _ _ i2 in
    let (d, _) = one_more _ _ i3 in
    subst IsConstructed (sym (ok-inj h5)) (record {
      request_id = a;
      session_id = b;
      workflow_id = c;
      workflow_version = d;
      references = array;
      unique = raise_if-eq-ok _ _ unique;
    })

-- What a constructed invocation gives.
pub record IsRecorded (r : RunnerInvocationRecord) : Type 0 where
  pub invocation_id : validate_run_identifier r.invocation_id ≡ ok tt
  pub run_id : validate_run_identifier r.run_id ≡ ok tt
  pub runner_id : validate_run_identifier r.runner_id ≡ ok tt
  pub errors : check_array r.errors ≡ ok tt

pub runner_invocation_record-IsRecorded :
    (r q : RunnerInvocationRecord) → runner_invocation_record r ≡ ok q → IsRecorded r
unfolding runner_invocation_record check_invocation_fields
runner_invocation_record-IsRecorded r q h =
    let (_, h0, _) = >>=-eq-ok (check_invocation_fields r) _ h in
    let (_, identifiers, h1) =
      >>=-eq-ok (validate_identifiers (r.invocation_id ∷ r.run_id ∷ r.runner_id ∷ r.operation ∷ []))
        _ h0 in
    let (_, _, h2) = >>=-eq-ok (validate_optional r.step_id) _ h1 in
    let (_, _, h3) = >>=-eq-ok (raise_if (r.attempt_number == 0) attempt_below_one) _ h2 in
    let (_, _, h4) = >>=-eq-ok (validate_optional r.retry_of_invocation_id) _ h3 in
    let (_, _, h5) = >>=-eq-ok (validate_optional r.fallback_from_invocation_id) _ h4 in
    let (a, i1) = one_more _ _ identifiers in
    let (b, i2) = one_more _ _ i1 in
    let (c, _) = one_more _ _ i2 in
    record { invocation_id = a; run_id = b; runner_id = c; errors = h5 }

-- What a constructed response gives.
pub record IsReturned (r : RunnerResponse) : Type 0 where
  pub artifacts : check_array r.artifacts ≡ ok tt
  pub outcome : check_outcome r.invocation.status (is_some r.result) r.invocation.errors ≡ ok tt
  pub unique : has_duplicate (map (λ artifact. artifact.artifact_id) r.artifacts) ≡ false

pub runner_response-IsReturned : (r q : RunnerResponse) → runner_response r ≡ ok q → IsReturned r
unfolding runner_response check_response
runner_response-IsReturned r q h =
    let (_, array, h1) = >>=-eq-ok (check_array r.artifacts) _ h in
    let (_, _, h2) = >>=-eq-ok (check_tree (dump_response r)) _ h1 in
    let (_, checked, _) = >>=-eq-ok (check_response r) _ h2 in
    let (_, outcome, h3) =
      >>=-eq-ok (check_outcome r.invocation.status (is_some r.result) r.invocation.errors) _
        checked in
    record { artifacts = array; outcome = outcome; unique = raise_if-eq-ok _ _ h3 }
