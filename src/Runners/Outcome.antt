-- ===== src/Runners/Outcome.antt =====
-- The errors and the result that `MockRunner.execute` answers with, by the status.
use pmqa.Base.{
  ok, raise_if, >>=-eq-ok, ok-inj, String, ◌≡◌, refl, sym, false, not, Option, none, some, List, [],
  ◌∷◌,
}
use pmqa.Run.Dumps.{check_tree}
use mathlib.Core.Path.{subst}
use pmqa.Base.{String, false}
use pmqa.Values.{Value, Entries, Key}
use pmqa.Run.Parts.{RunErrorCategory}
use pmqa.Run.Identifiers.{validate_identifiers, not_an_object}
use pmqa.Workflow.Payload.{freeze}
use pmqa.Run.Json.{freeze_json, safe_payload_mapping, validate_safe_json, is_dict}
use pmqa.Run.Dumps.{dump_result}
use pmqa.Runners.Mock.{expected_result}
use pmqa.Base.{
  ok, raise_if, >>=-eq-ok, ok-inj, ◌≡◌, refl, sym, not, Option, none, some, List, [], ◌∷◌,
}
use pmqa.Run.Parts.{StructuredResult, RunError}
use pmqa.Run.Build.{structured_result, optionally}
use pmqa.Run.Invocations.{RunnerInvocationStatus}
use pmqa.Runners.Contracts.{RunnerRequest}
use pmqa.Runners.Mock.{mock_result, mock_errors}

-- One error, with a code and a category, that is not to be retried.
abbrev pub HasError : String → RunErrorCategory → List RunError → Type 0
HasError code category errors =
    (e : RunError) × (errors ≡ e ∷ [])
    × (e.code ≡ code)
    × (e.category ≡ category)
    × (e.retryable ≡ false)

-- A result of the expected schema whose data name an outcome.
abbrev pub HasResult : RunnerRequest → String → Option StructuredResult → Type 0
HasResult request outcome o =
    (r : StructuredResult) × (o ≡ some r)
    × (r.schema_id ≡ request.expected_result_schema_id)
    × (r.result_schema_version ≡ request.expected_result_schema_version)
    × (r.data_ ≡ Value.frozen (Entries.entry (Key.name "outcome") (Value.text outcome) Entries.end))

-- The errors and the result that go with a status.
abbrev pub HasOutcome :
    RunnerInvocationStatus → RunnerRequest → List RunError → Option StructuredResult → Type 0
HasOutcome RunnerInvocationStatus.succeeded request errors o =
    (errors ≡ []) × HasResult request "succeeded" o
HasOutcome RunnerInvocationStatus.partially_succeeded request errors o =
    HasError "runner.mock.partial" RunErrorCategory.execution errors
    × HasResult request "partially_succeeded" o
HasOutcome RunnerInvocationStatus.cancelled request errors o =
    HasError "runner.mock.cancelled" RunErrorCategory.cancelled errors × (o ≡ none)
HasOutcome _ request errors o =
    HasError "runner.mock.failed" RunErrorCategory.execution errors × (o ≡ none)

result_kept :
    (r q : StructuredResult)
    → structured_result r ≡ ok q
    → (q.schema_id ≡ r.schema_id)
      × (q.result_schema_version ≡ r.result_schema_version)
      × (q.data_ ≡ freeze_json r.data_)
unfolding structured_result safe_payload_mapping
result_kept r q h =
    let (_, _, h1) =
      >>=-eq-ok (validate_identifiers (r.schema_id ∷ r.result_schema_version ∷ [])) _ h in
    let (data', made, h2) = >>=-eq-ok (safe_payload_mapping r.data_) _ h1 in
    let (_, _, h3) = >>=-eq-ok (check_tree (dump_result (record r { data_ = data' }))) _ h2 in
    let (_, _, k1) = >>=-eq-ok (validate_safe_json 0 0 r.data_) _ made in
    let (_, _, k2) = >>=-eq-ok (raise_if (not (is_dict r.data_)) not_an_object) _ k1 in
    subst
      (λ (x : StructuredResult).
        (x.schema_id ≡ r.schema_id)
        × (x.result_schema_version ≡ r.result_schema_version)
        × (x.data_ ≡ freeze_json r.data_))
      (sym (ok-inj h3)) (refl, refl, ok-inj k2)

-- A result that is there is the constructed one.
result_built :
    (r : StructuredResult) (o : Option StructuredResult)
    → optionally structured_result (some r) ≡ ok o
    → (q : StructuredResult) × (o ≡ some q) × (structured_result r ≡ ok q)
result_built r o h = let (q, made, h1) = >>=-eq-ok (structured_result r) _ h in (q, ok-inj h1, made)

success_HasResult :
    (request : RunnerRequest) (o : Option StructuredResult)
    → optionally structured_result (mock_result request RunnerInvocationStatus.succeeded) ≡ ok o
    → HasResult request "succeeded" o
unfolding freeze
success_HasResult request o h =
    let (q, there, made) =
      result_built (expected_result request RunnerInvocationStatus.succeeded) o h in
    let (id, version, data_) = result_kept _ q made in (q, there, id, version, data_)

partial_HasResult :
    (request : RunnerRequest) (o : Option StructuredResult)
    → optionally structured_result (mock_result request RunnerInvocationStatus.partially_succeeded)
      ≡ ok o
    → HasResult request "partially_succeeded" o
unfolding freeze
partial_HasResult request o h =
    let (q, there, made) =
      result_built (expected_result request RunnerInvocationStatus.partially_succeeded) o h in
    let (id, version, data_) = result_kept _ q made in (q, there, id, version, data_)

pub HasOutcome_of :
    (status : RunnerInvocationStatus) (request : RunnerRequest) (errors : List RunError)
    (o : Option StructuredResult)
    → errors ≡ mock_errors status
    → optionally structured_result (mock_result request status) ≡ ok o
    → HasOutcome status request errors o
HasOutcome_of RunnerInvocationStatus.succeeded request errors o e h =
    (e, success_HasResult request o h)
HasOutcome_of RunnerInvocationStatus.partially_succeeded request errors o e h =
    ((_, e, refl, refl, refl), partial_HasResult request o h)
HasOutcome_of RunnerInvocationStatus.cancelled request errors o e h =
    ((_, e, refl, refl, refl), ok-inj h)
HasOutcome_of RunnerInvocationStatus.failed request errors o e h =
    ((_, e, refl, refl, refl), ok-inj h)
HasOutcome_of RunnerInvocationStatus.pending request errors o e h =
    ((_, e, refl, refl, refl), ok-inj h)
HasOutcome_of RunnerInvocationStatus.running request errors o e h =
    ((_, e, refl, refl, refl), ok-inj h)
