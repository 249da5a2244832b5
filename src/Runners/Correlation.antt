-- ===== src/Runners/Correlation.antt =====
-- What `validate_runner_response` lets through.
use pmqa.Base.{ok-inj}
use pmqa.Run.Texts.{check_array}
use pmqa.Run.Dumps.{check_tree}
use pmqa.Runners.Response.{runner_response, check_response, dump_response}
use pmqa.Base.{
  ok, raise_if, >>=-eq-ok, raise_if-eq-ok, ℕ, ◌≤◌, String, ◌≡◌, refl, ap, Bool, true, false, not,
  ◌||◌, Option, none, some, List, [], ◌∷◌, arith, str_eq, eq_iff, ltb, ◌==◌, ltb-false, &&-true,
  was_true, All,
}
use mathlib.Core.Path.{subst}
use pmqa.Run.Parts.{StructuredResult, RunArtifact}
use pmqa.Run.Invocations.{RunnerInvocationRecord, is_before}
use pmqa.Runners.Contracts.{RunnerRequest}
use pmqa.Runners.Response.{
  RunnerResponse, BoundaryError, option_eq, same_invocation, completed_since, has_foreign_artifact,
  has_schema, validate_runner_response,
}

-- An artifact is made during the invocation.
abbrev pub IsDuring : RunnerInvocationRecord → RunArtifact → Type 0
IsDuring i a =
    (i.started_at ≤ a.created_at) × ((c : ℕ) → i.completed_at ≡ some c → a.created_at ≤ c)

-- A response answers a request.
pub record IsAnswer (request : RunnerRequest) (response : RunnerResponse) : Type 0 where
  pub invocation_id : response.invocation.invocation_id ≡ request.invocation.invocation_id
  pub run_id : response.invocation.run_id ≡ request.invocation.run_id
  pub runner_id : response.invocation.runner_id ≡ request.invocation.runner_id
  pub operation : response.invocation.operation ≡ request.invocation.operation
  pub step_id : response.invocation.step_id ≡ request.invocation.step_id
  pub attempt_number : response.invocation.attempt_number ≡ request.invocation.attempt_number
  pub retry_of :
      response.invocation.retry_of_invocation_id ≡ request.invocation.retry_of_invocation_id
  pub fallback_from :
      response.invocation.fallback_from_invocation_id
      ≡ request.invocation.fallback_from_invocation_id
  pub started_at : response.invocation.started_at ≡ request.invocation.started_at
  pub completed : (c : ℕ) × (response.invocation.completed_at ≡ some c)
  pub artifacts : All (IsDuring response.invocation) response.artifacts
  pub schema :
      (r : StructuredResult)
      → response.result ≡ some r
      → (r.schema_id ≡ request.expected_result_schema_id)
        × (r.result_schema_version ≡ request.expected_result_schema_version)

text_of : (a b : String) → str_eq a b ≡ true → a ≡ b
text_of a b h = (eq_iff a b).0 h

option_of : (a b : Option String) → option_eq a b ≡ true → a ≡ b
option_of none none h = refl
option_of (some a) (some b) h = ap some (text_of a b h)
option_of none (some b) h = cc
option_of (some a) none h = cc

number_of : (m n : ℕ) → (m == n) ≡ true → m ≡ n
number_of m n h = ground arith

not_before : (o : Option ℕ) (t c : ℕ) → o ≡ some c → is_before o t ≡ false → t ≤ c
not_before none t c p h = cc
not_before (some u) t c p h = let same : u ≡ c = cc p in omega (arith, same, ltb-false u t h)

during :
    (i : RunnerInvocationRecord) (artifacts : List RunArtifact)
    → has_foreign_artifact i.started_at i.completed_at artifacts ≡ false
    → All (IsDuring i) artifacts
unfolding has_foreign_artifact
during i [] h = tt
during i (a ∷ rest) h =
    let (early, late, others) =
      three (ltb a.created_at i.started_at) (is_before i.completed_at a.created_at) _ h in
    (
      (ltb-false _ _ early, λ c p. not_before i.completed_at a.created_at c p late),
      during i rest others,
    )
  where
    three : (a b c : Bool) → (a || b || c) ≡ false → (a ≡ false) × (b ≡ false) × (c ≡ false)
    three a b c h = ground arith

completion : (o : Option ℕ) (start : ℕ) → completed_since o start ≡ true → (c : ℕ) × (o ≡ some c)
completion none start h = cc
completion (some c) start h = (c, refl)

schema_of :
    (o : Option StructuredResult) (id v : String)
    → has_schema o id v ≡ true
    → (r : StructuredResult) → o ≡ some r
    → (r.schema_id ≡ id) × (r.result_schema_version ≡ v)
schema_of none id v h r p = cc
schema_of (some q) id v h r p =
    let (a, b) = &&-true (str_eq q.schema_id id) (str_eq q.result_schema_version v) h in
    let same : q ≡ r = cc p in
    subst (λ (x : StructuredResult). (x.schema_id ≡ id) × (x.result_schema_version ≡ v)) same
      (text_of _ _ a, text_of _ _ b)

-- A response that passes is returned as it is. Its invocation is the requested one, started when it
-- was and completed; its artifacts were made in between; and its result has the expected schema.
pub validate_runner_response-IsAnswer :
    (request : RunnerRequest) (response out : RunnerResponse)
    → validate_runner_response request response ≡ ok out
    → (out ≡ response) × IsAnswer request response
unfolding validate_runner_response
validate_runner_response-IsAnswer request response out h =
    let actual = response.invocation in
    let expected = request.invocation in
    let (_, a, h1) =
      >>=-eq-ok (raise_if (not (same_invocation actual expected)) BoundaryError.boundary_error) _
        h in
    let (_, b, h2) =
      >>=-eq-ok
        (raise_if (not (completed_since actual.completed_at request.context.started_at))
          BoundaryError.boundary_error)
        _ h1 in
    let (_, c, h3) =
      >>=-eq-ok
        (raise_if (has_foreign_artifact actual.started_at actual.completed_at response.artifacts)
          BoundaryError.boundary_error)
        _ h2 in
    let (_, d, h4) =
      >>=-eq-ok
        (raise_if
          (not (
            has_schema response.result request.expected_result_schema_id
              request.expected_result_schema_version))
          BoundaryError.boundary_error)
        _ h3 in
    let (i8, e9) = &&-true _ _ (was_true _ (raise_if-eq-ok _ _ a)) in
    let (i7, e8) = &&-true _ _ i8 in
    let (i6, e7) = &&-true _ _ i7 in
    let (i5, e6) = &&-true _ _ i6 in
    let (i4, e5) = &&-true _ _ i5 in
    let (i3, e4) = &&-true _ _ i4 in
    let (i2, e3) = &&-true _ _ i3 in
    let (e1, e2) = &&-true _ _ i2 in
    (
      ok-inj h4,
      record {
        invocation_id = text_of _ _ e1;
        run_id = text_of _ _ e2;
        runner_id = text_of _ _ e3;
        operation = text_of _ _ e4;
        step_id = option_of _ _ e5;
        attempt_number = number_of _ _ e6;
        retry_of = option_of _ _ e7;
        fallback_from = option_of _ _ e8;
        started_at = number_of _ _ e9;
        completed = completion _ _ (was_true _ (raise_if-eq-ok _ _ b));
        artifacts = during actual response.artifacts (raise_if-eq-ok _ _ c);
        schema = schema_of _ _ _ (was_true _ (raise_if-eq-ok _ _ d));
      },
    )

-- The constructor of a response gives its argument back.
pub runner_response_same : (r q : RunnerResponse) → runner_response r ≡ ok q → q ≡ r
unfolding runner_response
runner_response_same r q h =
    let (_, _, h1) = >>=-eq-ok (check_array r.artifacts) _ h in
    let (_, _, h2) = >>=-eq-ok (check_tree (dump_response r)) _ h1 in
    let (_, _, h3) = >>=-eq-ok (check_response r) _ h2 in ok-inj h3
