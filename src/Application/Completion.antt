-- ===== src/Application/Completion.antt =====
-- That `_assemble_result` of pmqa/application/service.py returns.
use pmqa.Run.Records.{RunRecord, run_record, check_run, check_run_fields, dump_run}
use pmqa.Application.Contracts.{ApplicationRunResult, application_run_result}
use pmqa.Run.Plain.{is_plain_json}
use pmqa.Run.Invocations.{runner_invocation_record}
use pmqa.Run.Dumps.{check_tree}
use pmqa.Run.Attempts.{runner_invocation_record-IsAttempt}
use pmqa.Application.Constructed.{
  run_request-IsConstructed, runner_invocation_record-IsRecorded, runner_response-IsReturned,
}
use pmqa.Application.Contracts.{
  dump_application_result, application_run_result, Texts-discrete, Time-discrete, Errors-discrete,
  Artifacts-discrete, Result-discrete,
}
use pmqa.Application.Dispatch.{invocation_run_status}
use pmqa.Application.Statuses.{same_tables}
use pmqa.Application.Statuses.{
  passes, goes_on, equals_refl, str_eq_refl, references_eq_refl, same_status,
}
use pmqa.Base.{
  ok, ℕ, ◌≤◌, String, ◌≡◌, refl, sym, ap, ◌∙◌, true, false, not, Option, none, some, [], ◌∷◌, arith,
  str_eq, eq_iff, ltb, ◌==◌, is_some,
}
use mathlib.Core.Path.{subst}
use pmqa.Base.{
  ok, ℕ, ◌≤◌, String, ◌≡◌, refl, ◌∙◌, true, false, Option, none, some, [], ◌∷◌, arith, ltb, is_some,
}
use pmqa.Run.Identifiers.{validate_identifiers, validate_run_identifier}
use pmqa.Run.Attempts.{IsAttempt}
use pmqa.Application.Constructed.{add_one, IsConstructed, IsRecorded, IsReturned}
use pmqa.Application.Contracts.{
  is_single_attempt, is_of_response, is_of_invocation, is_of_request, check_application_result,
  run_status_by,
}
use pmqa.Application.Dispatch.{assemble_result, time_or, run_of}
use pmqa.Application.Statuses.{le→ltb, &&-false, both_terminal, result_fits}
use pmqa.Runners.Response.{runner_response, RunnerResponse}
use pmqa.Run.Records.{
  dump_run, run_record, contains, check_run_fields, check_run, RunStatus, has_duplicate,
}
use pmqa.Run.Texts.{check_array}
use pmqa.Run.Requests.{run_request, RunRequest}

completion : (o : Option ℕ) → is_some o ≡ true → (c : ℕ) × (o ≡ some c)
completion none h = cc
completion (some c) h = (c, refl)

same_number : (c : ℕ) → (c == c) ≡ true
same_number c = ground arith

same_not_less : (c : ℕ) → ltb c c ≡ false
same_not_less c = ground arith

nothing : validate_identifiers [] ≡ ok tt
unfolding validate_identifiers
nothing = refl

single_array : (id : String) → check_array (id ∷ []) ≡ ok tt
unfolding check_array
single_array id = refl

run_made :
    (r : RunRecord)
    → check_run_fields r ≡ ok tt
    → is_plain_json (dump_run r) ≡ true
    → check_run r ≡ ok tt
    → run_record r ≡ ok r
unfolding run_record check_tree
run_made r fields plain checked = goes_on (check_run_fields r) _ fields (
    goes_on (check_tree (dump_run r)) _ (passes _ _ (ap not plain))
      (goes_on (check_run r) _ checked refl))

result_made :
    (r : ApplicationRunResult)
    → is_plain_json (dump_application_result r) ≡ true
    → check_application_result r ≡ ok tt
    → application_run_result r ≡ ok r
unfolding application_run_result check_tree
result_made r plain checked =
    goes_on (check_tree (dump_application_result r)) _ (passes _ _ (ap not plain))
      (goes_on (check_application_result r) _ checked refl)

module _ (request : RunRequest) (response : RunnerResponse) (status : RunStatus)
    (constructed : IsConstructed request) (recorded : IsRecorded response.invocation)
    (attempt : IsAttempt response.invocation) (returned : IsReturned response)
    (mapped : run_status_by response.invocation.status ≡ some status) where
  fields_pass :
      response.invocation.runner_id ≡ request.runner_id
      → check_run_fields (run_of request response status) ≡ ok tt
  unfolding check_run_fields
  fields_pass same =
      let identifiers : validate_identifiers (
            response.invocation.run_id ∷ request.request_id ∷ request.session_id
            ∷ request.workflow_id ∷ request.workflow_version ∷ request.runner_id ∷ [])
          ≡ ok tt =
        add_one _ _ recorded.run_id (
          add_one _ _ constructed.request_id (
            add_one _ _ constructed.session_id (
              add_one _ _ constructed.workflow_id (
                add_one _ _ constructed.workflow_version (
                  add_one _ _
                    (subst (λ id. validate_run_identifier id ≡ ok tt) same recorded.runner_id)
                    nothing))))) in
      let single : check_array (response.invocation.invocation_id ∷ []) ≡ ok tt = single_array _ in
      rw (
        identifiers,
        constructed.references,
        returned.artifacts,
        recorded.errors,
        single,
        add_one response.invocation.invocation_id [] recorded.invocation_id nothing,
      )

  run_passes :
      request.requested_at ≤ response.invocation.started_at
      → check_run (run_of request response status) ≡ ok tt
  unfolding check_run has_duplicate contains
  run_passes order =
      let (terminal, terminal_run) = both_terminal _ _ mapped in
      let timed = attempt.timed ∙ terminal in
      let (c, p) = completion response.invocation.completed_at (attempt.completed ∙ terminal) in
      let since = attempt.order c p in
      let late : ltb c response.invocation.started_at ≡ false = le→ltb _ _ since in
      let early : ltb response.invocation.started_at request.requested_at ≡ false =
        le→ltb _ _ order in
      let itself : ltb c c ≡ false = same_not_less c in
      let fits = result_fits _ _ _ _ returned.outcome mapped in
      rw (
        p, timed, terminal_run, late, early, itself, &&-false, fits, constructed.unique,
        returned.unique,
      )

  result_passes :
      response.invocation.runner_id ≡ request.runner_id
      → is_single_attempt response.invocation ≡ true
      → check_application_result (record {
        run_request = request;
        run_record = run_of request response status;
        runner_response = response;
      })
        ≡ ok tt
  unfolding check_application_result is_of_request is_of_invocation is_of_response
  result_passes same single =
      let i = response.invocation in
      let (terminal, _) = both_terminal _ _ mapped in
      let (c, p) = completion i.completed_at (attempt.completed ∙ terminal) in
      let number : (i.started_at == i.started_at) ≡ true = same_number _ in
      let created : (request.requested_at == request.requested_at) ≡ true = same_number _ in
      let runner : str_eq request.runner_id i.runner_id ≡ true = (eq_iff _ _).1 (sym same) in
      let ids = equals_refl Texts-discrete (i.invocation_id ∷ []) (i.invocation_id ∷ []) refl in
      let completed = equals_refl Time-discrete i.completed_at i.completed_at refl in
      let timed = equals_refl Time-discrete i.duration_ms i.duration_ms refl in
      let errors = equals_refl Errors-discrete i.errors i.errors refl in
      let updated =
        equals_refl Time-discrete (some (time_or i.started_at i.completed_at)) i.completed_at
          (rw p) in
      let results = equals_refl Result-discrete response.result response.result refl in
      let artifacts = equals_refl Artifacts-discrete response.artifacts response.artifacts refl in
      rw (
        same_status i.status status mapped,
        single,
        str_eq_refl request.request_id,
        str_eq_refl request.session_id,
        str_eq_refl request.workflow_id,
        str_eq_refl request.workflow_version,
        str_eq_refl request.runner_id,
        str_eq_refl i.run_id,
        references_eq_refl,
        created,
        runner,
        ids,
        number,
        completed,
        timed,
        errors,
        updated,
        results,
        artifacts,
      )

-- A constructed request, and a constructed response of the runner that it names, whose invocation is
-- the single attempt and does not start before the request was made, are assembled into the run that
-- records them, with the status of the invocation, where the trees of the run and of
-- the whole result stay within the limits of plain JSON.
pub assemble_result_returns :
    (submitted request : RunRequest) (response : RunnerResponse) (status : RunStatus)
    → run_request submitted ≡ ok request
    → runner_invocation_record response.invocation ≡ ok response.invocation
    → runner_response response ≡ ok response
    → invocation_run_status response.invocation.status ≡ some status
    → response.invocation.runner_id ≡ request.runner_id
    → is_single_attempt response.invocation ≡ true
    → request.requested_at ≤ response.invocation.started_at
    → is_plain_json (dump_run (run_of request response status)) ≡ true
    → is_plain_json (
        dump_application_result (record {
          run_request = request;
          run_record = run_of request response status;
          runner_response = response;
        }))
      ≡ true
    → assemble_result request response
      ≡ ok (record {
        run_request = request;
        run_record = run_of request response status;
        runner_response = response;
      })
unfolding assemble_result
assemble_result_returns submitted request response status made invocation answer found same single
      order plain_run plain_result =
    let mapped = sym (same_tables response.invocation.status) ∙ found in
    let constructed = run_request-IsConstructed submitted request made in
    let recorded = runner_invocation_record-IsRecorded _ _ invocation in
    let attempt = runner_invocation_record-IsAttempt _ _ invocation in
    let returned = runner_response-IsReturned _ _ answer in
    let run =
      run_made (run_of request response status)
        (fields_pass request response status constructed recorded attempt returned mapped same)
        plain_run
        (run_passes request response status constructed recorded attempt returned mapped order) in
    let result =
      result_made
        (record {
          run_request = request;
          run_record = run_of request response status;
          runner_response = response;
        })
        plain_result
        (result_passes request response status constructed recorded attempt returned mapped same
          single) in
    rw (mapped, run, result)
