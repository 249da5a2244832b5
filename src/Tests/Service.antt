-- ===== src/Tests/Service.antt =====
-- A request that the application executes, and a runner that answers it.
use pmqa.Application.Contracts.{ApplicationRunResult}
use pmqa.Application.Dispatch.{run_of}
use pmqa.Application.Contracts.{ApplicationRunResult}
use pmqa.Run.Records.{RunRecord, RunStatus}
use pmqa.Base.{true, none, some, List, [], ◌∷◌}
use pmqa.Values.{Value, Entries}
use pmqa.Run.Requests.{RunRequest}
use pmqa.Run.Definitions.{WorkflowDefinition, ApprovalMode}
use pmqa.Runners.Contracts.{RunnerMetadata, RunnerRequest}
use pmqa.Runners.Response.{RunnerResponse}
use pmqa.Run.Invocations.{RunnerInvocationRecord, RunnerInvocationStatus}
use pmqa.Application.Registry.{WorkflowRegistration, Signal, Reply, PmqaWorkflowAdapter, PmqaRunner}
use pmqa.Application.Service.{PmqaApplicationService, Admission}
use pmqa.Application.Dispatch.{context_of, pending_invocation}
use pmqa.Run.Parts.{StructuredResult}

abbrev pub request : RunRequest
request = record {
  request_id = "request-1";
  session_id = "session-1";
  workflow_id = "map.login";
  workflow_version = "1";
  runner_id = "mock";
  input_schema_id = "map.input";
  input_schema_version = "1";
  inputs = Value.dict Entries.end;
  references = [];
  requested_at = 10;
}

abbrev pub admitted_request : RunRequest
admitted_request = record request { inputs = Value.frozen Entries.end }

abbrev pub definition : WorkflowDefinition
definition = record {
  workflow_id = "map.login";
  workflow_version = "1";
  display_name = "Login";
  description = "Maps the login.";
  input_schema_id = "map.input";
  input_schema_version = "1";
  result_schema_id = "map.result";
  result_schema_version = "1";
  preview_steps = [];
  required_runner_capabilities = "map" ∷ [];
  approval_mode = ApprovalMode.none_;
}

abbrev pub metadata : RunnerMetadata
metadata = record {
  runner_id = "mock";
  runner_version = "1";
  display_name = "Mock";
  capabilities = "map" ∷ [];
}

abbrev pub invocation : RunnerInvocationRecord
invocation = record {
  invocation_id = "call-1";
  run_id = "run-1";
  runner_id = "mock";
  operation = "application.execute-workflow";
  step_id = none;
  status = RunnerInvocationStatus.succeeded;
  started_at = 20;
  completed_at = some 30;
  duration_ms = some 10;
  attempt_number = 1;
  retry_of_invocation_id = none;
  fallback_from_invocation_id = none;
  errors = [];
}

abbrev pub outcome : StructuredResult
outcome = record {
  schema_id = "map.result";
  result_schema_version = "1";
  data_ = Value.dict Entries.end;
}

abbrev pub response : RunnerResponse
response = record { invocation = invocation; result = some outcome; artifacts = [] }

abbrev pub adapter : PmqaWorkflowAdapter
adapter = record {
  definition = definition;
  live_definition = definition;
  validate_request = λ r. Signal.accepted;
  validate_result = λ r. Signal.accepted;
}

abbrev pub runner : PmqaRunner
runner = record {
  metadata = metadata;
  live_metadata = metadata;
  execute = λ r control. Reply.response response;
}

abbrev pub service : PmqaApplicationService
service = record {
  workflows = record { definition = definition; adapter = adapter } ∷ [];
  runners = record { metadata = metadata; runner = runner } ∷ [];
  clock = some (record { is_aware = true; instant = 20 });
  runner_timeout_ms = 1000;
  printable = λ c. true;
}

abbrev pub admission : Admission
admission = record {
  request = admitted_request;
  workflow = record { definition = definition; adapter = adapter };
  runner = record { metadata = metadata; runner = runner };
}

abbrev pub dispatched : RunnerRequest
dispatched = record {
  run_request = admitted_request;
  context = context_of admitted_request "run-1" 20;
  invocation = pending_invocation admitted_request "run-1" "call-1" 20;
  expected_result_schema_id = "map.result";
  expected_result_schema_version = "1";
  timeout_ms = 1000;
}

abbrev pub frozen_outcome : StructuredResult
frozen_outcome = record outcome { data_ = Value.frozen Entries.end }

abbrev pub answer : RunnerResponse
answer = record response { result = some frozen_outcome }

abbrev pub run : RunRecord
run = run_of admitted_request answer RunStatus.succeeded

abbrev pub result : ApplicationRunResult
result = record { run_request = admitted_request; run_record = run; runner_response = answer }

-- A second version of the workflow.
abbrev pub second : PmqaWorkflowAdapter
second = record adapter { definition = record definition { workflow_version = "2" } }

abbrev pub registry : List WorkflowRegistration
registry =
    record { definition = definition; adapter = adapter }
    ∷ record { definition = second.definition; adapter = second }
    ∷ []
