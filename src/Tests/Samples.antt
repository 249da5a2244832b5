-- ===== src/Tests/Samples.antt =====
-- A workflow, its agents, and states between their turns.
use pmqa.Base.{ℕ, String, true, none, some, [], ◌∷◌}
use pmqa.Values.{Value, Entries, Key}
use pmqa.Workflow.Models.{DateTime, AgentRole, WorkflowState, WorkflowStatus, TerminationReason}
use pmqa.Workflow.Updates.{WorkflowStatePatch, empty_patch, agent_update_policy}
use pmqa.Workflow.Agents.{AgentExecutionStatus, PmqaAgent}
use pmqa.Orchestration.{Agents}

-- An aware time.
abbrev pub time : ℕ → DateTime
time n = record { instant = n; is_aware = true }

-- A frozen mapping with one item.
abbrev pub mapping : String → String → Value
mapping key item = Value.frozen (Entries.entry (Key.name key) (Value.text item) Entries.end)

abbrev pub page_evidence : Value
page_evidence = mapping "path" "/login"

abbrev pub verdict : String → Value
verdict status = mapping "status" status

abbrev pub fresh : WorkflowState
fresh = record {
  workflow_id = "w1";
  workflow_type = "knowledge";
  product_id = "demo";
  product_version = "1";
  goal = "map the login page";
  status = WorkflowStatus.pending;
  current_agent = none;
  next_agent = none;
  iteration = 0;
  max_iterations = 2;
  product_context = Value.frozen Entries.end;
  evidence = [];
  knowledge_candidates = [];
  validation_results = [];
  reasoning_trace_ids = [];
  step_history = [];
  warnings = [];
  errors = [];
  termination_reason = none;
  created_at = time 10;
  updated_at = time 12;
}

-- The workflow when it is the Explorer's turn.
abbrev pub routed : WorkflowState
routed = record fresh { status = WorkflowStatus.running; next_agent = some AgentRole.explorer }

-- The workflow after one turn of the Explorer.
abbrev pub explored : WorkflowState
explored = record fresh {
  status = WorkflowStatus.running;
  iteration = 1;
  evidence = page_evidence ∷ [];
}

-- A workflow with no evidence and no iterations left.
abbrev pub exhausted : WorkflowState
exhausted = record fresh { status = WorkflowStatus.running; iteration = 2 }

-- The workflow when it has been terminated.
abbrev pub terminated : WorkflowState
terminated = record exhausted {
  status = WorkflowStatus.terminated;
  termination_reason = some TerminationReason.max_iterations;
}

-- A patch that adds evidence and a warning.
abbrev pub evidence_patch : WorkflowStatePatch
evidence_patch = record empty_patch {
  evidence_to_add = page_evidence ∷ [];
  warnings_to_add = "slow page" ∷ [];
}

-- A patch that adds evidence.
abbrev pub explorer_patch : WorkflowStatePatch
explorer_patch = record empty_patch { evidence_to_add = page_evidence ∷ [] }

-- An agent that answers every request with a patch.
abbrev pub agent_with : AgentRole → WorkflowStatePatch → PmqaAgent
agent_with role patch = record {
  role = role;
  capability_role = role;
  allowed_patch_fields = agent_update_policy role;
  invoke = λ request. some (record {
    workflow_id = request.workflow_id;
    agent = role;
    invocation_id = request.invocation_id;
    patch = patch;
    completed_at = request.requested_at;
    outcome_status = AgentExecutionStatus.succeeded;
    summary = Value.frozen Entries.end;
    reasoning_trace_id = none;
    warnings = [];
    errors = [];
  });
}

abbrev pub agents : Agents
agents =
    (AgentRole.explorer, agent_with AgentRole.explorer explorer_patch)
    ∷ (AgentRole.knowledge, agent_with AgentRole.knowledge empty_patch)
    ∷ (AgentRole.validator, agent_with AgentRole.validator empty_patch)
    ∷ []
