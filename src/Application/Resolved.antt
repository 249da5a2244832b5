-- ===== src/Application/Resolved.antt =====
-- What the registries resolve.
use mathlib.Core.Path.{subst}
use mathlib.Core.List.{Mem, mem-cons_self, mem-cons_of_mem}
use pmqa.Base.{
  ok, >>=-eq-ok, ok-inj, ℕ, String, ◌≡◌, refl, ap, inl, inr, Bool, Option, none, some, List, [],
  ◌∷◌, str_eq, eq_iff, Bool-cases, &&-true,
}
use pmqa.Run.Definitions.{definition_snapshot}
use pmqa.Runners.Contracts.{metadata_snapshot}
use pmqa.Application.Contracts.{or_invalid}
use pmqa.Application.Registry.{
  WorkflowRegistration, RunnerRegistration, PmqaWorkflowAdapter, PmqaRunner, same_workflow,
  find_workflow, resolved_workflow, resolve_workflow, find_runner, resolved_runner, resolve_runner,
}

-- An adapter is registered under an identity.
pub record IsRegisteredAdapter (registry : List WorkflowRegistration) (id version : String)
    (adapter : PmqaWorkflowAdapter) : Type 0 where
  pub entry : WorkflowRegistration
  pub within : Mem entry registry
  pub workflow_id : entry.definition.workflow_id ≡ id
  pub workflow_version : entry.definition.workflow_version ≡ version
  pub adapter_is : adapter ≡ entry.adapter

-- A runner is registered under an identifier.
pub record IsRegisteredRunner (registry : List RunnerRegistration) (id : String)
    (runner : PmqaRunner) : Type 0 where
  pub entry : RunnerRegistration
  pub within : Mem entry registry
  pub runner_id : entry.metadata.runner_id ≡ id
  pub runner_is : runner ≡ entry.runner

find_workflow-Mem :
    (id version : String) (registry : List WorkflowRegistration) (w : WorkflowRegistration)
    → find_workflow id version registry ≡ some w
    → Mem w registry × (w.definition.workflow_id ≡ id) × (w.definition.workflow_version ≡ version)
unfolding find_workflow
find_workflow-Mem id version [] w h = cc
find_workflow-Mem id version (r ∷ rest) w h =
    elim (Bool-cases (same_workflow id version r.definition)) [
      | inl e ↦
          let same : r ≡ w = cc (rw e at h) in
          let (a, b) = &&-true _ _ e in
          subst
            (λ t.
              Mem t (r ∷ rest)
              × (t.definition.workflow_id ≡ id)
              × (t.definition.workflow_version ≡ version))
            same (mem-cons_self, (eq_iff _ _).0 a, (eq_iff _ _).0 b)
      | inr e ↦
          let (within, a, b) = find_workflow-Mem id version rest w (rw e at h) in
          (mem-cons_of_mem r within, a, b)
    ]

find_runner-Mem :
    (id : String) (registry : List RunnerRegistration) (r : RunnerRegistration)
    → find_runner id registry ≡ some r
    → Mem r registry × (r.metadata.runner_id ≡ id)
unfolding find_runner
find_runner-Mem id [] r h = cc
find_runner-Mem id (first ∷ rest) r h = elim (Bool-cases (str_eq first.metadata.runner_id id)) [
  | inl e ↦
      let same : first ≡ r = cc (rw e at h) in
      subst (λ t. Mem t (first ∷ rest) × (t.metadata.runner_id ≡ id)) same
        (mem-cons_self, (eq_iff _ _).0 e)
  | inr e ↦
      let (within, a) = find_runner-Mem id rest r (rw e at h) in (mem-cons_of_mem first within, a)
]

resolved_workflow_entry :
    (printable : ℕ → Bool) (o : Option WorkflowRegistration) (w : WorkflowRegistration)
    → resolved_workflow printable o ≡ ok w
    → (entry : WorkflowRegistration) × (o ≡ some entry) × (w.adapter ≡ entry.adapter)
resolved_workflow_entry printable none w h = cc
resolved_workflow_entry printable (some entry) w h =
    let (_, _, h1) = >>=-eq-ok (or_invalid (definition_snapshot printable entry.definition)) _ h in
    (entry, refl, ap (λ (x : WorkflowRegistration). x.adapter) (ok-inj h1))

resolved_runner_entry :
    (printable : ℕ → Bool) (o : Option RunnerRegistration) (r : RunnerRegistration)
    → resolved_runner printable o ≡ ok r
    → (entry : RunnerRegistration) × (o ≡ some entry) × (r.runner ≡ entry.runner)
resolved_runner_entry printable none r h = cc
resolved_runner_entry printable (some entry) r h =
    let (_, _, h1) = >>=-eq-ok (or_invalid (metadata_snapshot printable entry.metadata)) _ h in
    (entry, refl, ap (λ (x : RunnerRegistration). x.runner) (ok-inj h1))

pub resolve_workflow-IsRegisteredAdapter :
    (printable : ℕ → Bool) (registry : List WorkflowRegistration) (id version : String)
    (w : WorkflowRegistration)
    → resolve_workflow printable registry id version ≡ ok w
    → IsRegisteredAdapter registry id version w.adapter
unfolding resolve_workflow
resolve_workflow-IsRegisteredAdapter printable registry id version w h =
    let (entry, found, adapter) =
      resolved_workflow_entry printable (find_workflow id version registry) w h in
    let (within, a, b) = find_workflow-Mem id version registry entry found in
    record {
      entry = entry;
      within = within;
      workflow_id = a;
      workflow_version = b;
      adapter_is = adapter;
    }

pub resolve_runner-IsRegisteredRunner :
    (printable : ℕ → Bool) (registry : List RunnerRegistration) (id : String)
    (r : RunnerRegistration)
    → resolve_runner printable registry id ≡ ok r
    → IsRegisteredRunner registry id r.runner
unfolding resolve_runner
resolve_runner-IsRegisteredRunner printable registry id r h =
    let (entry, found, runner) = resolved_runner_entry printable (find_runner id registry) r h in
    let (within, a) = find_runner-Mem id registry entry found in
    record { entry = entry; within = within; runner_id = a; runner_is = runner }
