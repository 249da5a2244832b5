-- ===== src/Application/Lookup.antt =====
-- What the registries of pmqa/application/registry.py find.
use pmqa.Base.{ok-inj}
use mathlib.Core.Path.{subst}
use pmqa.Application.Registry.{
  PmqaWorkflowAdapter, workflow_registry, register_workflow, find_workflow, same_workflow,
  has_workflow, has_duplicate_workflow, max_application_registry_items, or_failed,
}
use pmqa.Run.Definitions.{definition_snapshot}
use pmqa.Application.Contracts.{invalid_workflow_registry}
use pmqa.Base.{
  collect, Result, ok, raise_if, >>=-eq-ok, raise_if-eq-ok, ℕ, String, ◌≡◌, refl, sym, ap, ◌∙◌, inl,
  inr, Bool, false, some, List, [], ◌∷◌, map, str_eq, eq_iff, ltb, Bool-cases, length, All,
}
use pmqa.Application.Contracts.{invalid_workflow_registry}
use pmqa.Application.Registry.{
  PmqaWorkflowAdapter, WorkflowRegistration, workflow_registry, register_workflow, has_workflow,
  has_duplicate_workflow, find_workflow, same_workflow, max_application_registry_items, or_failed,
}
use pmqa.Run.Definitions.{definition_snapshot}

-- Where each result gives its argument back, the results give the list back.
collect-map {ℓ κ μ} :
    {E : Type ℓ} {A : Type κ} {B : Type μ} (f : A → Result E B) (g : B → A)
    → ((a : A) (b : B) → f a ≡ ok b → g b ≡ a)
    → (items : List A) (values : List B) → collect f items ≡ ok values
    → map g values ≡ items
unfolding collect
collect-map f g back [] values h = ap (map g) (ok-inj h)
collect-map f g back (item ∷ rest) values h =
    let (value, first, h1) = >>=-eq-ok (f item) _ h in
    let (others, after, h2) = >>=-eq-ok (collect f rest) _ h1 in
    ap (map g) (ok-inj h2) ∙ (rw (back item value first, collect-map f g back rest others after))

text_sym : (a b : String) → str_eq a b ≡ str_eq b a
text_sym a b = elim (Bool-cases (str_eq a b)) [
  | inl e ↦ e ∙ sym ((eq_iff b a).1 (sym ((eq_iff a b).0 e)))
  | inr e ↦ elim (Bool-cases (str_eq b a)) [
    | inl k ↦ absurd (cc (e, (eq_iff a b).1 (sym ((eq_iff b a).0 k))))
    | inr k ↦ e ∙ sym k
  ]
]

others :
    (r : WorkflowRegistration) (rest : List WorkflowRegistration)
    → has_workflow r.definition.workflow_id r.definition.workflow_version rest ≡ false
    → All
        (λ q.
          same_workflow q.definition.workflow_id q.definition.workflow_version r.definition ≡ false)
        rest
unfolding has_workflow
others r [] h = tt
others r (q ∷ rest) h =
    elim (Bool-cases
      (same_workflow r.definition.workflow_id r.definition.workflow_version q.definition)) [
        | inl e ↦ absurd (cc (h, e))
        | inr e ↦ (
          rw
              (
                text_sym r.definition.workflow_id q.definition.workflow_id,
                text_sym r.definition.workflow_version q.definition.workflow_version,
              )
              e,
          others r rest (rw e at h),
        )
      ]

-- What is found further on is found where the first item does not match.
found_later :
    (r : WorkflowRegistration) (all rest : List WorkflowRegistration)
    → All
        (λ q.
          same_workflow q.definition.workflow_id q.definition.workflow_version r.definition ≡ false)
        rest
    → All
        (λ q. find_workflow q.definition.workflow_id q.definition.workflow_version all ≡ some q)
        rest
    → All
        (λ q.
          find_workflow q.definition.workflow_id q.definition.workflow_version (r ∷ all) ≡ some q)
        rest
unfolding find_workflow
found_later r all [] h k = tt
found_later r all (q ∷ rest) (differs, h) (here, k) =
    (rw (differs, here), found_later r all rest h k)

each_found :
    (rs : List WorkflowRegistration)
    → has_duplicate_workflow rs ≡ false
    → All (λ r. find_workflow r.definition.workflow_id r.definition.workflow_version rs ≡ some r) rs
unfolding has_duplicate_workflow find_workflow
each_found [] h = tt
each_found (r ∷ rest) h =
    elim (Bool-cases (has_workflow r.definition.workflow_id r.definition.workflow_version rest)) [
      | inl e ↦ absurd (cc (h, e))
      | inr e ↦ (
        rw (
          (eq_iff r.definition.workflow_id r.definition.workflow_id).1 refl,
          (eq_iff r.definition.workflow_version r.definition.workflow_version).1 refl,
        ),
        found_later r rest rest (others r rest e) (each_found rest (rw e at h)),
      )
    ]

adapter_of :
    (printable : ℕ → Bool) (a : PmqaWorkflowAdapter) (r : WorkflowRegistration)
    → register_workflow printable a ≡ ok r
    → r.adapter ≡ a
unfolding register_workflow
adapter_of printable a r h =
    let (snapshot, _, h1) =
      >>=-eq-ok (or_failed invalid_workflow_registry (definition_snapshot printable a.definition)) _
        h in
    ap (λ (q : WorkflowRegistration). q.adapter) (ok-inj h1)

-- A workflow registry that is constructed holds the given adapters in their order, and looking up
-- the identifier and version of any registration in it finds that registration.
pub find_workflow-workflow_registry :
    (printable : ℕ → Bool) (adapters : List PmqaWorkflowAdapter)
    (registry : List WorkflowRegistration)
    → workflow_registry printable adapters ≡ ok registry
    → (map (λ r. r.adapter) registry ≡ adapters)
      × All
          (λ r.
            find_workflow r.definition.workflow_id r.definition.workflow_version registry ≡ some r)
          registry
unfolding workflow_registry
find_workflow-workflow_registry printable adapters registry h =
    let (_, _, h1) =
      >>=-eq-ok
        (raise_if (ltb max_application_registry_items (length adapters)) invalid_workflow_registry)
        _ h in
    let (registrations, collected, h2) =
      >>=-eq-ok (collect (register_workflow printable) adapters) _ h1 in
    let (_, unique, h3) =
      >>=-eq-ok (raise_if (has_duplicate_workflow registrations) invalid_workflow_registry) _ h2 in
    let same = ok-inj h3 in
    (
      ap (map (λ r. r.adapter)) same
          ∙ collect-map (register_workflow printable) (λ r. r.adapter) (adapter_of printable)
              adapters registrations collected,
      subst
          (λ rs.
            All
              (λ r.
                find_workflow r.definition.workflow_id r.definition.workflow_version rs ≡ some r)
              rs)
          (sym same) (each_found registrations (raise_if-eq-ok _ _ unique)),
    )
