-- ===== src/Run/Lifecycle.antt =====
-- What the records of runs promise.
use pmqa.Base.{ok-inj}
use pmqa.Base.{
  ok, raise_if, >>=-eq-ok, raise_if-eq-ok, ℕ, ◌≤◌, String, ◌≡◌, ◌≢◌, inl, inr, Bool, true, false,
  not, ◌&&◌, Option, none, some, List, [], ◌∷◌, map, arith, str_eq, eq_iff, ltb, ltb-false,
  Bool-cases, is_some, All,
}
use pmqa.Run.Dumps.{check_tree}
use pmqa.Run.Identifiers.{
  completion_incomplete, completion_mismatch, completed_before_started, started_before_created,
  updated_before_started, completed_after_updated, step_while_not_running,
  result_while_not_successful, duplicate_reference, duplicate_artifact,
}
use pmqa.Run.Invocations.{is_before}
use pmqa.Workflow.Models.{differs}
use pmqa.Run.Records.{
  dump_run, is_terminal_run, is_run_running, is_successful, RunRecord, is_after, contains,
  has_duplicate, has_duplicate_reference, check_run_fields, check_run, run_record,
}

-- No two items are equal.
abbrev pub IsUnique : List String → Type 0
IsUnique [] = Unit
IsUnique (item ∷ rest) = All (λ other. other ≢ item) rest × IsUnique rest

-- What a constructed record promises.
pub record IsLifecycle (r : RunRecord) : Type 0 where
  pub completed : is_some r.completed_at ≡ is_terminal_run r.status
  pub timed : is_some r.duration_ms ≡ is_terminal_run r.status
  pub order : (r.created_at ≤ r.started_at) × (r.started_at ≤ r.updated_at)
  pub completion_order : (c : ℕ) → r.completed_at ≡ some c → (r.started_at ≤ c) × (c ≤ r.updated_at)
  pub step : is_some r.current_step_id ≡ true → is_run_running r.status ≡ true
  pub successful : is_some r.result ≡ true → is_successful r.status ≡ true
  pub artifacts : IsUnique (map (λ artifact. artifact.artifact_id) r.artifacts)
  pub invocations : IsUnique r.runner_invocation_ids

contains-All :
    (value : String) (items : List String)
    → contains value items ≡ false
    → All (λ other. other ≢ value) items
unfolding contains
contains-All value [] h = tt
contains-All value (item ∷ rest) h = elim (Bool-cases (str_eq item value)) [
  | inl e ↦ absurd (cc (h, e))
  | inr e ↦ (λ p. cc (e, (eq_iff item value).1 p), contains-All value rest (rw e at h))
]

has_duplicate-IsUnique : (items : List String) → has_duplicate items ≡ false → IsUnique items
unfolding has_duplicate
has_duplicate-IsUnique [] h = tt
has_duplicate-IsUnique (item ∷ rest) h = elim (Bool-cases (contains item rest)) [
  | inl e ↦ absurd (cc (h, e))
  | inr e ↦ (contains-All item rest e, has_duplicate-IsUnique rest (rw e at h))
]

-- A constructed run has a completion time and a duration exactly if its status is terminal. It is
-- created, started, completed and updated in this order. It has a current step only while it is
-- running and a result only if it was successful, and its artifacts and invocations have different
-- identifiers.
pub run_record-IsLifecycle : (r q : RunRecord) → run_record r ≡ ok q → IsLifecycle r
unfolding run_record check_run
run_record-IsLifecycle r q h =
    let (_, _, h0) = >>=-eq-ok (check_run_fields r) _ h in
    let (_, _, ht) = >>=-eq-ok (check_tree (dump_run r)) _ h0 in
    let (_, checked, _) = >>=-eq-ok (check_run r) _ ht in
    let (_, a, h1) =
      >>=-eq-ok
        (raise_if (differs (not (is_some r.completed_at)) (not (is_some r.duration_ms)))
          completion_incomplete)
        _ checked in
    let (_, b, h2) =
      >>=-eq-ok
        (raise_if
          (differs (is_terminal_run r.status) (is_some r.completed_at && is_some r.duration_ms))
          completion_mismatch)
        _ h1 in
    let (_, c, h3) =
      >>=-eq-ok (raise_if (is_before r.completed_at r.started_at) completed_before_started) _ h2 in
    let (_, d, h4) =
      >>=-eq-ok (raise_if (ltb r.started_at r.created_at) started_before_created) _ h3 in
    let (_, e, h5) =
      >>=-eq-ok (raise_if (ltb r.updated_at r.started_at) updated_before_started) _ h4 in
    let (_, f, h6) =
      >>=-eq-ok (raise_if (is_after r.completed_at r.updated_at) completed_after_updated) _ h5 in
    let (_, g, h7) =
      >>=-eq-ok
        (raise_if (not (is_run_running r.status) && is_some r.current_step_id)
          step_while_not_running)
        _ h6 in
    let (_, i, h8) =
      >>=-eq-ok
        (raise_if (is_some r.result && not (is_successful r.status)) result_while_not_successful) _
        h7 in
    let (_, _, h9) =
      >>=-eq-ok (raise_if (has_duplicate_reference r.references) duplicate_reference) _ h8 in
    let (_, k, l) =
      >>=-eq-ok
        (raise_if (has_duplicate (map (λ artifact. artifact.artifact_id) r.artifacts))
          duplicate_artifact)
        _ h9 in
    record {
      completed =
          both (is_some r.completed_at) (is_some r.duration_ms) (is_terminal_run r.status)
            (raise_if-eq-ok _ _ a) (raise_if-eq-ok _ _ b);
      timed =
          both' (is_some r.completed_at) (is_some r.duration_ms) (is_terminal_run r.status)
            (raise_if-eq-ok _ _ a) (raise_if-eq-ok _ _ b);
      order = (ltb-false _ _ (raise_if-eq-ok _ _ d), ltb-false _ _ (raise_if-eq-ok _ _ e));
      completion_order =
          λ t p. between t r.completed_at p (raise_if-eq-ok _ _ c) (raise_if-eq-ok _ _ f);
      step =
          λ p. needs (is_run_running r.status) (is_some r.current_step_id) (raise_if-eq-ok _ _ g) p;
      successful = λ p. needs' (is_successful r.status) (is_some r.result) (raise_if-eq-ok _ _ i) p;
      artifacts = has_duplicate-IsUnique _ (raise_if-eq-ok _ _ k);
      invocations = has_duplicate-IsUnique _ (raise_if-eq-ok _ _ l);
    }
  where
    both : (a b t : Bool) → differs (not a) (not b) ≡ false → differs t (a && b) ≡ false → a ≡ t
    both a b t h k = ground arith

    both' : (a b t : Bool) → differs (not a) (not b) ≡ false → differs t (a && b) ≡ false → b ≡ t
    both' a b t h k = ground arith

    between :
        (t : ℕ) (o : Option ℕ)
        → o ≡ some t
        → is_before o r.started_at ≡ false
        → is_after o r.updated_at ≡ false
        → (r.started_at ≤ t) × (t ≤ r.updated_at)
    between t none p h k = cc
    between t (some u) p h k =
        let same : u ≡ t = cc p in
        omega (arith, same, ltb-false u r.started_at h, ltb-false r.updated_at u k)

    needs : (a b : Bool) → (not a && b) ≡ false → b ≡ true → a ≡ true
    needs a b h k = ground arith

    needs' : (a b : Bool) → (b && not a) ≡ false → b ≡ true → a ≡ true
    needs' a b h k = ground arith

-- The constructor of a record gives its argument back.
pub run_record_same : (r q : RunRecord) → run_record r ≡ ok q → q ≡ r
unfolding run_record
run_record_same r q h =
    let (_, _, h1) = >>=-eq-ok (check_run_fields r) _ h in
    let (_, _, h2) = >>=-eq-ok (check_tree (dump_run r)) _ h1 in
    let (_, _, h3) = >>=-eq-ok (check_run r) _ h2 in ok-inj h3
