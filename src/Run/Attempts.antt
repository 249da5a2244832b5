-- ===== src/Run/Attempts.antt =====
-- What the records of runner invocations promise.
use pmqa.Base.{
  ok, raise_if, >>=-eq-ok, raise_if-eq-ok, ok-inj, ℕ, ◌≤◌, ◌<◌, String, ◌≡◌, ◌≢◌, Bool, false, not,
  ◌&&◌, Option, none, some, arith, eq_iff, ltb, ◌==◌, ltb-false, is_some,
}
use pmqa.Base.{
  ok, raise_if, >>=-eq-ok, raise_if-eq-ok, ℕ, ◌≤◌, ◌<◌, String, ◌≡◌, ◌≢◌, Bool, false, not, ◌&&◌,
  Option, none, some, arith, eq_iff, ltb, ◌==◌, ltb-false, is_some,
}
use pmqa.Workflow.Models.{differs}
use pmqa.Run.Dumps.{check_tree}
use pmqa.Run.Identifiers.{
  completion_incomplete, completion_mismatch, completed_before_started, retry_of_itself,
  fallback_from_itself, first_with_predecessor,
}
use pmqa.Run.Invocations.{
  dump_invocation, RunnerInvocationRecord, is_terminal_invocation, is_before, is_text,
  predecessor_count, check_invocation_fields, check_invocation, runner_invocation_record,
}

pub record IsAttempt (r : RunnerInvocationRecord) : Type 0 where
  pub completed : is_some r.completed_at ≡ is_terminal_invocation r.status
  pub timed : is_some r.duration_ms ≡ is_terminal_invocation r.status
  pub order : (c : ℕ) → r.completed_at ≡ some c → r.started_at ≤ c
  pub first : r.attempt_number ≡ 1 → predecessor_count r ≡ 0
  pub later : 1 < r.attempt_number → predecessor_count r ≡ 1
  pub no_retry_loop : r.retry_of_invocation_id ≢ some r.invocation_id
  pub no_fallback_loop : r.fallback_from_invocation_id ≢ some r.invocation_id

pub not_itself : (o : Option String) (s : String) → is_text o s ≡ false → o ≢ some s
not_itself none s h p = cc
not_itself (some a) s h p = let same : a ≡ s = cc p in cc (h, (eq_iff a s).1 same)

not_before : (t c : ℕ) (o : Option ℕ) → o ≡ some c → is_before o t ≡ false → t ≤ c
not_before t c none p h = cc
not_before t c (some u) p h = let same : u ≡ c = cc p in omega (arith, same, ltb-false u t h)

-- A constructed invocation has a completion time and a duration exactly if its status is terminal,
-- and is not completed before it is started. A first attempt has no predecessor and a later one has
-- exactly one, and no invocation is its own predecessor.
pub runner_invocation_record-IsAttempt :
    (r q : RunnerInvocationRecord) → runner_invocation_record r ≡ ok q → IsAttempt r
unfolding runner_invocation_record check_invocation
runner_invocation_record-IsAttempt r q h =
    let (_, _, h0) = >>=-eq-ok (check_invocation_fields r) _ h in
    let (_, _, ht) = >>=-eq-ok (check_tree (dump_invocation r)) _ h0 in
    let (_, checked, _) = >>=-eq-ok (check_invocation r) _ ht in
    let (_, a, h1) =
      >>=-eq-ok
        (raise_if (differs (not (is_some r.completed_at)) (not (is_some r.duration_ms)))
          completion_incomplete)
        _ checked in
    let (_, b, h2) =
      >>=-eq-ok
        (raise_if
          (differs (is_terminal_invocation r.status)
            (is_some r.completed_at && is_some r.duration_ms))
          completion_mismatch)
        _ h1 in
    let (_, c, h3) =
      >>=-eq-ok (raise_if (is_before r.completed_at r.started_at) completed_before_started) _ h2 in
    let (_, d, h4) =
      >>=-eq-ok (raise_if (is_text r.retry_of_invocation_id r.invocation_id) retry_of_itself) _
        h3 in
    let (_, e, h5) =
      >>=-eq-ok
        (raise_if (is_text r.fallback_from_invocation_id r.invocation_id) fallback_from_itself) _
        h4 in
    let (_, f, g) =
      >>=-eq-ok
        (raise_if (r.attempt_number == 1 && not (predecessor_count r == 0)) first_with_predecessor)
        _ h5 in
    record {
      completed =
          both (is_some r.completed_at) (is_some r.duration_ms) (is_terminal_invocation r.status)
            (raise_if-eq-ok _ _ a) (raise_if-eq-ok _ _ b);
      timed =
          both' (is_some r.completed_at) (is_some r.duration_ms) (is_terminal_invocation r.status)
            (raise_if-eq-ok _ _ a) (raise_if-eq-ok _ _ b);
      order = λ t p. not_before r.started_at t r.completed_at p (raise_if-eq-ok _ _ c);
      first = λ p. counts (r.attempt_number) 1 (predecessor_count r) 0 p (raise_if-eq-ok _ _ f);
      later = λ p. counts' (r.attempt_number) (predecessor_count r) p (raise_if-eq-ok _ _ g);
      no_retry_loop = not_itself _ _ (raise_if-eq-ok _ _ d);
      no_fallback_loop = not_itself _ _ (raise_if-eq-ok _ _ e);
    }
  where
    both : (a b t : Bool) → differs (not a) (not b) ≡ false → differs t (a && b) ≡ false → a ≡ t
    both a b t h k = ground arith

    both' : (a b t : Bool) → differs (not a) (not b) ≡ false → differs t (a && b) ≡ false → b ≡ t
    both' a b t h k = ground arith

    counts : (m k n l : ℕ) → m ≡ k → (m == k && not (n == l)) ≡ false → n ≡ l
    counts m k n l p h = ground arith

    counts' : (m n : ℕ) → 1 < m → (ltb 1 m && not (n == 1)) ≡ false → n ≡ 1
    counts' m n p h = ground arith

-- The constructor of an invocation gives its argument back.
pub invocation_same : (r q : RunnerInvocationRecord) → runner_invocation_record r ≡ ok q → q ≡ r
unfolding runner_invocation_record
invocation_same r q h =
    let (_, _, h1) = >>=-eq-ok (check_invocation_fields r) _ h in
    let (_, _, h2) = >>=-eq-ok (check_tree (dump_invocation r)) _ h1 in
    let (_, _, h3) = >>=-eq-ok (check_invocation r) _ h2 in ok-inj h3
