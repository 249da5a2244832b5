-- ===== src/Usage/Lifecycle.antt =====
-- What the records of model invocations promise.
use pmqa.Run.Attempts.{not_itself}
use pmqa.Base.{
  ok, raise_if, >>=-eq-ok, raise_if-eq-ok, ok-inj, ℕ, ◌≤◌, ◌<◌, ◌≡◌, refl, sym, ap, ◌≢◌, Bool,
  false, not, ◌&&◌, Option, none, some, arith, ltb, ◌==◌, ltb-false, is_some,
}
use pmqa.Runners.Response.{is_cancellation}
use pmqa.Run.Identifiers.{classified_cancelled}
use pmqa.Base.{
  ok, raise_if, >>=-eq-ok, raise_if-eq-ok, ok-inj, ℕ, ◌≤◌, ◌<◌, ◌≡◌, refl, sym, ap, ◌≢◌, Bool,
  false, not, ◌&&◌, Option, none, some, arith, ltb, ◌==◌, ltb-false, is_some,
}
use mathlib.Core.Path.{subst}
use pmqa.Workflow.Models.{differs}
use pmqa.Run.Parts.{RunErrorCategory}
use pmqa.Run.Identifiers.{
  completed_before_started, late_pricing, model_or_reason, retry_of_itself, fallback_from_itself,
  first_with_predecessor,
}
use pmqa.Run.Dumps.{check_tree, from_dict}
use pmqa.Run.Invocations.{is_text}
use pmqa.Run.Records.{is_after}
use pmqa.Application.Preparation.{from_dict-eq-ok}
use pmqa.Usage.Evidence.{dump_usage, token_usage_evidence}
use pmqa.Usage.Costs.{dump_cost, rebuild_cost}
use pmqa.Usage.Accounts.{IsAccount, token_usage_evidence-IsAccount}
use pmqa.Usage.Invocations.{
  AiInvocationRecord, AiInvocationStatus, ai_predecessor_count, check_metadata_values,
  check_category, check_ai_lifecycle, check_ai_fields, dump_ai_invocation, ai_invocation_record,
}

-- The category of the error that a status goes with.
abbrev pub HasCategory : AiInvocationStatus → Option RunErrorCategory → Type 0
HasCategory AiInvocationStatus.succeeded category = category ≡ none
HasCategory AiInvocationStatus.cancelled category = category ≡ some RunErrorCategory.cancelled
HasCategory AiInvocationStatus.failed category =
    (c : RunErrorCategory) × (category ≡ some c) × (c ≢ RunErrorCategory.cancelled)

-- What a constructed record promises.
pub record IsAccounted (given r : AiInvocationRecord) : Type 0 where
  pub order : r.started_at ≤ r.completed_at
  pub pricing : (t : ℕ) → r.cost.pricing_effective_at ≡ some t → t ≤ r.started_at
  pub model : is_some r.model ≡ not (is_some r.model_unavailable_reason)
  pub first : r.attempt_number ≡ 1 → ai_predecessor_count r ≡ 0
  pub later : 1 < r.attempt_number → ai_predecessor_count r ≡ 1
  pub no_retry_loop : r.retry_of_invocation_id ≢ some r.invocation_id
  pub no_fallback_loop : r.fallback_from_invocation_id ≢ some r.invocation_id
  pub category : HasCategory r.status r.error_category
  pub usage : IsAccount given.usage r.usage

category_of :
    (status : AiInvocationStatus) (category : Option RunErrorCategory)
    → check_category status category ≡ ok tt
    → HasCategory status category
unfolding check_category
category_of AiInvocationStatus.succeeded none h = refl
category_of AiInvocationStatus.succeeded (some c) h = cc
category_of AiInvocationStatus.cancelled none h = cc
category_of AiInvocationStatus.cancelled (some RunErrorCategory.cancelled) h = refl
category_of AiInvocationStatus.cancelled (some RunErrorCategory.validation) h = cc
category_of AiInvocationStatus.cancelled (some RunErrorCategory.configuration) h = cc
category_of AiInvocationStatus.cancelled (some RunErrorCategory.execution) h = cc
category_of AiInvocationStatus.cancelled (some RunErrorCategory.timeout) h = cc
category_of AiInvocationStatus.cancelled (some RunErrorCategory.provider) h = cc
category_of AiInvocationStatus.cancelled (some RunErrorCategory.internal) h = cc
category_of AiInvocationStatus.failed none h = cc
category_of AiInvocationStatus.failed (some c) h = (
  c,
  refl,
  λ p. cc (ap is_cancellation p, raise_if-eq-ok (is_cancellation c) classified_cancelled h),
)

not_after : (o : Option ℕ) (b t : ℕ) → is_after o b ≡ false → o ≡ some t → t ≤ b
not_after none b t h p = cc
not_after (some u) b t h p = let same : u ≡ t = cc p in omega (arith, same, ltb-false b u h)

-- The correlation of an invocation.
record IsCorrelated (r : AiInvocationRecord) : Type 0 where
  model : is_some r.model ≡ not (is_some r.model_unavailable_reason)
  first : r.attempt_number ≡ 1 → ai_predecessor_count r ≡ 0
  later : 1 < r.attempt_number → ai_predecessor_count r ≡ 1
  no_retry_loop : r.retry_of_invocation_id ≢ some r.invocation_id
  no_fallback_loop : r.fallback_from_invocation_id ≢ some r.invocation_id

check_metadata_values-IsCorrelated :
    (r : AiInvocationRecord) → check_metadata_values r ≡ ok tt → IsCorrelated r
unfolding check_metadata_values
check_metadata_values-IsCorrelated r h =
    let (_, a, h1) =
      >>=-eq-ok
        (raise_if (not (differs (is_some r.model) (is_some r.model_unavailable_reason)))
          model_or_reason)
        _ h in
    let (_, b, h2) =
      >>=-eq-ok (raise_if (is_text r.retry_of_invocation_id r.invocation_id) retry_of_itself) _
        h1 in
    let (_, c, h3) =
      >>=-eq-ok
        (raise_if (is_text r.fallback_from_invocation_id r.invocation_id) fallback_from_itself) _
        h2 in
    let (_, d, e) =
      >>=-eq-ok
        (raise_if (r.attempt_number == 1 && not (ai_predecessor_count r == 0))
          first_with_predecessor)
        _ h3 in
    record {
      model = either _ _ (raise_if-eq-ok _ _ a);
      first = λ p. none_of _ _ p (raise_if-eq-ok _ _ d);
      later = λ p. one_of _ _ p (raise_if-eq-ok _ _ e);
      no_retry_loop = not_itself _ _ (raise_if-eq-ok _ _ b);
      no_fallback_loop = not_itself _ _ (raise_if-eq-ok _ _ c);
    }
  where
    either : (a b : Bool) → not (differs a b) ≡ false → a ≡ not b
    either a b h = ground arith

    none_of : (m n : ℕ) → m ≡ 1 → (m == 1 && not (n == 0)) ≡ false → n ≡ 0
    none_of m n p h = ground arith

    one_of : (m n : ℕ) → 1 < m → (ltb 1 m && not (n == 1)) ≡ false → n ≡ 1
    one_of m n p h = ground arith

-- A constructed record of an invocation of a model is not completed before it is started, and not
-- priced by what takes effect later. It has a model or a reason for its absence, but not both. A
-- first attempt has no predecessor and a later one exactly one, never itself. Its error fits its
-- status, and its usage accounts for every field of the given usage.
pub ai_invocation_record-IsAccounted :
    (given r : AiInvocationRecord) → ai_invocation_record given ≡ ok r → IsAccounted given r
unfolding ai_invocation_record check_ai_lifecycle check_metadata_values
ai_invocation_record-IsAccounted given r h =
    let (_, _, h1) = >>=-eq-ok (check_ai_fields given) _ h in
    let (usage, used, h2) =
      >>=-eq-ok (from_dict dump_usage (dump_usage given.usage) (token_usage_evidence given.usage)) _
        h1 in
    let (cost, _, h3) =
      >>=-eq-ok (from_dict dump_cost (dump_cost given.cost) (rebuild_cost given.cost)) _ h2 in
    let kept : AiInvocationRecord = record given { usage = usage; cost = cost } in
    let (_, _, h4) = >>=-eq-ok (check_tree (dump_ai_invocation kept)) _ h3 in
    let (_, checked, h5) = >>=-eq-ok (check_ai_lifecycle kept) _ h4 in
    let (_, a, k1) =
      >>=-eq-ok (raise_if (ltb kept.completed_at kept.started_at) completed_before_started) _
        checked in
    let (_, b, k2) =
      >>=-eq-ok (raise_if (is_after cost.pricing_effective_at kept.started_at) late_pricing) _ k1 in
    let (_, metadata, k3) = >>=-eq-ok (check_metadata_values kept) _ k2 in
    let correlated = check_metadata_values-IsCorrelated kept metadata in
    subst (IsAccounted given) (sym (ok-inj h5)) (record {
      order = ltb-false _ _ (raise_if-eq-ok _ _ a);
      pricing = λ t p. not_after _ _ t (raise_if-eq-ok _ _ b) p;
      model = correlated.model;
      first = correlated.first;
      later = correlated.later;
      no_retry_loop = correlated.no_retry_loop;
      no_fallback_loop = correlated.no_fallback_loop;
      category = category_of _ _ k3;
      usage = token_usage_evidence-IsAccount given.usage usage (from_dict-eq-ok _ _ _ used);
    })
