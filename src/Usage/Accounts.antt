-- ===== src/Usage/Accounts.antt =====
-- What the evidence of used tokens accounts for.
use pmqa.Usage.Ranks.{has_repeated, sort_by}
use pmqa.Usage.Evidence.{rank}
use pmqa.Base.{
  collect, ok, raise_if, >>=-eq-ok, raise_if-eq-ok, ok-inj, ℕ, ◌≤◌, ◌≡◌, refl, sym, ◌∙◌, Bool, true,
  false, not, ◌&&◌, Option, none, some, List, arith, ltb, if◌then◌else◌, ltb-false, was_true,
  length,
}
use pmqa.Base.{
  collect, ok, raise_if, >>=-eq-ok, raise_if-eq-ok, ok-inj, ℕ, ◌≤◌, ◌≡◌, refl, sym, ◌∙◌, Bool, true,
  false, not, ◌&&◌, Option, none, some, List, arith, ltb, if◌then◌else◌, ltb-false, was_true,
  length,
}
use mathlib.Core.Path.{subst}
use pmqa.Workflow.Models.{differs}
use pmqa.Run.Identifiers.{
  too_many_absences, duplicate_absence, undeclared_absence, unavailable_with_counts,
  available_without_counts,
}
use pmqa.Run.Dumps.{check_tree, from_dict}
use pmqa.Usage.Evidence.{
  TokenField, TokenFieldAbsence, TokenUsageEvidence, tokens_of, is_missing, declares, is_accounted,
  is_declared, is_all_missing, is_unavailable_source, check_usage, check_usage_integer,
  max_usage_integer, dump_absence, token_field_absence, dump_usage, token_usage_evidence,
}

-- The evidence that is built: the counts are the given ones, within the bound; a field has no count
-- exactly if its absence is declared; and all counts are missing exactly if the source is none.
pub record IsAccount (u q : TokenUsageEvidence) : Type 0 where
  pub counts : (f : TokenField) → tokens_of f q ≡ tokens_of f u
  pub bounds : (f : TokenField) (n : ℕ) → tokens_of f q ≡ some n → n ≤ max_usage_integer
  pub declared : (f : TokenField) → is_missing f q ≡ declares f q.unavailable_fields
  pub source : is_unavailable_source q.source ≡ is_all_missing q

bounded :
    (o : Option ℕ) (n : ℕ) → check_usage_integer o ≡ ok tt → o ≡ some n → n ≤ max_usage_integer
bounded none n h p = cc
bounded (some m) n h p =
    let same : m ≡ n = cc p in
    let low = ltb-false max_usage_integer m (raise_if-eq-ok _ _ h) in
    subst (λ k. k ≤ max_usage_integer) same low

pub same_test : (a b : Bool) → not (differs a b) ≡ true → a ≡ b
same_test a b h = ground arith

checked_source :
    (unavailable all : Bool)
    → (if unavailable
        then raise_if (not all) unavailable_with_counts
        else raise_if all available_without_counts)
      ≡ ok tt
    → unavailable ≡ all
checked_source true true h = refl
checked_source true false h = cc
checked_source false true h = cc
checked_source false false h = refl

four :
    (a b c d : Bool) → (a && b && c && d) ≡ true → (a ≡ true) × (b ≡ true) × (c ≡ true) × (d ≡ true)
four a b c d h = ground arith

each_declared :
    (u : TokenUsageEvidence)
    → is_declared u ≡ true
    → (f : TokenField) → is_missing f u ≡ declares f u.unavailable_fields
unfolding is_declared
each_declared u h =
    let (a, b, c, d) =
      four (is_accounted TokenField.input_tokens u) (is_accounted TokenField.output_tokens u)
        (is_accounted TokenField.cached_input_tokens u) (is_accounted TokenField.total_tokens u)
        h in
    of_field a b c d
  where
    of_field :
        is_accounted TokenField.input_tokens u ≡ true
        → is_accounted TokenField.output_tokens u ≡ true
        → is_accounted TokenField.cached_input_tokens u ≡ true
        → is_accounted TokenField.total_tokens u ≡ true
        → (f : TokenField) → is_missing f u ≡ declares f u.unavailable_fields
    of_field a b c d TokenField.input_tokens = same_test _ _ a
    of_field a b c d TokenField.output_tokens = same_test _ _ b
    of_field a b c d TokenField.cached_input_tokens = same_test _ _ c
    of_field a b c d TokenField.total_tokens = same_test _ _ d

-- The counts do not depend on the declared absences.
same_counts :
    (u : TokenUsageEvidence) (absences : List TokenFieldAbsence) (f : TokenField)
    → tokens_of f (record u { unavailable_fields = absences }) ≡ tokens_of f u
same_counts u absences TokenField.input_tokens = refl
same_counts u absences TokenField.output_tokens = refl
same_counts u absences TokenField.cached_input_tokens = refl
same_counts u absences TokenField.total_tokens = refl

each_bound :
    (u : TokenUsageEvidence) (f : TokenField) (n : ℕ)
    → check_usage_integer u.input_tokens ≡ ok tt
    → check_usage_integer u.output_tokens ≡ ok tt
    → check_usage_integer u.cached_input_tokens ≡ ok tt
    → check_usage_integer u.total_tokens ≡ ok tt
    → tokens_of f u ≡ some n
    → n ≤ max_usage_integer
each_bound u TokenField.input_tokens n a b c d p = bounded _ n a p
each_bound u TokenField.output_tokens n a b c d p = bounded _ n b p
each_bound u TokenField.cached_input_tokens n a b c d p = bounded _ n c p
each_bound u TokenField.total_tokens n a b c d p = bounded _ n d p

-- Evidence that is built accounts for every field: its counts are the given ones and within the
-- bound of 64-bit integers, a count is missing exactly if its absence is declared, and all counts
-- are missing exactly if the source is unavailable.
pub token_usage_evidence-IsAccount :
    (u q : TokenUsageEvidence) → token_usage_evidence u ≡ ok q → IsAccount u q
unfolding token_usage_evidence check_usage
token_usage_evidence-IsAccount u q h =
    let (_, a, h1) = >>=-eq-ok (check_usage_integer u.input_tokens) _ h in
    let (_, b, h2) = >>=-eq-ok (check_usage_integer u.output_tokens) _ h1 in
    let (_, c, h3) = >>=-eq-ok (check_usage_integer u.cached_input_tokens) _ h2 in
    let (_, d, h4) = >>=-eq-ok (check_usage_integer u.total_tokens) _ h3 in
    let (_, _, h5) =
      >>=-eq-ok (raise_if (ltb 4 (length u.unavailable_fields)) too_many_absences) _ h4 in
    let (_, _, h6) =
      >>=-eq-ok
        (raise_if (has_repeated (λ (a : TokenFieldAbsence). rank a.field) u.unavailable_fields)
          duplicate_absence)
        _ h5 in
    let (snapshots, _, h7) =
      >>=-eq-ok
        (collect (λ a. from_dict dump_absence (dump_absence a) (token_field_absence a))
          u.unavailable_fields)
        _ h6 in
    let kept : TokenUsageEvidence = record u {
      unavailable_fields = sort_by (λ (a : TokenFieldAbsence). rank a.field) snapshots;
    } in
    let (_, _, h8) = >>=-eq-ok (check_tree (dump_usage kept)) _ h7 in
    let (_, checked, h9) = >>=-eq-ok (check_usage kept) _ h8 in
    let (_, all, source) =
      >>=-eq-ok (raise_if (not (is_declared kept)) undeclared_absence) _ checked in
    subst (IsAccount u) (sym (ok-inj h9)) (record {
      counts = λ f. same_counts u (sort_by (λ (a : TokenFieldAbsence). rank a.field) snapshots) f;
      bounds = λ f n p.
          each_bound u f n a b c d (
            sym (same_counts u (sort_by (λ (a : TokenFieldAbsence). rank a.field) snapshots) f)
            ∙ p);
      declared = each_declared kept (was_true _ (raise_if-eq-ok _ _ all));
      source = checked_source _ _ source;
    })
