-- ===== src/Application/Statuses.antt =====
-- Lemmas that let a body return, and the statuses of a run and of its invocation.
use pmqa.Base.{
  Result, ok, ◌>>=◌, raise_if, ℕ, ◌≤◌, String, ◌≡◌, refl, sym, ap, ◌∙◌, Bool, true, false, not,
  ◌&&◌, some, List, [], ◌∷◌, arith, str_eq, eq_iff, ltb,
}
use mathlib.Core.Path.{subst}
use mathlib.Core.Logic.{ite}
use pmqa.Application.Dispatch.{invocation_run_status}
use pmqa.Base.{◌>>=◌}
use pmqa.Application.Contracts.{is_same_status, equals, run_status_by}
use pmqa.Runners.Contracts.{references_eq}
use pmqa.Runners.Response.{check_outcome}
use pmqa.Workflow.Models.{differs}
use pmqa.Run.Records.{is_terminal_run, is_successful, RunStatus}
use pmqa.Run.Invocations.{is_terminal_invocation, RunnerInvocationStatus}
use pmqa.Run.Parts.{RunReference, RunError}

-- A body returns when its statements do.
pub goes_on {ℓ κ μ} :
    {E : Type ℓ} {A : Type κ} {B : Type μ} (first : Result E A) (rest : A → Result E B) {a : A}
    {r : Result E B}
    → first ≡ ok a
    → rest a ≡ r
    → (first >>= rest) ≡ r
goes_on first rest h k = ap (λ f. f >>= rest) h ∙ k

pub passes {ℓ} : {E : Type ℓ} (test : Bool) (e : E) → test ≡ false → raise_if test e ≡ ok tt
passes test e h = ap (λ b. raise_if b e) h

pub le→ltb : (a b : ℕ) → b ≤ a → ltb a b ≡ false
le→ltb a b h = ground arith

pub differs-true : (a b : Bool) → a ≡ true → b ≡ true → differs a b ≡ false
differs-true a b h k = ground arith

pub &&-false : (b : Bool) → (b && false) ≡ false
&&-false true = refl
&&-false false = refl

pub &&-intro : (a b : Bool) → a ≡ true → b ≡ true → (a && b) ≡ true
&&-intro a b h k = ground arith

pub equals_refl {ℓ} :
    {A : Type ℓ} (decide : Discrete A) (a b : A) → a ≡ b → equals decide a b ≡ true
equals_refl decide a b same = decided (decide a b)
  where
    decided : (d : Dec (a ≡ b)) → ite d true false ≡ true
    decided (yes e) = refl
    decided (no n) = absurd (n same)

pub str_eq_refl : (a : String) → str_eq a a ≡ true
str_eq_refl a = (eq_iff a a).1 refl

pub references_eq_refl : (rs : List RunReference) → references_eq rs rs ≡ true
references_eq_refl [] = refl
references_eq_refl (r ∷ rest) =
    &&-intro _ _ (&&-intro _ _ (str_eq_refl r.reference_type) (str_eq_refl r.reference_id))
      (references_eq_refl rest)

-- The table of the service and the one of its contracts agree.
pub same_tables : (s : RunnerInvocationStatus) → invocation_run_status s ≡ run_status_by s
same_tables RunnerInvocationStatus.pending = refl
same_tables RunnerInvocationStatus.running = refl
same_tables RunnerInvocationStatus.succeeded = refl
same_tables RunnerInvocationStatus.partially_succeeded = refl
same_tables RunnerInvocationStatus.failed = refl
same_tables RunnerInvocationStatus.cancelled = refl

-- The statuses of a run and of its invocation.
pub both_terminal :
    (s : RunnerInvocationStatus) (t : RunStatus)
    → run_status_by s ≡ some t
    → (is_terminal_invocation s ≡ true) × (is_terminal_run t ≡ true)
both_terminal RunnerInvocationStatus.pending t h = cc
both_terminal RunnerInvocationStatus.running t h = cc
both_terminal RunnerInvocationStatus.succeeded t h =
    let same : RunStatus.succeeded ≡ t = cc h in (refl, ap is_terminal_run (sym same))
both_terminal RunnerInvocationStatus.partially_succeeded t h =
    let same : RunStatus.partially_succeeded ≡ t = cc h in (refl, ap is_terminal_run (sym same))
both_terminal RunnerInvocationStatus.failed t h =
    let same : RunStatus.failed ≡ t = cc h in (refl, ap is_terminal_run (sym same))
both_terminal RunnerInvocationStatus.cancelled t h =
    let same : RunStatus.cancelled ≡ t = cc h in (refl, ap is_terminal_run (sym same))

pub same_status :
    (s : RunnerInvocationStatus) (t : RunStatus)
    → run_status_by s ≡ some t
    → is_same_status t (run_status_by s) ≡ true
same_status s t h = ap (is_same_status t) h ∙ itself t (both_terminal s t h).1
  where
    itself : (t : RunStatus) → is_terminal_run t ≡ true → is_same_status t (some t) ≡ true
    itself RunStatus.pending k = cc
    itself RunStatus.running k = cc
    itself RunStatus.awaiting_approval k = cc
    itself RunStatus.succeeded k = refl
    itself RunStatus.partially_succeeded k = refl
    itself RunStatus.failed k = refl
    itself RunStatus.cancelled k = refl

-- There is a result only if the run was successful.
pub result_fits :
    (s : RunnerInvocationStatus) (t : RunStatus) (has_result : Bool) (errors : List RunError)
    → check_outcome s has_result errors ≡ ok tt
    → run_status_by s ≡ some t
    → (has_result && not (is_successful t)) ≡ false
unfolding check_outcome
result_fits RunnerInvocationStatus.pending t b errors h k = cc
result_fits RunnerInvocationStatus.running t b errors h k = cc
result_fits RunnerInvocationStatus.succeeded t b errors h k =
    let same : RunStatus.succeeded ≡ t = cc k in
    subst (λ t. (b && not (is_successful t)) ≡ false) same (&&-false b)
result_fits RunnerInvocationStatus.partially_succeeded t b errors h k =
    let same : RunStatus.partially_succeeded ≡ t = cc k in
    subst (λ t. (b && not (is_successful t)) ≡ false) same (&&-false b)
result_fits RunnerInvocationStatus.failed t true errors h k = cc
result_fits RunnerInvocationStatus.failed t false errors h k = refl
result_fits RunnerInvocationStatus.cancelled t true errors h k = cc
result_fits RunnerInvocationStatus.cancelled t false errors h k = refl
