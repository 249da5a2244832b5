-- ===== src/Usage/Priced.antt =====
-- What a model's pricing promises.
use pmqa.Usage.Accounts.{same_test}
use pmqa.Base.{
  ok, raise_if, >>=-eq-ok, raise_if-eq-ok, ok-inj, ℕ, ◌<◌, ◌≡◌, sym, inl, inr, Bool, true, false,
  not, ◌&&◌, Option, none, some, [], ◌∷◌, arith, codes, leb, Bool-cases, is_some, was_true,
}
use mathlib.Core.Path.{subst}
use pmqa.Base.{
  ok, raise_if, >>=-eq-ok, raise_if-eq-ok, ok-inj, ℕ, ◌<◌, ◌≡◌, sym, inl, inr, Bool, true, false,
  not, ◌&&◌, Option, none, some, [], ◌∷◌, arith, codes, leb, Bool-cases, is_some, was_true,
}
use pmqa.Run.Build.{optionally}
use pmqa.Run.Dumps.{check_tree}
use pmqa.Run.Identifiers.{
  validate_identifiers, invalid_currency, late_start, undeclared_component, no_component,
  reason_missing,
}
use pmqa.Usage.Costs.{is_currency}
use pmqa.Usage.Pricing.{
  PricingComponentKind, ModelPricing, price_of, lacks, names_kind, is_priced, is_declared_pricing,
  is_unpriced, is_incomplete, ends_by, check_pricing, dump_pricing, kinds_of, component_snapshot,
  model_pricing,
}

-- A price is missing exactly if it is declared, some price is there, and a reason is given exactly
-- if some price is missing. The prices end after they begin.
pub record IsPricing (p : ModelPricing) : Type 0 where
  pub declared :
      (kind : PricingComponentKind) → lacks kind p ≡ names_kind kind p.unavailable_components
  pub priced : (kind : PricingComponentKind) × (is_some (price_of kind p) ≡ true)
  pub reason : is_some p.unavailable_reason ≡ is_incomplete p
  pub interval : (t : ℕ) → p.effective_to ≡ some t → p.effective_from < t

three : (a b c : Bool) → (a && b && c) ≡ true → (a ≡ true) × (b ≡ true) × (c ≡ true)
three a b c h = ground arith

each_kind :
    (p : ModelPricing)
    → is_declared_pricing p ≡ true
    → (kind : PricingComponentKind) → lacks kind p ≡ names_kind kind p.unavailable_components
unfolding is_declared_pricing
each_kind p h kind =
    of_kind
      (three (is_priced PricingComponentKind.input p) (is_priced PricingComponentKind.output p)
        (is_priced PricingComponentKind.cached_input p) h)
      kind
  where
    of_kind :
        (is_priced PricingComponentKind.input p ≡ true)
          × (is_priced PricingComponentKind.output p ≡ true)
          × (is_priced PricingComponentKind.cached_input p ≡ true)
        → (kind : PricingComponentKind) → lacks kind p ≡ names_kind kind p.unavailable_components
    of_kind (a, b, c) PricingComponentKind.input = same_test _ _ a
    of_kind (a, b, c) PricingComponentKind.output = same_test _ _ b
    of_kind (a, b, c) PricingComponentKind.cached_input = same_test _ _ c

some_price :
    (p : ModelPricing)
    → is_unpriced p ≡ false
    → (kind : PricingComponentKind) × (is_some (price_of kind p) ≡ true)
unfolding is_unpriced
some_price p h = elim (Bool-cases (is_some p.input_price)) [
  | inl e ↦ (PricingComponentKind.input, e)
  | inr e ↦ elim (Bool-cases (is_some p.output_price)) [
    | inl k ↦ (PricingComponentKind.output, k)
    | inr k ↦ (PricingComponentKind.cached_input, was_true _ (rw (e, k) at h))
  ]
]

reasoned : (a b : Bool) → (a && not b) ≡ false → (not a && b) ≡ false → b ≡ a
reasoned a b h k = ground arith

later : (o : Option ℕ) (start t : ℕ) → ends_by o start ≡ false → o ≡ some t → start < t
later none start t h p = cc
later (some u) start t h p = let same : u ≡ t = cc p in omega (arith, same, above u start h)
  where
    above : (u start : ℕ) → leb u start ≡ false → start < u
    above u start h = ground arith

check_pricing-IsPricing : (p : ModelPricing) → check_pricing p ≡ ok tt → IsPricing p
unfolding check_pricing
check_pricing-IsPricing p h =
    let (_, a, h1) =
      >>=-eq-ok (raise_if (ends_by p.effective_to p.effective_from) late_start) _ h in
    let (_, b, h2) = >>=-eq-ok (raise_if (not (is_declared_pricing p)) undeclared_component) _ h1 in
    let (_, c, h3) = >>=-eq-ok (raise_if (is_unpriced p) no_component) _ h2 in
    let (_, d, e) =
      >>=-eq-ok (raise_if (is_incomplete p && not (is_some p.unavailable_reason)) reason_missing) _
        h3 in
    record {
      declared = each_kind p (was_true _ (raise_if-eq-ok _ _ b));
      priced = some_price p (raise_if-eq-ok _ _ c);
      reason = reasoned _ _ (raise_if-eq-ok _ _ d) (raise_if-eq-ok _ _ e);
      interval = λ t q. later _ _ t (raise_if-eq-ok _ _ a) q;
    }

-- A pricing that is constructed declares exactly the prices that it lacks and has at least one
-- price. It gives a reason exactly if it lacks one, and it ends after it begins, if at all.
pub model_pricing-IsPricing : (given p : ModelPricing) → model_pricing given ≡ ok p → IsPricing p
unfolding model_pricing
model_pricing-IsPricing given p h =
    let (_, _, h1) =
      >>=-eq-ok
        (validate_identifiers (
          given.pricing_id ∷ given.provider ∷ given.model ∷ given.pricing_source_id
          ∷ given.pricing_version ∷ []))
        _ h in
    let (_, _, h2) =
      >>=-eq-ok (raise_if (not (is_currency (codes given.currency))) invalid_currency) _ h1 in
    let (input_price, _, h3) = >>=-eq-ok (optionally component_snapshot given.input_price) _ h2 in
    let (output_price, _, h4) = >>=-eq-ok (optionally component_snapshot given.output_price) _ h3 in
    let (cached_price, _, h5) =
      >>=-eq-ok (optionally component_snapshot given.cached_input_price) _ h4 in
    let (kinds, _, h6) = >>=-eq-ok (kinds_of given.unavailable_components) _ h5 in
    let kept : ModelPricing = record given {
      input_price = input_price;
      output_price = output_price;
      cached_input_price = cached_price;
      unavailable_components = kinds;
    } in
    let (_, _, h7) = >>=-eq-ok (check_tree (dump_pricing kept)) _ h6 in
    let (_, checked, h8) = >>=-eq-ok (check_pricing kept) _ h7 in
    subst IsPricing (sym (ok-inj h8)) (check_pricing-IsPricing kept checked)
