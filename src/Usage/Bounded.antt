-- ===== src/Usage/Bounded.antt =====
-- The text of a canonical decimal is within the length limit.
use pmqa.Base.{
  ok, raise_if, >>=-eq-ok, raise_if-eq-ok, ℕ, zero, suc, ◌+◌, ◌*◌, ◌/◌, ◌%◌, ◌^◌, ◌≤◌, ◌<◌, ◌≡◌,
  refl, sym, ap, ◌∙◌, inl, inr, Bool, false, not, ◌&&◌, arith, codes, ltb, ◌==◌, Bool-cases, length,
}
use mathlib.Core.Path.{subst}
use native.Mathlib.Nat.{pow-suc}
use pmqa.Values.{ℤ, pos, negsuc}
use pmqa.Base.Digits.{decimal}
use pmqa.Run.Identifiers.{invalid_decimal, unbounded_decimal}
use pmqa.Usage.Decimals.{
  Decimal, finite, digit_count, serialized_length, fixed_point, strip_zeros, serialize_decimal,
  canonical_decimal, max_decimal_length,
}
use pmqa.Usage.Texts.{power_pos}
use pmqa.Usage.Lengths.{
  digit_count_small, digit_count_above, length-fraction, div_power, serialized_length-fixed_point,
}

abbrev text_length : ℕ × ℕ → ℕ
text_length n = length (codes (fixed_point n))

tenth_shorter : (n c : ℕ) → text_length (c / 10, n) ≤ text_length (c, suc n)
tenth_shorter zero c =
    let longer = length-fraction c 0 in
    let same : digit_count (c / 10) ≡ digit_count (c / 10 ^ 1) = ap digit_count (once c) in
    omega (arith, longer, same)
  where
    once : (c : ℕ) → c / 10 ≡ c / 10 ^ 1
    once c = omega arith
tenth_shorter (suc m) c =
    let longer = length-fraction c (suc m) in
    let shorter = length-fraction (c / 10) m in
    let same : digit_count (c / 10 / 10 ^ suc m) ≡ digit_count (c / 10 ^ suc (suc m)) =
      ap digit_count (
        div_power c (10 ^ suc m) (power_pos (suc m))
        ∙ ap (λ p. c / p) (sym (pow-suc 10 (suc m)))) in
    omega (arith, longer, shorter, same)

strip_zeros_shorter : (places c : ℕ) → text_length (strip_zeros places c) ≤ text_length (c, places)
unfolding strip_zeros
strip_zeros_shorter zero c = omega arith
strip_zeros_shorter (suc n) c = elim (Bool-cases (c % 10 == 0)) [
  | inl e ↦
      let rest = strip_zeros_shorter n (c / 10) in
      let step = tenth_shorter n c in rw e (omega (arith, rest, step))
  | inr e ↦ rw e (omega arith)
]

strip_zeros_none : (places : ℕ) → strip_zeros places 0 ≡ (0, 0)
unfolding strip_zeros
strip_zeros_none zero = refl
strip_zeros_none (suc n) = strip_zeros_none n

scaled_length : (e c : ℕ) → 0 < c → digit_count (c * 10 ^ e) ≡ digit_count c + e
scaled_length e c h =
    let positive = power_pos e in
    digit_count_above e (c * 10 ^ e) (grind arith)
    ∙ ap (λ k. digit_count k + e) (back c (10 ^ e) positive)
  where
    back : (c power : ℕ) → 0 < power → c * power / power ≡ c
    back c power h = grind arith

-- What the two tests of a canonical decimal leave.
pub canonical_decimal-eq-ok :
    (is_negative : Bool) (c : ℕ) (exponent : ℤ) (q : Decimal)
    → canonical_decimal (finite is_negative c exponent) ≡ ok q
    → ((is_negative && not (c == 0)) ≡ false)
      × ((not (c == 0) && ltb max_decimal_length (serialized_length c exponent)) ≡ false)
unfolding canonical_decimal
canonical_decimal-eq-ok is_negative c exponent q h =
    let (_, sign, h1) = >>=-eq-ok (raise_if (is_negative && not (c == 0)) invalid_decimal) _ h in
    let (_, bound, h2) =
      >>=-eq-ok
        (raise_if (not (c == 0) && ltb max_decimal_length (serialized_length c exponent))
          unbounded_decimal)
        _ h1 in
    (raise_if-eq-ok _ _ sign, raise_if-eq-ok _ _ bound)

limit_of :
    (is_zero : Bool) (len : ℕ)
    → is_zero ≡ false
    → (not is_zero && ltb max_decimal_length len) ≡ false
    → len ≤ max_decimal_length
limit_of is_zero len e h = ground arith

zero_length : text_length (0, 0) ≤ max_decimal_length
zero_length = let one = digit_count_small 0 (omega arith) in omega (arith, one)

nothing_length : (places : ℕ) → text_length (strip_zeros places 0) ≤ max_decimal_length
nothing_length places =
    subst (λ n. text_length n ≤ max_decimal_length) (sym (strip_zeros_none places)) zero_length

zero_scaled : (e : ℕ) → 0 * 10 ^ e ≡ 0
zero_scaled e = omega arith

whole_length : (c e : ℕ) → serialized_length c (pos e) ≡ digit_count c + e
unfolding serialized_length
whole_length c e = refl

-- A canonical decimal is written within the limit.
pub length-serialize_decimal :
    (is_negative : Bool) (c : ℕ) (exponent : ℤ) (q : Decimal)
    → canonical_decimal (finite is_negative c exponent) ≡ ok q
    → length (codes (serialize_decimal (finite is_negative c exponent))) ≤ max_decimal_length
unfolding serialize_decimal
length-serialize_decimal is_negative c (pos e) q h = elim (Bool-cases (c == 0)) [
  | inl z ↦
      let none_left : c ≡ 0 = ground arith in
      let empty : c * 10 ^ e ≡ 0 = ap (λ k. k * 10 ^ e) none_left ∙ zero_scaled e in
      subst (λ k. length (codes (decimal k)) ≤ max_decimal_length) (sym empty) zero_length
  | inr z ↦
      let bound = limit_of _ _ z (canonical_decimal-eq-ok is_negative c (pos e) q h).1 in
      let scaled = scaled_length e c (ground arith) in
      omega (arith, scaled, bound, whole_length c e)
]
length-serialize_decimal is_negative c (negsuc n) q h = elim (Bool-cases (c == 0)) [
  | inl z ↦
      let none_left : c ≡ 0 = ground arith in
      subst (λ k. text_length (strip_zeros (suc n) k) ≤ max_decimal_length) (sym none_left)
        (nothing_length (suc n))
  | inr z ↦
      let bound = limit_of _ _ z (canonical_decimal-eq-ok is_negative c (negsuc n) q h).1 in
      let shorter = strip_zeros_shorter (suc n) c in
      let written = serialized_length-fixed_point c (suc n) in
      omega (arith, bound, shorter, written)
]
