-- ===== src/Usage/Rereading.antt =====
-- What the text of a decimal keeps.
use pmqa.Base.Digits.{decimal}
use pmqa.Values.{ℤ}
use pmqa.Base.{
  ok, ℕ, zero, suc, ◌+◌, ◌*◌, ◌/◌, ◌%◌, ◌^◌, ◌≤◌, String, ◌≡◌, refl, sym, ap, ◌∙◌, inl, inr, Bool,
  true, false, not, ◌&&◌, some, arith, codes, ltb, ◌==◌, Bool-cases, length,
}
use pmqa.Application.Statuses.{le→ltb, str_eq_refl}
use mathlib.Core.Path.{subst}
use pmqa.Usage.Texts.{read_digits-fixed_point}
use pmqa.Usage.Lengths.{serialized_length-fixed_point}
use pmqa.Usage.Bounded.{canonical_decimal-eq-ok, length-serialize_decimal}
use pmqa.Application.Statuses.{&&-false, goes_on}
use pmqa.Usage.Decimals.{canonical_text, serialized_length}
use pmqa.Usage.Decimals.{canonical_decimal, max_decimal_length, read_decimal, read_digits}
use native.Mathlib.Nat.{mul_assoc, pow-suc}
use pmqa.Base.{
  ℕ, zero, suc, ◌+◌, ◌*◌, ◌/◌, ◌%◌, ◌^◌, ◌≡◌, refl, ap, ◌∙◌, inl, inr, true, false, arith, ◌==◌,
  Bool-cases,
}
use pmqa.Values.{pos, negsuc}
use pmqa.Usage.Decimals.{
  Decimal, finite, special, strip_zeros, fixed_point, exponent_of, serialize_decimal,
}

-- What is stripped once is stripped.
strip_zeros_idem :
    (places coefficient : ℕ)
    → strip_zeros (strip_zeros places coefficient).1 (strip_zeros places coefficient).0
      ≡ strip_zeros places coefficient
unfolding strip_zeros
strip_zeros_idem zero c = refl
strip_zeros_idem (suc n) c = elim (Bool-cases (c % 10 == 0)) [
  | inl e ↦ rw e (strip_zeros_idem n (c / 10))
  | inr e ↦ rw (e, e)
]

ten_times : (k x c : ℕ) → k * x ≡ c / 10 → (c % 10 == 0) ≡ true → k * (x * 10) ≡ c
ten_times k x c h e =
    let none_left : c % 10 ≡ 0 = ground arith in
    let whole : c / 10 * 10 ≡ c = omega (arith, none_left) in rw (← mul_assoc k x 10, h) whole

-- The dropped places hold the rest of the value.
strip_zeros_value :
    (places coefficient : ℕ)
    → (dropped : ℕ) × ((strip_zeros places coefficient).1 + dropped ≡ places)
      × ((strip_zeros places coefficient).0 * 10 ^ dropped ≡ coefficient)
unfolding strip_zeros
strip_zeros_value zero c = (0, refl, omega arith)
strip_zeros_value (suc n) c = elim (Bool-cases (c % 10 == 0)) [
  | inl e ↦
      let (dropped, places, value) = strip_zeros_value n (c / 10) in
      rw e (suc dropped, omega (arith, places), rw (pow-suc 10 dropped) (ten_times _ _ c value e))
  | inr e ↦ rw e (0, omega arith, omega arith)
]

-- A decimal is so many units at so many decimal places.
abbrev pub units : Decimal → ℕ
units special = 0
units (finite is_negative coefficient (pos exponent)) = coefficient * 10 ^ exponent
units (finite is_negative coefficient (negsuc n)) = coefficient

abbrev pub places : Decimal → ℕ
places special = 0
places (finite is_negative coefficient (pos exponent)) = 0
places (finite is_negative coefficient (negsuc n)) = suc n

abbrev pub is_below_zero : Decimal → Bool
is_below_zero special = false
is_below_zero (finite is_negative coefficient exponent) = is_negative && not (coefficient == 0)

-- The same number, with its sign, written with so many places fewer.
pub record IsSameNumber (a b : Decimal) : Type 0 where
  pub sign : is_below_zero b ≡ is_below_zero a
  pub fewer : ℕ
  pub same_places : places b + fewer ≡ places a
  pub same_units : units b * 10 ^ fewer ≡ units a

times_one : (n : ℕ) → n * 1 ≡ n
times_one n = omega arith

units_at : (kept p : ℕ) → units (finite false kept (exponent_of p)) ≡ kept
units_at kept zero = omega arith
units_at kept (suc p) = refl

places_at : (kept p : ℕ) → places (finite false kept (exponent_of p)) ≡ p
places_at kept zero = refl
places_at kept (suc p) = refl

serialized_at :
    (kept p : ℕ)
    → strip_zeros p kept ≡ (kept, p)
    → serialize_decimal (finite false kept (exponent_of p)) ≡ fixed_point (kept, p)
unfolding serialize_decimal
serialized_at kept zero h = ap decimal (omega arith)
serialized_at kept (suc p) h = ap fixed_point h

-- What a decimal is read back as.
pub record IsReread (d : Decimal) : Type 0 where
  pub reread : Decimal
  pub read : canonical_text (serialize_decimal d) ≡ ok reread
  pub text : serialize_decimal reread ≡ serialize_decimal d
  pub number : IsSameNumber d reread

read_decimal-fixed_point :
    (kept p : ℕ) (text : String)
    → text ≡ fixed_point (kept, p)
    → serialize_decimal (finite false kept (exponent_of p)) ≡ text
    → length (codes text) ≤ max_decimal_length
    → read_decimal text ≡ ok (finite false kept (exponent_of p))
unfolding read_decimal
read_decimal-fixed_point kept p text e h short =
    let fits : ltb max_decimal_length (length (codes text)) ≡ false = le→ltb _ _ short in
    let digits : read_digits 0 (codes text) ≡ some (kept, p) =
      ap (λ t. read_digits 0 (codes t)) e ∙ read_digits-fixed_point kept p in
    rw (fits, digits, h, str_eq_refl text) refl

not_canonical_special : {q : Decimal} → ¬ (canonical_decimal special ≡ ok q)
unfolding canonical_decimal
not_canonical_special h = cc

canonical_decimal_of :
    (kept : ℕ) (exponent : ℤ)
    → serialized_length kept exponent ≤ max_decimal_length
    → canonical_decimal (finite false kept exponent) ≡ ok (finite false kept exponent)
unfolding canonical_decimal
canonical_decimal_of kept exponent short =
    let fits : ltb max_decimal_length (serialized_length kept exponent) ≡ false =
      le→ltb _ _ short in
    rw (fits, &&-false) refl

canonical_text-fixed_point :
    (kept p : ℕ) (text : String)
    → text ≡ fixed_point (kept, p)
    → serialize_decimal (finite false kept (exponent_of p)) ≡ text
    → length (codes text) ≤ max_decimal_length
    → canonical_text text ≡ ok (finite false kept (exponent_of p))
unfolding canonical_text
canonical_text-fixed_point kept p text e h short =
    goes_on (read_decimal text) _ (read_decimal-fixed_point kept p text e h short) (
      canonical_decimal_of kept (exponent_of p) (
        subst (λ n. n ≤ max_decimal_length)
          (ap (λ t. length (codes t)) e ∙ sym (serialized_length-fixed_point kept p)) short))

-- Every canonical decimal is read back from its text: as a canonical decimal that is the same number,
-- with its sign, and is serialized as the same text.
pub canonical_text-serialize_decimal : (d q : Decimal) → canonical_decimal d ≡ ok q → IsReread d
unfolding serialize_decimal
canonical_text-serialize_decimal special q h = absurd (not_canonical_special h)
canonical_text-serialize_decimal (finite is_negative c (pos e)) q h =
    let text = serialized_at (c * 10 ^ e) 0 refl in
    record {
      reread = finite false (c * 10 ^ e) (pos 0);
      read =
          canonical_text-fixed_point (c * 10 ^ e) 0 (decimal (c * 10 ^ e)) refl text
            (length-serialize_decimal is_negative c (pos e) q h);
      text = text;
      number = record {
        sign = sym (canonical_decimal-eq-ok is_negative c (pos e) q h).0;
        fewer = 0;
        same_places = refl;
        same_units = times_one _ ∙ times_one (c * 10 ^ e);
      };
    }
canonical_text-serialize_decimal (finite is_negative c (negsuc n)) q h =
    let stripped = strip_zeros (suc n) c in
    let (dropped, total, value) = strip_zeros_value (suc n) c in
    let text = serialized_at stripped.0 stripped.1 (strip_zeros_idem (suc n) c) in
    record {
      reread = finite false stripped.0 (exponent_of stripped.1);
      read =
          canonical_text-fixed_point stripped.0 stripped.1 (fixed_point stripped) refl text
            (length-serialize_decimal is_negative c (negsuc n) q h);
      text = text;
      number = record {
        sign = sym (canonical_decimal-eq-ok is_negative c (negsuc n) q h).0;
        fewer = dropped;
        same_places = rw (places_at stripped.0 stripped.1) total;
        same_units = rw (units_at stripped.0 stripped.1) value;
      };
    }
