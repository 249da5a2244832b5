-- ===== src/Usage/Texts.antt =====
-- The digits of a decimal are read back.
use Prim.Native.String
use Prim.Native.String.append
use pmqa.Base.{
  ℕ, zero, suc, ◌+◌, ◌-◌, ◌*◌, ◌/◌, ◌%◌, ◌^◌, ◌<◌, String, ◌≡◌, refl, sym, ap, ◌∙◌, inl, inr, true,
  false, some, List, [], ◌∷◌, ◌++◌, arith, codes, ltb, ◌==◌, Bool-cases,
}
use Prim.Native.Char.{code}
use native.Mathlib.Nat.{pow-suc}
use mathlib.Core.List.{append_assoc, append-nil}
use pmqa.Base.Digits.{digit_in, digits, decimal_from, decimal, padded}
use pmqa.Usage.Decimals.{read_digits, read_fraction, is_digit_code, fixed_point}

pub codes-append : (s t : String) → codes (String.◌++◌ s t) ≡ codes s ++ codes t
codes-append String.[] t = ap codes (λ i. append.nil t i)
codes-append (String.◌∷◌ c s) t =
    ap codes (λ i. append.cons c s t i) ∙ ap (λ cs. code c ∷ cs) (codes-append s t)

pub digit_codes : (d : ℕ) → d < 10 → codes (digit_in digits d) ≡ (48 + d) ∷ []
digit_codes zero h = refl
digit_codes (suc zero) h = refl
digit_codes (suc (suc zero)) h = refl
digit_codes (suc (suc (suc zero))) h = refl
digit_codes (suc (suc (suc (suc zero)))) h = refl
digit_codes (suc (suc (suc (suc (suc zero))))) h = refl
digit_codes (suc (suc (suc (suc (suc (suc zero)))))) h = refl
digit_codes (suc (suc (suc (suc (suc (suc (suc zero))))))) h = refl
digit_codes (suc (suc (suc (suc (suc (suc (suc (suc zero)))))))) h = refl
digit_codes (suc (suc (suc (suc (suc (suc (suc (suc (suc zero))))))))) h = refl
digit_codes (suc (suc (suc (suc (suc (suc (suc (suc (suc (suc d)))))))))) h =
    let no_digit : ⊥ = omega (arith, h) in absurd no_digit

digit_tests : (d : ℕ) → d < 10 → ((48 + d == 46) ≡ false) × (is_digit_code (48 + d) ≡ true)
digit_tests d h = (ground arith, ground arith)

past : (d : ℕ) → 48 + d - 48 ≡ d
past d = omega arith

read_digit :
    (n d : ℕ) (rest : List ℕ)
    → d < 10
    → read_digits n ((48 + d) ∷ rest) ≡ read_digits (n * 10 + d) rest
unfolding read_digits
read_digit n d rest h = rw ((digit_tests d h).0, (digit_tests d h).1, past d) refl

read_fraction_digit :
    (n places d : ℕ) (rest : List ℕ)
    → d < 10
    → read_fraction n places ((48 + d) ∷ rest) ≡ read_fraction (n * 10 + d) (suc places) rest
unfolding read_fraction
read_fraction_digit n places d rest h = rw ((digit_tests d h).1, past d) refl

pub last_digit : (n : ℕ) → n % 10 < 10
last_digit n = omega arith

joined : (n : ℕ) → n / 10 * 10 + n % 10 ≡ n
joined n = omega arith

from_none : (n : ℕ) → 0 * 10 + n ≡ n
from_none n = omega arith

-- The digits of a number are read as the number.
read_digits-decimal_from :
    (fuel n : ℕ) (rest : List ℕ)
    → n < fuel
    → read_digits 0 (codes (decimal_from fuel n) ++ rest) ≡ read_digits n rest
unfolding decimal_from
read_digits-decimal_from zero n rest h = let none_below : ⊥ = omega (arith, h) in absurd none_below
read_digits-decimal_from (suc fuel) n rest h = elim (Bool-cases (ltb n 10)) [
  | inl e ↦
      let small : n < 10 = ground arith in
      let same : n % 10 ≡ n = omega (arith, small) in
      rw (e, same, digit_codes n small)
        (read_digit 0 n rest small ∙ ap (λ m. read_digits m rest) (from_none n))
  | inr e ↦
      let less : n / 10 < fuel = ground arith in
      let digit = digit_codes (n % 10) (last_digit n) in
      rw (e, codes-append (decimal_from fuel (n / 10)) (digit_in digits (n % 10)), digit)
        (ap (read_digits 0) (append_assoc (codes (decimal_from fuel (n / 10))) _ rest)
          ∙ read_digits-decimal_from fuel (n / 10) ((48 + n % 10) ∷ rest) less
          ∙ read_digit (n / 10) (n % 10) rest (last_digit n)
          ∙ ap (λ m. read_digits m rest) (joined n))
]

one_part : (acc : ℕ) → acc ≡ acc * 10 ^ 0 + 0
one_part acc = omega arith

no_places : (places : ℕ) → places ≡ places + 0
no_places places = omega arith

one_more : (places width : ℕ) → suc (places + width) ≡ places + suc width
one_more places width = omega arith

pub tenth : (n power : ℕ) → n < power * 10 → n / 10 < power
tenth n power h = omega (arith, h)

shifted : (acc power n : ℕ) → (acc * power + n / 10) * 10 + n % 10 ≡ acc * (power * 10) + n
shifted acc power n = grind (arith, joined n)

-- The padded digits of a fraction are read as the fraction.
read_fraction-padded :
    (width acc places n : ℕ) (rest : List ℕ)
    → n < 10 ^ width
    → read_fraction acc places (codes (padded width n) ++ rest)
      ≡ read_fraction (acc * 10 ^ width + n) (places + width) rest
unfolding padded
read_fraction-padded zero acc places n rest h =
    let none_left : n ≡ 0 = omega (arith, h) in
    rw none_left (
      ap (λ m. read_fraction m places rest) (one_part acc)
      ∙ ap (λ p. read_fraction (acc * 10 ^ 0 + 0) p rest) (no_places places))
read_fraction-padded (suc width) acc places n rest h =
    let less : n / 10 < 10 ^ width = tenth n (10 ^ width) (rw (pow-suc 10 width) at h) in
    let digit = digit_codes (n % 10) (last_digit n) in
    rw (codes-append (padded width (n / 10)) (digit_in digits (n % 10)), digit)
      (ap (read_fraction acc places) (append_assoc (codes (padded width (n / 10))) _ rest)
        ∙ read_fraction-padded width acc places (n / 10) ((48 + n % 10) ∷ rest) less
        ∙ read_fraction_digit _ (places + width) (n % 10) rest (last_digit n)
        ∙ ap (λ m. read_fraction m (suc (places + width)) rest)
            (shifted acc (10 ^ width) n ∙ ap (λ p. acc * p + n) (sym (pow-suc 10 width)))
        ∙ ap (λ p. read_fraction (acc * 10 ^ suc width + n) p rest) (one_more places width))

read_decimal_digits :
    (n : ℕ) (rest : List ℕ) → read_digits 0 (codes (decimal n) ++ rest) ≡ read_digits n rest
unfolding decimal
read_decimal_digits n rest = read_digits-decimal_from (suc n) n rest (omega arith)

from_zero : (n : ℕ) → 0 + n ≡ n
from_zero n = omega arith

pub power_pos : (k : ℕ) → 0 < 10 ^ k
power_pos zero = omega arith
power_pos (suc k) = let h = power_pos k in rw (pow-suc 10 k) (omega (arith, h))

split_value : (c power : ℕ) → 0 < power → (c / power * power + c % power ≡ c) × (c % power < power)
split_value c power h = (grind arith, grind arith)

read_point : (a : ℕ) (rest : List ℕ) → read_digits a (46 ∷ rest) ≡ read_fraction a 0 rest
unfolding read_digits
read_point a rest = refl

-- What is written with so many places is read with them.
pub read_digits-fixed_point :
    (c places : ℕ) → read_digits 0 (codes (fixed_point (c, places))) ≡ some (c, places)
unfolding read_digits read_fraction
read_digits-fixed_point c zero =
    ap (read_digits 0) (sym (append-nil (codes (decimal c)))) ∙ read_decimal_digits c []
read_digits-fixed_point c (suc n) =
    let power = 10 ^ suc n in
    let (whole, less) = split_value c power (power_pos (suc n)) in
    let fraction = padded (suc n) (c % power) in
    ap (read_digits 0) (
      codes-append (decimal (c / power)) (String.◌++◌ "." fraction)
      ∙ ap (λ cs. codes (decimal (c / power)) ++ cs) (codes-append "." fraction))
    ∙ read_decimal_digits (c / power) (46 ∷ codes fraction)
    ∙ read_point (c / power) (codes fraction)
    ∙ ap (read_fraction (c / power) 0) (sym (append-nil (codes fraction)))
    ∙ read_fraction-padded (suc n) (c / power) 0 (c % power) [] less
    ∙ ap (λ v. some (v, 0 + suc n)) whole
    ∙ ap (λ p. some (c, p)) (from_zero (suc n))
