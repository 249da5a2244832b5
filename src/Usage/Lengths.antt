-- ===== src/Usage/Lengths.antt =====
-- How long the text of a decimal is.
use Prim.Native.String
use pmqa.Base.{
  ℕ, zero, suc, ◌+◌, ◌*◌, ◌/◌, ◌%◌, ◌^◌, ◌≤◌, ◌<◌, String, ◌≡◌, refl, sym, ap, ◌∙◌, inl, inr, true,
  false, arith, codes, ltb, leb, Bool-cases, length, length-append,
}
use native.Mathlib.Nat.{pow-suc}
use pmqa.Base.Digits.{digit_in, digits, decimal_from, decimal, padded}
use pmqa.Usage.Decimals.{digit_count, serialized_length, fixed_point, exponent_of}
use pmqa.Usage.Texts.{codes-append, digit_codes, last_digit, tenth, power_pos}

length-codes-append :
    (s t : String) → length (codes (String.◌++◌ s t)) ≡ length (codes s) + length (codes t)
length-codes-append s t = ap length (codes-append s t) ∙ length-append (codes s) (codes t)

one_digit : (d : ℕ) → d < 10 → length (codes (digit_in digits d)) ≡ 1
one_digit d h = ap length (digit_codes d h)

length-padded : (width n : ℕ) → length (codes (padded width n)) ≡ width
unfolding padded
length-padded zero n = refl
length-padded (suc width) n =
    let front = length-padded width (n / 10) in
    let digit = one_digit (n % 10) (last_digit n) in
    length-codes-append (padded width (n / 10)) (digit_in digits (n % 10))
    ∙ omega (arith, front, digit)

-- The number of the digits, on fuel.
abbrev count : ℕ → ℕ → ℕ
count fuel n = length (codes (decimal_from fuel n))

count_small : (fuel n : ℕ) → n < 10 → count (suc fuel) n ≡ 1
unfolding decimal_from
count_small fuel n h =
    let e : ltb n 10 ≡ true = ground arith in rw e (one_digit (n % 10) (last_digit n))

count_large : (fuel n : ℕ) → 10 ≤ n → count (suc fuel) n ≡ count fuel (n / 10) + 1
unfolding decimal_from
count_large fuel n h =
    let e : ltb n 10 ≡ false = ground arith in
    let digit = one_digit (n % 10) (last_digit n) in
    rw e (
      length-codes-append (decimal_from fuel (n / 10)) (digit_in digits (n % 10))
      ∙ ap (λ k. count fuel (n / 10) + k) digit)

count_fuel : (fuel other n : ℕ) → n < fuel → n < other → count fuel n ≡ count other n
count_fuel zero other n h k = let none_below : ⊥ = omega (arith, h) in absurd none_below
count_fuel (suc fuel) zero n h k = let none_below : ⊥ = omega (arith, k) in absurd none_below
count_fuel (suc fuel) (suc other) n h k = elim (Bool-cases (ltb n 10)) [
  | inl e ↦
      let small : n < 10 = ground arith in
      count_small fuel n small ∙ sym (count_small other n small)
  | inr e ↦
      let large : 10 ≤ n = ground arith in
      count_large fuel n large
      ∙ ap (λ c. c + 1) (count_fuel fuel other (n / 10) (omega arith) (omega arith))
      ∙ sym (count_large other n large)
]

pub digit_count_small : (n : ℕ) → n < 10 → digit_count n ≡ 1
unfolding decimal
digit_count_small n h = count_small n n h

digit_count_large : (n : ℕ) → 10 ≤ n → digit_count n ≡ digit_count (n / 10) + 1
unfolding decimal
digit_count_large n h =
    count_large n n h
    ∙ ap (λ c. c + 1) (count_fuel n (suc (n / 10)) (n / 10) (omega (arith, h)) (omega arith))

digit_count_pos : (n : ℕ) → 1 ≤ digit_count n
digit_count_pos n = elim (Bool-cases (ltb n 10)) [
  | inl e ↦ let one = digit_count_small n (ground arith) in omega (arith, one)
  | inr e ↦ let step = digit_count_large n (ground arith) in omega (arith, step)
]

-- A number below a power of ten has no more digits than the exponent.
digit_count_below : (k c : ℕ) → c < 10 ^ suc k → digit_count c ≤ suc k
digit_count_below zero c h = let one = digit_count_small c (omega (arith, h)) in omega (arith, one)
digit_count_below (suc k) c h = elim (Bool-cases (ltb c 10)) [
  | inl e ↦ let one = digit_count_small c (ground arith) in omega (arith, one)
  | inr e ↦
      let large : 10 ≤ c = ground arith in
      let fewer =
        digit_count_below k (c / 10) (tenth c (10 ^ suc k) (rw (pow-suc 10 (suc k)) at h)) in
      let step = digit_count_large c large in omega (arith, fewer, step)
]

pub div_power : (c power : ℕ) → 0 < power → c / 10 / power ≡ c / (power * 10)
div_power c power h = grind arith

-- Another number loses that many digits when it is divided by the power.
pub digit_count_above : (k c : ℕ) → 10 ^ k ≤ c → digit_count c ≡ digit_count (c / 10 ^ k) + k
digit_count_above zero c h = ap digit_count (whole c) ∙ none_more (digit_count (c / 10 ^ 0))
  where
    whole : (c : ℕ) → c ≡ c / 10 ^ 0
    whole c = omega arith

    none_more : (n : ℕ) → n ≡ n + 0
    none_more n = omega arith
digit_count_above (suc k) c h =
    let positive = power_pos k in
    let scaled : 10 ^ k * 10 ≤ c = rw (pow-suc 10 k) at h in
    let tens : 10 ≤ c = omega (arith, positive, scaled) in
    let step = digit_count_large c tens in
    let rest = digit_count_above k (c / 10) (omega (arith, scaled)) in
    rw (pow-suc 10 k, ← div_power c (10 ^ k) positive) (omega (arith, step, rest))

pub length-fraction :
    (c n : ℕ) → length (codes (fixed_point (c, suc n))) ≡ digit_count (c / 10 ^ suc n) + (n + 2)
length-fraction c n =
    let whole = decimal (c / 10 ^ suc n) in
    let fraction = padded (suc n) (c % 10 ^ suc n) in
    let outer = length-codes-append whole (String.◌++◌ "." fraction) in
    let inner = length-codes-append "." fraction in
    let width = length-padded (suc n) (c % 10 ^ suc n) in outer ∙ omega (arith, inner, width)

-- The length that is tested for a number that is written with so many places is the length of the
-- text.
pub serialized_length-fixed_point :
    (c places : ℕ)
    → serialized_length c (exponent_of places) ≡ length (codes (fixed_point (c, places)))
unfolding serialized_length
serialized_length-fixed_point c zero = omega arith
serialized_length-fixed_point c (suc n) = elim (Bool-cases (ltb c (10 ^ suc n))) [
  | inl e ↦
      let small : c < 10 ^ suc n = ground arith in
      let fits = digit_count_below n c small in
      let test : leb (digit_count c) (n + 1) ≡ true = ground arith in
      let none_left : c / 10 ^ suc n ≡ 0 = grind arith in
      let one = digit_count_small 0 (omega arith) in
      rw test (
        sym
          (length-fraction c n ∙ ap (λ d. digit_count d + (n + 2)) none_left ∙ omega (arith, one)))
  | inr e ↦
      let large : 10 ^ suc n ≤ c = ground arith in
      let above = digit_count_above (suc n) c large in
      let some_left = digit_count_pos (c / 10 ^ suc n) in
      let test : leb (digit_count c) (n + 1) ≡ false = ground arith in
      rw test (omega (arith, above) ∙ sym (length-fraction c n))
]
