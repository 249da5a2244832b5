-- ===== src/Usage/Decimals.antt =====
-- The decimals of pmqa/usage/contracts.py: `_canonical_decimal` of a `Decimal`, and
-- `_serialize_decimal`. A `Decimal` has a sign, a coefficient and an exponent of ten.
use pmqa.Base.{
  Result, ok, err, ◌>>=◌, ◌>>◌, raise_if, ℕ, zero, suc, ◌+◌, ◌-◌, ◌*◌, ◌/◌, ◌%◌, ◌^◌, String, Bool,
  false, not, ◌&&◌, Option, none, some, List, [], ◌∷◌, str_eq, codes, ltb, leb, ◌==◌, if◌then◌else◌,
  length,
}
use Prim.Native.String
use pmqa.Base.{
  Result, ok, err, ◌>>◌, raise_if, ℕ, zero, suc, ◌+◌, ◌*◌, ◌/◌, ◌%◌, ◌^◌, String, Bool, false, not,
  str_eq, ◌-◌, Option, none, some, List, [], ◌∷◌, ◌>>=◌, ◌&&◌, codes, ltb, leb, ◌==◌, if◌then◌else◌,
  length,
}
use pmqa.Base.Digits.{decimal, padded}
use pmqa.Values.{ℤ, pos, negsuc}
use pmqa.Run.Identifiers.{Error, invalid_decimal, unbounded_decimal}

-- A finite number, or an infinity or a NaN.
pub data Decimal : Type 0 where
  finite : Bool → ℕ → ℤ → Decimal
  special : Decimal

-- `_MAX_DECIMAL_LENGTH`
abbrev pub max_decimal_length : ℕ
max_decimal_length = 128

-- `len(candidate.as_tuple().digits)`
abbrev pub digit_count : ℕ → ℕ
digit_count coefficient = length (codes (decimal coefficient))

unfoldable pub serialized_length : ℕ → ℤ → ℕ
serialized_length coefficient (pos exponent) = digit_count coefficient + exponent
serialized_length coefficient (negsuc n) =
    if leb (digit_count coefficient) (n + 1) then n + 3 else digit_count coefficient + 1

-- `_canonical_decimal`, whose value is a `Decimal`.
unfoldable pub canonical_decimal : Decimal → Result Error Decimal
unfolding serialized_length
canonical_decimal special = err invalid_decimal
canonical_decimal (finite is_negative coefficient exponent) = do
  raise_if (is_negative && not (coefficient == 0)) invalid_decimal
  raise_if
      (not (coefficient == 0) && ltb max_decimal_length (serialized_length coefficient exponent))
      unbounded_decimal
  ok (finite is_negative coefficient exponent)

-- The coefficient and the number of fractional digits, less the zeros at the end.
unfoldable pub strip_zeros : ℕ → ℕ → ℕ × ℕ
strip_zeros zero coefficient = (coefficient, 0)
strip_zeros (suc places) coefficient =
    let rest = strip_zeros places (coefficient / 10) in
    if coefficient % 10 == 0 then rest else (coefficient, suc places)

-- A number of a coefficient with so many fractional digits.
abbrev pub fixed_point : ℕ × ℕ → String
fixed_point (coefficient, zero) = decimal coefficient
fixed_point (coefficient, suc n) =
    String.◌++◌ (decimal (coefficient / 10 ^ suc n))
      (String.◌++◌ "." (padded (suc n) (coefficient % 10 ^ suc n)))

-- `_serialize_decimal` of a decimal that is canonical.
unfoldable pub serialize_decimal : Decimal → String
unfolding strip_zeros
serialize_decimal special = ""
serialize_decimal (finite is_negative coefficient (pos exponent)) =
    decimal (coefficient * 10 ^ exponent)
serialize_decimal (finite is_negative coefficient (negsuc n)) =
    fixed_point (strip_zeros (suc n) coefficient)

-- The exponent of so many fractional digits.
abbrev pub exponent_of : ℕ → ℤ
exponent_of zero = pos 0
exponent_of (suc n) = negsuc n

-- `[0-9]`
abbrev pub is_digit_code : ℕ → Bool
is_digit_code c = leb 48 c && leb c 57

-- The digits of a text after its decimal point: the coefficient and the number of the digits.
unfoldable pub read_fraction : ℕ → ℕ → List ℕ → Option (ℕ × ℕ)
read_fraction coefficient places [] = some (coefficient, places)
read_fraction coefficient places (c ∷ rest) =
    let read = read_fraction (coefficient * 10 + (c - 48)) (suc places) rest in
    if is_digit_code c then read else none

-- The digits of a text, with a decimal point or without one.
unfoldable pub read_digits : ℕ → List ℕ → Option (ℕ × ℕ)
unfolding read_fraction
read_digits coefficient [] = some (coefficient, 0)
read_digits coefficient (c ∷ rest) =
    let read = read_digits (coefficient * 10 + (c - 48)) rest in
    if c == 46 then read_fraction coefficient 0 rest else if is_digit_code c then read else none

-- `_canonical_decimal` of a text that has been read: the text is the one that the number is
-- serialized as.
abbrev pub same_text : String → Option (ℕ × ℕ) → Result Error Decimal
same_text text none = err invalid_decimal
same_text text (some (coefficient, places)) = do
  raise_if (not (str_eq (serialize_decimal (finite false coefficient (exponent_of places))) text))
      invalid_decimal
  ok (finite false coefficient (exponent_of places))

-- `_canonical_decimal`, as it reads a text. What its pattern refuses and is read here, like a zero in
-- front, is not the text of the number that is read.
unfoldable pub read_decimal : String → Result Error Decimal
unfolding read_digits
read_decimal text = do
  raise_if (ltb max_decimal_length (length (codes text))) invalid_decimal
  same_text text (read_digits 0 (codes text))

-- `_canonical_decimal`, whose value is a text.
unfoldable pub canonical_text : String → Result Error Decimal
unfolding read_decimal canonical_decimal
canonical_text text = do number ← read_decimal text; canonical_decimal number
