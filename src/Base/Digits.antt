-- ===== src/Base/Digits.antt =====
-- Numbers in decimal.
use Prim.Native.String
use Prim.Native.String.{String}
use Prim.Native.Nat.{ℕ, zero, suc, ◌/◌, ◌%◌}
use mathlib.Core.List.{List, [], ◌∷◌}
use pmqa.Base.Tests.{ltb, if◌then◌else◌}

abbrev pub digit_in : List String → ℕ → String
digit_in [] d = ""
digit_in (name ∷ names) zero = name
digit_in (name ∷ names) (suc d) = digit_in names d

abbrev pub digits : List String
digits = "0" ∷ "1" ∷ "2" ∷ "3" ∷ "4" ∷ "5" ∷ "6" ∷ "7" ∷ "8" ∷ "9" ∷ []

-- `str(n)`, on fuel: a number has no more digits than its successor counts.
unfoldable pub decimal_from : ℕ → ℕ → String
decimal_from zero n = ""
decimal_from (suc fuel) n =
    let digit = digit_in digits (n % 10) in
    let front = decimal_from fuel (n / 10) in if ltb n 10 then digit else String.◌++◌ front digit

unfoldable pub decimal : ℕ → String
unfolding decimal_from
decimal n = decimal_from (suc n) n

-- The last digits of a number, as many as the width.
unfoldable pub padded : ℕ → ℕ → String
padded zero n = ""
padded (suc width) n = String.◌++◌ (padded width (n / 10)) (digit_in digits (n % 10))
