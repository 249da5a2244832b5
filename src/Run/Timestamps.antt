-- ===== src/Run/Timestamps.antt =====
-- `_serialize_timestamp` of pmqa/run/models.py: the text of a time in UTC, which is counted in
-- microseconds from the start of the year 1.
use Prim.Native.String
use pmqa.Base.Digits.{padded}
use pmqa.Base.{
  ℕ, ◌+◌, ◌-◌, ◌*◌, ◌/◌, ◌%◌, String, Bool, true, false, not, ◌&&◌, ◌||◌, List, [], ◌∷◌, ltb, ◌==◌,
  if◌then◌else◌,
}

abbrev pub months_of : Bool → List ℕ
months_of true = 31 ∷ 29 ∷ 31 ∷ 30 ∷ 31 ∷ 30 ∷ 31 ∷ 31 ∷ 30 ∷ 31 ∷ 30 ∷ 31 ∷ []
months_of false = 31 ∷ 28 ∷ 31 ∷ 30 ∷ 31 ∷ 30 ∷ 31 ∷ 31 ∷ 30 ∷ 31 ∷ 30 ∷ 31 ∷ []

abbrev pub is_leap : ℕ → Bool
is_leap year = year % 4 == 0 && (not (year % 100 == 0) || year % 400 == 0)

-- The month and the day of a day of the year, from a month on.
unfoldable pub month_day : ℕ → List ℕ → ℕ → ℕ × ℕ
month_day month [] day = (month, day + 1)
month_day month (days ∷ later) day =
    let rest = month_day (month + 1) later (day - days) in
    if ltb day days then (month, day + 1) else rest

-- The year of a day, and the day of the year.
abbrev pub year_day : ℕ → ℕ × ℕ
year_day days =
    let n400 = days / 146097 in
    let r400 = days % 146097 in
    let n100 = r400 / 36524 in
    let r100 = r400 % 36524 in
    let n4 = r100 / 1461 in
    let r4 = r100 % 1461 in
    let n1 = r4 / 365 in
    let year = n400 * 400 + n100 * 100 + n4 * 4 + n1 in
    if n100 == 4 || n1 == 4 then (year, 365) else (year + 1, r4 % 365)

infixr 6 ◌+++◌
abbrev ◌+++◌ : String → String → String
s +++ t = String.◌++◌ s t

abbrev pub date_text : ℕ × ℕ → String
date_text (year, day) =
    let (month, day') = month_day 1 (months_of (is_leap year)) day in
    padded 4 year +++ "-" +++ padded 2 month +++ "-" +++ padded 2 day'

-- The fraction of a second, which is left out where it is zero.
abbrev pub fraction_text : ℕ → String
fraction_text microseconds = if microseconds == 0 then "" else "." +++ padded 6 microseconds

unfoldable pub serialize_timestamp : ℕ → String
unfolding month_day padded
serialize_timestamp instant =
    let seconds = instant / 1000000 in
    date_text (year_day (seconds / 86400))
    +++ "T"
    +++ padded 2 (seconds / 3600 % 24)
    +++ ":"
    +++ padded 2 (seconds / 60 % 60)
    +++ ":"
    +++ padded 2 (seconds % 60)
    +++ fraction_text (instant % 1000000)
    +++ "Z"
