-- ===== src/Go/Rfc3339/Read.antt =====
-- Package time: what a text in the layout RFC3339Nano says.
use mathlib.Core.List.{reverse}
use ebpf_ssf_broker.Base.{
  ℕ, zero, suc, ◌+◌, ◌-◌, ◌*◌, ◌/◌, ◌%◌, ◌^◌, ◌≤◌, ◌<◌, ◌≡◌, refl, ◌∙◌, inl, inr, true, false, List,
  [], ◌∷◌, arith, ltb, ◌==◌, if◌then◌else◌, Bool-cases, length, Text,
}
use ebpf_ssf_broker.Go.Rfc3339.{
  days_before_year, year_of_era, days_before_month, month_of_day, date_of, epoch_day, Date,
}

-- The day of a date, as date_of counts them.
unfoldable pub days_of : Date → ℕ
days_of d =
    let m = if ltb d.month 3 then d.month + 9 else d.month - 3 in
    let y = if ltb d.month 3 then d.year - 1 else d.year in
    y / 400 * 146097 + days_before_year (y % 400) + days_before_month m + (d.day - 1)

-- The byte at an index, 0 behind the end.
unfoldable pub byte_at : Text → ℕ → ℕ
byte_at [] i = 0
byte_at (c ∷ t) zero = c
byte_at (c ∷ t) (suc i) = byte_at t i

unfoldable pub behind : ℕ → Text → Text
behind zero t = t
behind (suc n) [] = []
behind (suc n) (c ∷ t) = behind n t

abbrev pub digit_at : Text → ℕ → ℕ
digit_at t i = byte_at t i - 48

abbrev pub two_at : Text → ℕ → ℕ
two_at t i = 10 * digit_at t i + digit_at t (suc i)

abbrev pub date_in : Text → Date
date_in t = record {
  year = 1000 * digit_at t 0 + 100 * digit_at t 1 + 10 * digit_at t 2 + digit_at t 3;
  month = two_at t 5;
  day = two_at t 8;
}

-- The digits up to the Z.
unfoldable pub digits_in : Text → List ℕ
digits_in [] = []
digits_in (c ∷ t) = let rest = digits_in t in if c == b'Z' then [] else (c - 48) ∷ rest

-- A number by its digits, the last one first.
unfoldable pub low_value : List ℕ → ℕ
low_value [] = 0
low_value (d ∷ ds) = d + 10 * low_value ds

-- The nanoseconds of a fraction of some digits.
abbrev pub scaled : List ℕ → ℕ
scaled ds = low_value ds * 10 ^ (9 - length ds)

unfoldable pub fraction_in : Text → ℕ
fraction_in [] = 0
fraction_in (c ∷ t) = if c == b'.' then scaled (reverse (digits_in t)) else 0

-- The nanoseconds since the Unix epoch.
unfoldable pub read_nano : Text → ℕ
unfolding fraction_in
read_nano t =
    ((days_of (date_in t) - epoch_day) * 86400
        + two_at t 11 * 3600
        + two_at t 14 * 60
        + two_at t 17)
      * 1000000000
    + fraction_in (behind 19 t)

year_of_era_lem : (d : ℕ) → d < 146097 → year_of_era d ≤ 399
year_of_era_lem d h = omega arith

days_before_year_le : (d : ℕ) → d < 146097 → days_before_year (year_of_era d) ≤ d
days_before_year_le d h = omega arith

pub days_before_year_ge : (d : ℕ) → d < 146097 → d ≤ days_before_year (year_of_era d) + 365
days_before_year_ge d h = omega arith

pub month_of_day_le : (d : ℕ) → d ≤ 365 → month_of_day d ≤ 11
month_of_day_le d h = omega arith

days_before_month_le : (d : ℕ) → d ≤ 365 → days_before_month (month_of_day d) ≤ d
days_before_month_le d h = omega arith

pub days_before_month_ge : (d : ℕ) → d ≤ 365 → d ≤ days_before_month (month_of_day d) + 30
days_before_month_ge d h = omega arith

days_of_parts :
    (era y m d : ℕ)
    → y ≤ 399
    → m ≤ 11
    → days_of (record {
      year = 400 * era + y + (if ltb m 10 then 0 else 1);
      month = if ltb m 10 then m + 3 else m - 9;
      day = d + 1;
    })
      ≡ era * 146097 + days_before_year y + days_before_month m + d
unfolding days_of
days_of_parts era y m d h k = elim (Bool-cases (ltb m 10)) [
  | inl early ↦
      let within : m < 10 = ground arith in
      let past : ltb (m + 3) 3 ≡ false = ground arith in
      let this : (400 * era + y + 0) / 400 ≡ era = omega arith in
      let same : (400 * era + y + 0) % 400 ≡ y = omega arith in
      let back : m + 3 - 3 ≡ m = omega arith in
      let first : d + 1 - 1 ≡ d = omega arith in rw (early, past, this, same, back, first) refl
  | inr late ↦
      let beyond : 10 ≤ m = ground arith in
      let before : ltb (m - 9) 3 ≡ true = ground arith in
      let this : (400 * era + y + 1 - 1) / 400 ≡ era = omega arith in
      let same : (400 * era + y + 1 - 1) % 400 ≡ y = omega arith in
      let back : m - 9 + 9 ≡ m = omega arith in
      let first : d + 1 - 1 ≡ d = omega arith in rw (late, before, this, same, back, first) refl
]

-- The date of a day, read back.
pub days_of-date_of : (days : ℕ) → days_of (date_of days) ≡ days
unfolding date_of
days_of-date_of days =
    let era = days / 146097 in
    let d : ℕ = days % 146097 in
    let within : d < 146097 = omega arith in
    let y = year_of_era d in
    let doy : ℕ = d - days_before_year y in
    let year_least = days_before_year_le d within in
    let year_most = days_before_year_ge d within in
    let doy_within : doy ≤ 365 = omega (arith, year_most) in
    let month_least = days_before_month_le doy doy_within in
    days_of_parts era y (month_of_day doy) (doy - days_before_month (month_of_day doy))
      (year_of_era_lem d within) (month_of_day_le doy doy_within)
    ∙ omega (arith, year_least, month_least)

pub year_bound : (days : ℕ) → days < 3652365 → (date_of days).year < 10000
unfolding date_of
year_bound days h = ground arith
