-- ===== src/Go/Rfc3339.antt =====
-- Package time: Format with the layout RFC3339Nano for a time in UTC, by the nanoseconds since the
-- Unix epoch.
pub mod Read
pub mod RoundTrip
use mathlib.Core.List.{reverse}
use ebpf_ssf_broker.Base.{
  ℕ, zero, suc, ◌+◌, ◌-◌, ◌*◌, ◌/◌, ◌%◌, List, [], ◌∷◌, ◌++◌, map, ltb, ◌==◌, if◌then◌else◌, Text,
}

pub record Date : Type 0 where
  pub year : ℕ
  pub month : ℕ
  pub day : ℕ

-- The years of a 400-year era are counted from the first of March, in which leap days stand last.
-- The day of the era, from the first of March of its first year.
abbrev pub days_before_year : ℕ → ℕ
days_before_year y = 365 * y + y / 4 - y / 100

abbrev pub year_of_era : ℕ → ℕ
year_of_era d = (d - d / 1460 + d / 36524 - d / 146096) / 365

abbrev pub days_before_month : ℕ → ℕ
days_before_month m = (153 * m + 2) / 5

abbrev pub month_of_day : ℕ → ℕ
month_of_day d = (5 * d + 2) / 153

-- The date in the Gregorian calendar of a day since the first of March of the year 0.
unfoldable pub date_of : ℕ → Date
date_of days =
    let era = days / 146097 in
    let d = days % 146097 in
    let y = year_of_era d in
    let doy = d - days_before_year y in
    let m = month_of_day doy in
    record {
      year = 400 * era + y + (if ltb m 10 then 0 else 1);
      month = if ltb m 10 then m + 3 else m - 9;
      day = doy - days_before_month m + 1;
    }

-- The first of January 1970, as such a day.
abbrev pub epoch_day : ℕ
epoch_day = 719468

abbrev pub digit : ℕ → ℕ
digit n = 48 + n % 10

abbrev pub two : ℕ → Text
two n = digit (n / 10) ∷ digit n ∷ []

abbrev pub four : ℕ → Text
four n = digit (n / 1000) ∷ digit (n / 100) ∷ digit (n / 10) ∷ digit n ∷ []

-- The digits of a number of a given width, the last one first.
unfoldable pub low_digits : (width : ℕ) → ℕ → List ℕ
low_digits zero n = []
low_digits (suc k) n = n % 10 ∷ low_digits k (n / 10)

-- Zeros at the end of a fraction are left out.
unfoldable pub drop_zeros : List ℕ → List ℕ
drop_zeros [] = []
drop_zeros (d ∷ ds) = let rest = drop_zeros ds in if d == 0 then rest else d ∷ ds

pub fraction : List ℕ → Text
fraction [] = []
fraction (d ∷ ds) = b'.' ∷ map digit (reverse (d ∷ ds))

-- t.UTC().Format(time.RFC3339Nano), for a time from 1970 to 9999.
unfoldable pub rfc3339_nano : ℕ → Text
unfolding fraction
rfc3339_nano ns =
    let seconds = ns / 1000000000 in
    let date = date_of (seconds / 86400 + epoch_day) in
    let second = seconds % 86400 in
    four date.year
    ++ (b'-' ∷ two date.month)
    ++ (b'-' ∷ two date.day)
    ++ (b'T' ∷ two (second / 3600))
    ++ (b':' ∷ two (second / 60 % 60))
    ++ (b':' ∷ two (second % 60))
    ++ (fraction (drop_zeros (low_digits 9 (ns % 1000000000))) ++ b'Z' ∷ [])
