-- ===== src/Go/Rfc3339/RoundTrip.antt =====
-- Package time: the layout RFC3339Nano read back.
use native.Mathlib.Nat.{pow-suc}
use mathlib.Core.List.{reverse, reverse-cons, reverse-reverse, map-append}
use ebpf_ssf_broker.Base.{
  ℕ, zero, suc, ◌+◌, ◌-◌, ◌*◌, ◌/◌, ◌%◌, ◌^◌, ◌≤◌, ◌<◌, ◌≡◌, refl, ap, ◌∙◌, inl, inr, false, List,
  [], ◌∷◌, ◌++◌, map, arith, ◌==◌, Bool-cases, length, All,
}
use ebpf_ssf_broker.Go.Rfc3339.{
  days_before_year, year_of_era, date_of, epoch_day, digit, low_digits, drop_zeros, fraction,
  rfc3339_nano,
}
use ebpf_ssf_broker.Go.Rfc3339.Read.{
  byte_at, behind, two_at, date_in, digits_in, low_value, scaled, fraction_in, read_nano,
  days_before_year_ge, month_of_day_le, days_before_month_ge, days_of-date_of, year_bound,
}

two_read : (n : ℕ) → n < 100 → 10 * (digit (n / 10) - 48) + (digit n - 48) ≡ n
two_read n h = omega arith

four_read :
    (n : ℕ)
    → n < 10000
    → 1000 * (digit (n / 1000) - 48)
        + 100 * (digit (n / 100) - 48)
        + 10 * (digit (n / 10) - 48)
        + (digit n - 48)
      ≡ n
four_read n h = omega arith

digits-low_digits : (k n : ℕ) → All (λ d. d < 10) (low_digits k n)
unfolding low_digits
digits-low_digits zero n = tt
digits-low_digits (suc k) n = (omega arith, digits-low_digits k (n / 10))

digits-drop_zeros : (ds : List ℕ) → All (λ d. d < 10) ds → All (λ d. d < 10) (drop_zeros ds)
unfolding drop_zeros
digits-drop_zeros [] h = tt
digits-drop_zeros (d ∷ ds) h = elim (Bool-cases (d == 0)) [
  | inl blank ↦ rw blank (digits-drop_zeros ds h.1)
  | inr kept ↦ rw kept h
]

map-reverse : (f : ℕ → ℕ) (l : List ℕ) → map f (reverse l) ≡ reverse (map f l)
map-reverse f [] = refl
map-reverse f (x ∷ l) =
    rw
      (
        reverse-cons x l,
        reverse-cons (f x) (map f l),
        map-append f (reverse l) (x ∷ []),
        map-reverse f l,
      )
      refl

-- The value of a byte that is a digit.
abbrev value : ℕ → ℕ
value c = c - 48

digits_in-map : (l : List ℕ) → digits_in (map digit l ++ b'Z' ∷ []) ≡ map (λ d. value (digit d)) l
unfolding digits_in
digits_in-map [] = refl
digits_in-map (d ∷ l) =
    let other : (digit d == b'Z') ≡ false = ground arith in rw (other, digits_in-map l) refl

value-digit : (ds : List ℕ) → All (λ d. d < 10) ds → map (λ d. value (digit d)) ds ≡ ds
value-digit [] h = refl
value-digit (d ∷ ds) h =
    let small = h.0 in
    let same : value (digit d) ≡ d = omega (arith, small) in rw (same, value-digit ds h.1) refl

fraction_in-fraction :
    (ds : List ℕ) → All (λ d. d < 10) ds → fraction_in (fraction ds ++ b'Z' ∷ []) ≡ scaled ds
unfolding fraction_in fraction low_value
fraction_in-fraction [] h = refl
fraction_in-fraction (d ∷ ds) h = ap scaled (
    ap reverse (digits_in-map (reverse (d ∷ ds)))
    ∙ ap reverse (map-reverse (λ e. value (digit e)) (d ∷ ds))
    ∙ reverse-reverse (map (λ e. value (digit e)) (d ∷ ds))
    ∙ value-digit (d ∷ ds) h)

shift_product : (v q : ℕ) → v * (q * 10) ≡ (0 + 10 * v) * q
shift_product v q = omega arith

scaled-drop_zeros : (ds : List ℕ) → length ds ≤ 9 → scaled (drop_zeros ds) ≡ scaled ds
unfolding drop_zeros low_value
scaled-drop_zeros [] h = refl
scaled-drop_zeros (d ∷ ds) h = elim (Bool-cases (d == 0)) [
  | inl blank ↦
      let none_left : d ≡ 0 = ground arith in
      let k : ℕ = 9 - suc (length ds) in
      let next : 9 - length ds ≡ suc k = omega (arith, h) in
      rw blank (
        scaled-drop_zeros ds (omega (arith, h))
        ∙ ap (λ e. low_value ds * 10 ^ e) next
        ∙ ap (λ q. low_value ds * q) (pow-suc 10 k)
        ∙ shift_product (low_value ds) (10 ^ k)
        ∙ rw none_left refl)
  | inr kept ↦ rw kept refl
]

fraction_lem :
    (n : ℕ) → n < 1000000000 → fraction_in (fraction (drop_zeros (low_digits 9 n)) ++ b'Z' ∷ []) ≡ n
fraction_lem n h =
    fraction_in-fraction (drop_zeros (low_digits 9 n))
      (digits-drop_zeros (low_digits 9 n) (digits-low_digits 9 n))
    ∙ scaled-drop_zeros (low_digits 9 n) (unfold low_digits in omega arith)
    ∙ (unfold low_digits low_value in omega arith)

date_bounds : (days : ℕ) → (date_of days).month < 100 × (date_of days).day < 100
unfolding date_of
date_bounds days =
    let d : ℕ = days % 146097 in
    let within : d < 146097 = omega arith in
    let year_most = days_before_year_ge d within in
    let doy : ℕ = d - days_before_year (year_of_era d) in
    let doy_within : doy ≤ 365 = omega (arith, year_most) in
    let month_most = month_of_day_le doy doy_within in
    let day_most = days_before_month_ge doy doy_within in
    (ground (arith, month_most), omega (arith, day_most))

module _ (ns : ℕ) where
  abbrev days : ℕ
  days = ns / 1000000000 / 86400 + epoch_day

  abbrev second : ℕ
  second = ns / 1000000000 % 86400

  date_in_text : ns < 253402300800 * 1000000000 → date_in (rfc3339_nano ns) ≡ date_of days
  unfolding rfc3339_nano byte_at
  date_in_text h =
      let (month, day) = date_bounds days in
      let year = year_bound days (omega arith) in
      rw
        (
          four_read (date_of days).year year,
          two_read (date_of days).month month,
          two_read (date_of days).day day,
        )
        refl

  -- A time of the log, from 1970 to 9999, reads back to the nanosecond.
  pub read_nano-rfc3339_nano : ns < 253402300800 * 1000000000 → read_nano (rfc3339_nano ns) ≡ ns
  unfolding read_nano
  read_nano-rfc3339_nano h =
      let hours : two_at (rfc3339_nano ns) 11 ≡ second / 3600 =
        unfold rfc3339_nano byte_at in two_read (second / 3600) (omega arith) in
      let minutes : two_at (rfc3339_nano ns) 14 ≡ second / 60 % 60 =
        unfold rfc3339_nano byte_at in two_read (second / 60 % 60) (omega arith) in
      let seconds : two_at (rfc3339_nano ns) 17 ≡ second % 60 =
        unfold rfc3339_nano byte_at in two_read (second % 60) (omega arith) in
      let rest : fraction_in (behind 19 (rfc3339_nano ns)) ≡ ns % 1000000000 =
        unfold rfc3339_nano behind in fraction_lem (ns % 1000000000) (omega arith) in
      rw (date_in_text h, days_of-date_of days, hours, minutes, seconds, rest) (omega arith)
