-- ===== src/Go/Clock.antt =====
-- Package time: a wall clock in nanoseconds since the Unix epoch, with the monotonic reading that
-- time.Now adds and time.Unix does not.
use ebpf_ssf_broker.Base.{
  ◌-◌, ◌*◌, ◌%◌, ◌^◌, ◌≡◌, Bool, false, Option, none, some, arith, ltb, if◌then◌else◌,
}
use ebpf_ssf_broker.Base.Int.{
  ◌-ℤ◌, ltb_ℤ, eqb_ℤ, quot_ℤ, min_int64, max_int64, IsInt64, ℤ, pos, negsuc,
}

pub record Time : Type 0 where
  pub wall : ℤ
  pub mono : Option ℤ

-- time.Duration, in nanoseconds
abbrev pub Duration : Type 0
Duration = ℤ

-- time.Time{} is the first of January of year 1.
abbrev pub zero_time : Time
zero_time = record { wall = negsuc (62135596800 * 1000000000 - 1); mono = none }

unfoldable pub is_zero : Time → Bool
is_zero t = eqb_ℤ t.wall zero_time.wall

-- time.Unix(0, ns)
abbrev pub unix : ℤ → Time
unix ns = record { wall = ns; mono = none }

-- The value of an integer as an int64, modulo 2^64.
unfoldable pub wrap64 : ℤ → ℤ
wrap64 (pos n) = let u = n % 2 ^ 64 in if ltb u (2 ^ 63) then pos u else negsuc (2 ^ 64 - 1 - u)
wrap64 (negsuc n) = let u = n % 2 ^ 64 in if ltb u (2 ^ 63) then negsuc u else pos (2 ^ 64 - 1 - u)

-- t.UnixNano()
unfoldable pub unix_nano : Time → ℤ
unix_nano t = wrap64 t.wall

-- A difference that does not fit an int64 becomes the nearest Duration.
unfoldable pub saturate : ℤ → Duration
saturate d = if ltb_ℤ d min_int64 then min_int64 else if ltb_ℤ max_int64 d then max_int64 else d

abbrev difference : Option ℤ → Option ℤ → ℤ → ℤ
difference (some m) (some n) walls = m -ℤ n
difference none o walls = walls
difference (some m) none walls = walls

-- t.Sub(u): by the monotonic readings if both have one, by the wall clocks otherwise.
unfoldable pub time_sub : Time → Time → Duration
unfolding saturate
time_sub t u = saturate (difference t.mono u.mono (t.wall -ℤ u.wall))

-- d.Microseconds()
unfoldable pub microseconds : Duration → ℤ
microseconds d = quot_ℤ d 1000

pub wrap64_id : (a : ℤ) → IsInt64 a → wrap64 a ≡ a
unfolding wrap64
wrap64_id (pos n) h = ground arith
wrap64_id (negsuc n) h = ground arith

pub wrap64-IsInt64 : (a : ℤ) → IsInt64 (wrap64 a)
unfolding wrap64
wrap64-IsInt64 (pos n) = ground arith
wrap64-IsInt64 (negsuc n) = ground arith

-- A stamp that came as an int64 is never the zero time: year 1 is out of its range.
pub is_zero-unix : (ns : ℤ) → IsInt64 ns → is_zero (unix ns) ≡ false
unfolding is_zero
is_zero-unix ns h = ground arith
