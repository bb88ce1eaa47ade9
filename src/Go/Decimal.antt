-- ===== src/Go/Decimal.antt =====
-- Package strconv: FormatInt and ParseInt in base 10 for int64.
pub mod RoundTrip
use mathlib.Core.Logic.{ite, dite}
use mathlib.Core.WellFounded.{Acc, WellFounded}
use native.Mathlib.Decide.{dec_lt}
use ebpf_ssf_broker.Base.{
  ℕ, zero, suc, ◌+◌, ◌-◌, ◌*◌, ◌/◌, ◌%◌, ◌^◌, ◌<◌, Bool, true, false, ◌||◌, Option, none, some, [],
  ◌∷◌, arith, ltb, leb, ◌==◌, if◌then◌else◌, Text,
}
use ebpf_ssf_broker.Base.Int.{sub_ℕ, ℤ, pos, negsuc}

Acc-below : (k n : ℕ) → n < k → Acc ◌<◌ n
Acc-below zero n h = absurd (omega arith)
Acc-below (suc k) n h = Acc.intro n λ m below. Acc-below k m (omega arith)

lt_wf : WellFounded ◌<◌
unfolding Acc-below
lt_wf = record { apply = λ n. Acc-below (suc n) n (omega arith) }

abbrev tenth_lt : {n : ℕ} → 0 < n → n / 10 < n
tenth_lt h = omega arith

-- The digits of `n` in front of `out`, none for zero.
spell_acc : (n : ℕ) → Acc ◌<◌ n → Text → Text
spell_acc n (Acc.intro _ smaller) out =
    dite (dec_lt 0 n)
      (λ h. spell_acc (n / 10) (smaller (n / 10) (tenth_lt h)) ((b'0' + n % 10) ∷ out)) (λ _. out)

spell : ℕ → Text → Text
unfolding spell_acc lt_wf dec_lt
spell n out = spell_acc n (lt_wf.apply n) out

-- strconv.FormatUint(n, 10)
unfoldable pub format_uint : ℕ → Text
unfolding spell
format_uint n = if n == 0 then b'0' ∷ [] else spell n []

-- strconv.FormatInt(z, 10), strconv.Itoa(z)
unfoldable pub format_int : ℤ → Text
unfolding format_uint
format_int (pos n) = format_uint n
format_int (negsuc n) = b'-' ∷ format_uint (suc n)

-- The loop of ParseUint: a byte that is no digit and an overflow of uint64 are errors.
scan : Text → ℕ → Option ℕ
scan [] n = some n
scan (c ∷ s) n =
    let d = c - b'0' in
    let rest = scan s (n * 10 + d) in
    if ltb c b'0' || ltb b'9' c
    then none
    else if leb ((2 ^ 64 - 1) / 10 + 1) n
    then none
    else if ltb (2 ^ 64 - 1) (n * 10 + d)
    then none
    else rest

-- strconv.ParseUint(s, 10, 64)
unfoldable pub parse_uint : Text → Option ℕ
unfolding scan
parse_uint [] = none
parse_uint (c ∷ s) = scan (c ∷ s) 0

-- The sign in front, and what is left.
abbrev take_sign : Text → Bool × Text
take_sign [] = (false, [])
take_sign (c ∷ s) =
    if c == b'-' then (true, s) else if c == b'+' then (false, s) else (false, c ∷ s)

abbrev with_sign : Bool → Option ℕ → Option ℤ
with_sign neg none = none
with_sign true (some n) = if ltb (2 ^ 63) n then none else some (sub_ℕ 0 n)
with_sign false (some n) = if leb (2 ^ 63) n then none else some (pos n)

-- strconv.ParseInt(s, 10, 64); `none` is any of its errors.
unfoldable pub parse_int : Text → Option ℤ
unfolding parse_uint
parse_int s = let (neg, rest) = take_sign s in with_sign neg (parse_uint rest)
