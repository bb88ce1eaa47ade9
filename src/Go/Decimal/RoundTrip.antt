-- ===== src/Go/Decimal/RoundTrip.antt =====
-- Package strconv: ParseInt of what FormatInt writes.
use mathlib.Core.Logic.{ite, dite, if_pos, if_neg}
use mathlib.Core.WellFounded
use mathlib.Core.WellFounded.{Acc, Acc-prop}
use native.Mathlib.Decide.{dec_lt}
use ebpf_ssf_broker.Base.{
  ℕ, zero, suc, ◌+◌, ◌/◌, ◌%◌, ◌^◌, ◌≤◌, ◌<◌, ◌≡◌, refl, some, [], ◌∷◌, arith, Text,
}
use ebpf_ssf_broker.Base.Int.{IsInt64, ℤ, pos, negsuc}
use ebpf_ssf_broker.Go.Decimal.{
  lt_wf, tenth_lt, spell_acc, spell, format_uint, format_int, scan, parse_uint, parse_int,
}

-- Any two proofs of accessibility are equal, so a round is an equation.
spell_acc_round :
    (n : ℕ) (w : Acc ◌<◌ n) (w' : Acc ◌<◌ (n / 10)) (out : Text)
    → spell_acc n w out ≡ ite (dec_lt 0 n) (spell_acc (n / 10) w' ((b'0' + n % 10) ∷ out)) out
unfolding spell_acc
spell_acc_round n (Acc.intro _ smaller) w' out = λ i.
    dite (dec_lt 0 n)
      (λ h.
        spell_acc (n / 10) (Acc-prop (smaller (n / 10) (tenth_lt h)) w' i) ((b'0' + n % 10) ∷ out))
      (λ _. out)

spell_round :
    (n : ℕ) (out : Text)
    → spell n out ≡ ite (dec_lt 0 n) (spell (n / 10) ((b'0' + n % 10) ∷ out)) out
unfolding spell
spell_round n out = spell_acc_round n (lt_wf.apply n) (lt_wf.apply (n / 10)) out

scan_digit : (n : ℕ) (out : Text) → n < 2 ^ 64 → scan ((b'0' + n % 10) ∷ out) (n / 10) ≡ scan out n
unfolding scan
scan_digit n out h = ground arith

scan-spell : (n : ℕ) (out : Text) → n < 2 ^ 64 → scan (spell n out) 0 ≡ scan out n
scan-spell n =
    WellFounded.induction lt_wf
      {C = λ m. (out : Text) → m < 2 ^ 64 → scan (spell m out) 0 ≡ scan out m} n
      λ m ih out h. grind (arith, spell_round m out, scan_digit m out h, ih (m / 10))

abbrev BeginsWithDigit : Text → Type 0
BeginsWithDigit [] = ⊥
BeginsWithDigit (c ∷ s) = (b'0' ≤ c) × (c ≤ b'9')

spell-BeginsWithDigit : (n : ℕ) (out : Text) → BeginsWithDigit out → BeginsWithDigit (spell n out)
spell-BeginsWithDigit n =
    WellFounded.induction lt_wf
      {C = λ m. (out : Text) → BeginsWithDigit out → BeginsWithDigit (spell m out)} n
      λ m ih out h. elim (dec_lt 0 m) [
        | yes p ↦
            rw (spell_round m out, if_pos _ p)
              (ih (m / 10) (tenth_lt p) ((b'0' + m % 10) ∷ out) (omega arith))
        | no p ↦ rw (spell_round m out, if_neg _ p) h
      ]

format_uint-suc : (n : ℕ) → format_uint (suc n) ≡ spell (suc n) []
unfolding format_uint
format_uint-suc n = ground arith

spell-suc-BeginsWithDigit : (n : ℕ) → BeginsWithDigit (spell (suc n) [])
spell-suc-BeginsWithDigit n =
    let positive : 0 < suc n = omega arith in
    rw (spell_round (suc n) [], if_pos _ positive)
      (spell-BeginsWithDigit (suc n / 10) ((b'0' + suc n % 10) ∷ []) (omega arith))

format_uint-BeginsWithDigit : (n : ℕ) → BeginsWithDigit (format_uint n)
format_uint-BeginsWithDigit zero = unfold format_uint in omega arith
format_uint-BeginsWithDigit (suc n) = rw (format_uint-suc n) (spell-suc-BeginsWithDigit n)

parse_uint-scan : (s : Text) → BeginsWithDigit s → parse_uint s ≡ scan s 0
unfolding parse_uint
parse_uint-scan [] h = absurd h
parse_uint-scan (c ∷ s) h = refl

scan-format_uint : (n : ℕ) → n < 2 ^ 64 → scan (format_uint n) 0 ≡ some n
scan-format_uint zero h = unfold format_uint scan in ground arith
scan-format_uint (suc n) h = rw (format_uint-suc n, scan-spell (suc n) [] h) (unfold scan in refl)

parse_uint-format_uint : (n : ℕ) → n < 2 ^ 64 → parse_uint (format_uint n) ≡ some n
parse_uint-format_uint n h =
    rw (parse_uint-scan (format_uint n) (format_uint-BeginsWithDigit n)) (scan-format_uint n h)

parse_int_unsigned :
    (s : Text) (n : ℕ)
    → BeginsWithDigit s
    → n < 2 ^ 63
    → parse_uint s ≡ some n
    → parse_int s ≡ some (pos n)
unfolding parse_int
parse_int_unsigned [] n h k e = absurd h
parse_int_unsigned (c ∷ s) n h k e = ground arith

-- Every int64 is read back from its decimal print.
pub parse_int-format_int : (z : ℤ) → IsInt64 z → parse_int (format_int z) ≡ some z
unfolding format_int
parse_int-format_int (pos n) h =
    parse_int_unsigned (format_uint n) n (format_uint-BeginsWithDigit n) (omega arith)
      (parse_uint-format_uint n (omega arith))
parse_int-format_int (negsuc n) h =
    unfold parse_int in rw (parse_uint-format_uint (suc n) (omega arith)) (ground arith)
