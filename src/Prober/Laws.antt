-- ===== src/Prober/Laws.antt =====
-- cmd/service-a/main.go: the interval of the ticker and the labels of the counter.
use ebpf_ssf_broker.Base.{
  ℕ, ◌^◌, ◌<◌, ◌≡◌, refl, ◌⊎◌, inl, inr, true, Option, none, some, List, [], ◌∷◌, arith, Bool-cases,
  length, Text, is_empty,
}
use ebpf_ssf_broker.Base.Int.{ltb_ℤ, ℤ, pos}
use ebpf_ssf_broker.Go.Decimal.{parse_int}
use ebpf_ssf_broker.Prober.{
  default_interval, chosen, probe_interval, response, call, Probe, no_request, no_response,
}
use ebpf_ssf_broker.Go.Decimal.RoundTrip.{parse_int-format_int}

chosen_lem :
    (o : Option ℤ)
    → (ltb_ℤ (pos 0) (chosen o) ≡ true) × ((chosen o ≡ default_interval) ⊎ (o ≡ some (chosen o)))
chosen_lem none = (refl, inl refl)
chosen_lem (some d) = elim (Bool-cases (ltb_ℤ (pos 0) d)) [
  | inl positive ↦ rw positive (positive, inr refl)
  | inr other ↦ rw other (refl, inl refl)
]

-- The interval is positive whatever PROBE_INTERVAL holds, so that time.NewTicker does not panic,
-- and it is the default or the duration that the variable parses to.
pub probe_interval_lem :
    (parse_duration : Text → Option ℤ) (raw : Text)
    → (ltb_ℤ (pos 0) (probe_interval parse_duration raw) ≡ true)
      × ((probe_interval parse_duration raw ≡ default_interval)
          ⊎ (parse_duration raw ≡ some (probe_interval parse_duration raw)))
unfolding probe_interval
probe_interval_lem parse_duration raw = elim (Bool-cases (is_empty raw)) [
  | inl unset ↦ rw unset (refl, inl refl)
  | inr set_to ↦ rw set_to (chosen_lem (parse_duration raw))
]

-- The status that a probe brought back, if it brought one.
abbrev pub status_of : Probe → Option ℤ
status_of no_request = none
status_of no_response = none
status_of (response status body) = some (pos status)

-- The status counted by a label, if the label is one.
abbrev pub statuses : List Text → Option ℤ
statuses [] = none
statuses (label ∷ labels) = parse_int label

-- How many requests the probe sent.
abbrev pub sent : Probe → ℕ
sent no_request = 0
sent no_response = 1
sent (response status body) = 1

-- A status is an int64.
abbrev pub FitsInt64 : Probe → Type 0
FitsInt64 no_request = Unit
FitsInt64 no_response = Unit
FitsInt64 (response status body) = status < 2 ^ 63

-- A probe is counted once for the request that it sent, under a label that reads back as the
-- status of its response, also where the body could not be read; the label of a probe without a
-- response reads as no status.
pub call_lem :
    (p : Probe)
    → FitsInt64 p
    → (length (call p).counts ≡ sent p) × (statuses (call p).counts ≡ status_of p)
unfolding call
call_lem no_request h = (refl, refl)
call_lem no_response h = (refl, unfold parse_int in refl)
call_lem (response status body) h = (refl, parse_int-format_int (pos status) (omega arith))
