-- ===== src/Prober/Loop/Counts.antt =====
-- cmd/service-a/metrics.go and call: the counter of the probes over the passes of the loop.
use ebpf_ssf_broker.Base.{
  ℕ, suc, ◌+◌, ◌^◌, ◌<◌, ◌≡◌, refl, sym, inl, inr, Bool, true, false, none, List, [], ◌∷◌, arith,
  ◌==◌, if◌then◌else◌, ==_iff, Bool-cases, All, Text, codes, text_eq, text_eq_iff, text_eq_refl,
  text_eq_ne,
}
use ebpf_ssf_broker.Base.Int.{pos}
use ebpf_ssf_broker.Metrics.Series.{
  or_zero, occurrences, value-create_series, value-inc_each, CounterApi, CounterLaws,
}
use ebpf_ssf_broker.Prober.Loop.{probe_codes, one_pass, passes, entered, Pass, Prober}
use ebpf_ssf_broker.Prober.{response, call, Probe, no_request, no_response}
use ebpf_ssf_broker.Prober.Laws.{statuses, FitsInt64}
use ebpf_ssf_broker.Go.Decimal.{format_int, parse_int}
use ebpf_ssf_broker.Go.Decimal.RoundTrip.{parse_int-format_int}

-- The probe was answered with this status.
abbrev pub has_status : ℕ → Probe → Bool
has_status status no_request = false
has_status status no_response = false
has_status status (response got body) = got == status

-- The request of the probe got no response.
abbrev pub got_nothing : Probe → Bool
got_nothing no_request = false
got_nothing no_response = true
got_nothing (response got body) = false

-- The probes that were answered with a status, and those that got no response.
abbrev pub answered_with : ℕ → List Pass → ℕ
answered_with status [] = 0
answered_with status (p ∷ ps) =
    let rest = answered_with status ps in if has_status status p.probe then suc rest else rest

abbrev pub unanswered : List Pass → ℕ
unanswered [] = 0
unanswered (p ∷ ps) = let rest = unanswered ps in if got_nothing p.probe then suc rest else rest

-- Labels of different statuses differ.
label_eq :
    (a b : ℕ)
    → a < 2 ^ 63
    → b < 2 ^ 63
    → text_eq (format_int (pos a)) (format_int (pos b)) ≡ (a == b)
label_eq a b h k = elim (Bool-cases (a == b)) [
  | inl same ↦
      rw ((==_iff a b).0 same, text_eq_refl (format_int (pos b))) (sym ((==_iff b b).1 refl))
  | inr other ↦ rw other (
      text_eq_ne (format_int (pos a)) (format_int (pos b)) (λ e.
        let read_a = parse_int-format_int (pos a) (omega arith) in
        let read_b = parse_int-format_int (pos b) (omega arith) in
        let same : a ≡ b = cc in ground arith))
]

-- No status reads "error".
error_label : (a : ℕ) → a < 2 ^ 63 → text_eq (codes "error") (format_int (pos a)) ≡ false
error_label a h = text_eq_ne (codes "error") (format_int (pos a)) (λ e.
    let read_a = parse_int-format_int (pos a) (omega arith) in
    let none_read : parse_int (codes "error") ≡ none = unfold parse_int in refl in cc)

module _ (counters : CounterApi) (laws : CounterLaws counters) where
  abbrev total : Prober counters → Text → ℕ
  total s label = or_zero (laws.value s.requests label)

  total-one_pass :
      (p : Pass) (s : Prober counters) (label : Text)
      → total (one_pass counters p s) label
        ≡ total s label + occurrences label (call p.probe).counts
  unfolding one_pass
  total-one_pass p s label = value-inc_each counters laws (call p.probe).counts s.requests label

  status-one_pass :
      (p : Probe) (status : ℕ)
      → FitsInt64 p
      → status < 2 ^ 63
      → occurrences (format_int (pos status)) (call p).counts
        ≡ (if has_status status p then 1 else 0)
  unfolding call
  status-one_pass no_request status h k = refl
  status-one_pass no_response status h k = rw (error_label status k) refl
  status-one_pass (response got body) status h k = rw (label_eq got status h k) refl

  error-one_pass :
      (p : Probe)
      → FitsInt64 p
      → occurrences (codes "error") (call p).counts ≡ (if got_nothing p then 1 else 0)
  unfolding call
  error-one_pass no_request h = refl
  error-one_pass no_response h = unfold text_eq in refl
  error-one_pass (response got body) h =
      let differs : text_eq (format_int (pos got)) (codes "error") ≡ false = ground (
        arith,
        error_label got h,
        text_eq_iff (format_int (pos got)) (codes "error"),
        text_eq_refl (codes "error"),
      ) in
      rw differs refl

  total-passes :
      (ps : List Pass) (s : Prober counters) (status : ℕ)
      → All (λ p. FitsInt64 p.probe) ps
      → status < 2 ^ 63
      → (total (passes counters ps s) (format_int (pos status))
          ≡ total s (format_int (pos status)) + answered_with status ps)
        × (total (passes counters ps s) (codes "error") ≡ total s (codes "error") + unanswered ps)
  unfolding passes
  total-passes [] s status fits k = (omega arith, omega arith)
  total-passes (p ∷ ps) s status fits k =
      let (statuses, errors) = total-passes ps (one_pass counters p s) status fits.1 k in
      let one = total-one_pass p s (format_int (pos status)) in
      let one_error = total-one_pass p s (codes "error") in
      (
        ground (arith, statuses, one, status-one_pass p.probe status fits.0 k),
        ground (arith, errors, one_error, error-one_pass p.probe fits.0),
      )

  total-entered :
      (now interval : ℕ) (label : Text) → total (entered counters now interval) label ≡ 0
  total-entered now interval label = ground (
    arith,
    value-create_series counters laws probe_codes counters.new_counter_vec label,
    laws.value_new label,
  )

  -- After any passes of the loop, from its start on, the counter shows for each status how many
  -- probes were answered with it, and under "error" how many requests got no response: statuses do
  -- not share a series. Every status is one that fits an int64.
  pub counts-passes :
      (now interval : ℕ) (ps : List Pass) (status : ℕ)
      → All (λ p. FitsInt64 p.probe) ps
      → status < 2 ^ 63
      → (total (passes counters ps (entered counters now interval)) (format_int (pos status))
          ≡ answered_with status ps)
        × (total (passes counters ps (entered counters now interval)) (codes "error")
            ≡ unanswered ps)
  counts-passes now interval ps status fits k =
      let (statuses, errors) = total-passes ps (entered counters now interval) status fits k in
      (
        omega (arith, statuses, total-entered now interval (format_int (pos status))),
        omega (arith, errors, total-entered now interval (codes "error")),
      )
