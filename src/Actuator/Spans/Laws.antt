-- ===== src/Actuator/Spans/Laws.antt =====
-- cmd/actuator/main.go and metrics.go: the spans in the log and in the histograms, and the stamps.
use ebpf_ssf_broker.Base.{
  ℕ, suc, ◌≡◌, refl, inl, inr, List, [], ◌∷◌, ◌++◌, arith, if◌then◌else◌, Bool-cases, Text, codes,
  text_eq_iff,
}
use ebpf_ssf_broker.Base.Int.{eqb_ℤ, IsInt64, ℤ, pos}
use ebpf_ssf_broker.Go.Log.{Attrs}
use ebpf_ssf_broker.Go.Clock.{
  zero_time, is_zero, unix_nano, microseconds, wrap64_id, is_zero-unix, Time,
}
use ebpf_ssf_broker.Go.Decimal.{format_int}
use ebpf_ssf_broker.Go.Decimal.RoundTrip.{parse_int-format_int}
use ebpf_ssf_broker.Go.Http.{Fields, set_field, field-set_field_self}
use ebpf_ssf_broker.Actuator.Spans.{
  ns_to_time, header_time, pipeline_stage, span_table, inc_events, observe_stage, observe_pipeline,
  observe_each, observe_spans, log_stamps, log_spans, pipeline_spans, Clocks, Span, MetricCall,
}

-- The log attribute of an observation; the counter has none.
abbrev pub attr_of : MetricCall → Attrs
attr_of (inc_events result) = []
attr_of (observe_stage stage service d) = (stage ++ codes "_us", microseconds d) ∷ []
attr_of (observe_pipeline d) = (codes "pipeline_us", microseconds d) ∷ []

abbrev pub attrs_of : List MetricCall → Attrs
attrs_of [] = []
attrs_of (m ∷ ms) = attr_of m ++ attrs_of ms

log_spans-observe_each : (ss : List Span) → log_spans ss ≡ attrs_of (observe_each ss)
unfolding log_spans observe_each
log_spans-observe_each [] = refl
log_spans-observe_each (s ∷ ss) =
    ground (arith, log_spans-observe_each ss, text_eq_iff s.stage pipeline_stage)

-- A clock under its key in nanoseconds, and nothing if it is not known.
abbrev pub stamp : Text → Time → Attrs
stamp key t = if is_zero t then [] else (key, unix_nano t) ∷ []

log_stamps-stamp :
    (key : Text) (t : Time) (ss : List (Text × Time))
    → log_stamps ((key, t) ∷ ss) ≡ stamp key t ++ log_stamps ss
unfolding log_stamps
log_stamps-stamp key t ss = ground arith

no_stamp : log_stamps [] ≡ []
unfolding log_stamps
no_stamp = refl

log_spans-observe_spans : (c : Clocks) → log_spans (span_table c) ≡ attrs_of (observe_spans c)
unfolding observe_spans
log_spans-observe_spans c = log_spans-observe_each (span_table c)

-- The log line of an event starts with the stamps of its six clocks, in the order of their numbers
-- and without those that are not known, and ends in exactly the spans that the histograms observe,
-- in microseconds and in the same order.
pub pipeline_spans-observe_spans :
    (c : Clocks)
    → pipeline_spans c
      ≡ (stamp (codes "t0_ns") c.t0
          ++ (stamp (codes "t1_ns") c.t1
              ++ (stamp (codes "t3_ns") c.t3
                  ++ (stamp (codes "t4_ns") c.t4
                      ++ (stamp (codes "t5_ns") c.t5 ++ (stamp (codes "t6_ns") c.t6 ++ []))))))
        ++ attrs_of (observe_spans c)
unfolding pipeline_spans
pipeline_spans-observe_spans c =
    rw
      (
        log_stamps-stamp (codes "t0_ns") c.t0 (
            (codes "t1_ns", c.t1)
            ∷ (codes "t3_ns", c.t3)
            ∷ (codes "t4_ns", c.t4)
            ∷ (codes "t5_ns", c.t5)
            ∷ (codes "t6_ns", c.t6)
            ∷ []),
        log_stamps-stamp (codes "t1_ns") c.t1 (
            (codes "t3_ns", c.t3)
            ∷ (codes "t4_ns", c.t4)
            ∷ (codes "t5_ns", c.t5)
            ∷ (codes "t6_ns", c.t6)
            ∷ []),
        log_stamps-stamp (codes "t3_ns") c.t3
            ((codes "t4_ns", c.t4) ∷ (codes "t5_ns", c.t5) ∷ (codes "t6_ns", c.t6) ∷ []),
        log_stamps-stamp (codes "t4_ns") c.t4 ((codes "t5_ns", c.t5) ∷ (codes "t6_ns", c.t6) ∷ []),
        log_stamps-stamp (codes "t5_ns") c.t5 ((codes "t6_ns", c.t6) ∷ []),
        log_stamps-stamp (codes "t6_ns") c.t6 [],
        no_stamp,
        log_spans-observe_spans c,
      )
      refl

-- A stamp of zero is the zero time, and any other int64 is a known time that reads back.
pub ns_to_time_known :
    (ns : ℤ)
    → IsInt64 ns
    → (is_zero (ns_to_time ns) ≡ eqb_ℤ ns (pos 0))
      × (unix_nano (ns_to_time ns) ≡ (if eqb_ℤ ns (pos 0) then unix_nano zero_time else ns))
unfolding ns_to_time
ns_to_time_known ns h = elim (Bool-cases (eqb_ℤ ns (pos 0))) [
  | inl absent ↦ rw absent (unfold is_zero in refl, refl)
  | inr stamped ↦ rw stamped (is_zero-unix ns h, unfold unix_nano in wrap64_id ns h)
]

-- The time that a header carries in decimal arrives as it was sent.
pub header_time-format_int :
    (h : Fields) (key : Text) (ns : ℤ)
    → IsInt64 ns
    → header_time (set_field h key (format_int ns)) key ≡ ns_to_time ns
unfolding header_time
header_time-format_int h key ns k = rw (field-set_field_self h key, parse_int-format_int ns k)

-- How often the events counter is incremented.
abbrev pub counted : List MetricCall → ℕ
counted [] = 0
counted (inc_events r ∷ ms) = suc (counted ms)
counted (m ∷ ms) = counted ms

counted-observe_each : (ss : List Span) → counted (observe_each ss) ≡ 0
unfolding observe_each
counted-observe_each [] = refl
counted-observe_each (s ∷ ss) = ground (arith, counted-observe_each ss)

pub counted-observe_spans : (c : Clocks) → counted (observe_spans c) ≡ 0
unfolding observe_spans
counted-observe_spans c = counted-observe_each (span_table c)
