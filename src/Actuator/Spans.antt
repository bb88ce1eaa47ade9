-- ===== src/Actuator/Spans.antt =====
-- cmd/actuator/metrics.go and the clocks of main.go: the spans of the pipeline, as they are logged
-- and as they are observed.
pub mod Laws
pub mod Counts
pub mod Attributes
use ebpf_ssf_broker.Base.{
  Bool, not, ◌&&◌, Option, none, some, List, [], ◌∷◌, ◌++◌, if◌then◌else◌, Text, codes, text_eq,
}
use ebpf_ssf_broker.Base.Int.{eqb_ℤ, ℤ, pos}
use ebpf_ssf_broker.Go.Log.{Attrs}
use ebpf_ssf_broker.Go.Clock.{
  Duration, zero_time, is_zero, unix, unix_nano, time_sub, microseconds, Time,
}
use ebpf_ssf_broker.Go.Decimal.{parse_int}
use ebpf_ssf_broker.Go.Http.{Fields, field}

abbrev pub header_t1 : Text
header_t1 = codes "X-Zta-T1-Ns"

abbrev pub header_t3 : Text
header_t3 = codes "X-Zta-T3-Ns"

abbrev pub service_label : Text
service_label = codes "actuator"

-- nsToTime: no stamp becomes the zero time, not 1970.
unfoldable pub ns_to_time : ℤ → Time
ns_to_time ns = if eqb_ℤ ns (pos 0) then zero_time else unix ns

abbrev time_of_parsed : Option ℤ → Time
time_of_parsed none = zero_time
time_of_parsed (some ns) = ns_to_time ns

-- headerTime
unfoldable pub header_time : Fields → Text → Time
header_time h key = time_of_parsed (parse_int (field h key))

-- The arguments of spanTable, pipelineSpans and observeSpans.
pub record Clocks : Type 0 where
  pub t0 : Time
  pub t1 : Time
  pub t3 : Time
  pub t4 : Time
  pub t5 : Time
  pub t6 : Time

pub record Span : Type 0 where
  pub stage : Text
  pub start : Time
  pub stop : Time

unfoldable pub known : Span → Bool
known s = not (is_zero s.start) && not (is_zero s.stop)

unfoldable pub duration : Span → Duration
duration s = time_sub s.stop s.start

abbrev pub pipeline_stage : Text
pipeline_stage = codes "pipeline"

-- spanTable
unfoldable pub span_table : Clocks → List Span
span_table c =
    record { stage = codes "detect"; start = c.t0; stop = c.t1 }
    ∷ record { stage = codes "translate"; start = c.t1; stop = c.t3 }
    ∷ record { stage = codes "transport"; start = c.t3; stop = c.t4 }
    ∷ record { stage = codes "actuate"; start = c.t5; stop = c.t6 }
    ∷ record { stage = pipeline_stage; start = c.t0; stop = c.t6 }
    ∷ []

-- A call into the metrics library. The observed float is the duration in seconds; here it stays
-- the duration itself.
pub data MetricCall : Type 0 where
  inc_events : (result : Text) → MetricCall
  observe_stage : (stage service : Text) → Duration → MetricCall
  observe_pipeline : Duration → MetricCall

observation : Span → MetricCall
observation s =
    if text_eq s.stage pipeline_stage
    then observe_pipeline (duration s)
    else observe_stage s.stage service_label (duration s)

observe_each : List Span → List MetricCall
unfolding observation
observe_each [] = []
observe_each (s ∷ ss) =
    let rest = observe_each ss in if not (known s) then rest else observation s ∷ rest

-- observeSpans
unfoldable pub observe_spans : Clocks → List MetricCall
unfolding observe_each span_table
observe_spans c = observe_each (span_table c)

pub log_stamps : List (Text × Time) → Attrs
log_stamps [] = []
log_stamps ((key, at) ∷ ss) =
    let rest = log_stamps ss in if not (is_zero at) then (key, unix_nano at) ∷ rest else rest

log_spans : List Span → Attrs
log_spans [] = []
log_spans (s ∷ ss) =
    let rest = log_spans ss in
    if known s then (s.stage ++ codes "_us", microseconds (duration s)) ∷ rest else rest

-- The stamps of pipelineSpans, with their keys.
abbrev pub stamps : Clocks → List (Text × Time)
stamps c =
    (codes "t0_ns", c.t0)
    ∷ (codes "t1_ns", c.t1)
    ∷ (codes "t3_ns", c.t3)
    ∷ (codes "t4_ns", c.t4)
    ∷ (codes "t5_ns", c.t5)
    ∷ (codes "t6_ns", c.t6)
    ∷ []

-- pipelineSpans
unfoldable pub pipeline_spans : Clocks → Attrs
unfolding log_stamps log_spans span_table
pipeline_spans c = log_stamps (stamps c) ++ log_spans (span_table c)
