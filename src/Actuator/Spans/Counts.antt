-- ===== src/Actuator/Spans/Counts.antt =====
-- cmd/actuator/metrics.go: how often each series is incremented or observed.
use ebpf_ssf_broker.Base.{
  ℕ, suc, ◌≤◌, ◌≡◌, refl, false, ◌&&◌, List, [], ◌∷◌, arith, if◌then◌else◌, All, Text, codes,
  text_eq, text_eq_iff, text_eq_refl,
}
use ebpf_ssf_broker.Go.Clock.{is_zero}
use ebpf_ssf_broker.Actuator.Spans.{
  service_label, known, pipeline_stage, span_table, inc_events, observe_stage, observe_pipeline,
  observe_each, observe_spans, Clocks, Span, MetricCall,
}

-- The Incs of a label among the calls.
abbrev pub incs : Text → List MetricCall → ℕ
incs l [] = 0
incs l (inc_events k ∷ ms) = let rest = incs l ms in if text_eq k l then suc rest else rest
incs l (observe_stage stage service d ∷ ms) = incs l ms
incs l (observe_pipeline d ∷ ms) = incs l ms

-- The observations of the actuator's series of a stage among the calls.
abbrev pub observed : Text → List MetricCall → ℕ
observed stage [] = 0
observed stage (inc_events k ∷ ms) = observed stage ms
observed stage (observe_stage s service d ∷ ms) =
    let rest = observed stage ms in
    if text_eq s stage && text_eq service service_label then suc rest else rest
observed stage (observe_pipeline d ∷ ms) = observed stage ms

-- The observations of the pipeline's histogram.
abbrev pub observed_whole : List MetricCall → ℕ
observed_whole [] = 0
observed_whole (inc_events k ∷ ms) = observed_whole ms
observed_whole (observe_stage s service d ∷ ms) = observed_whole ms
observed_whole (observe_pipeline d ∷ ms) = suc (observed_whole ms)

incs-observe_each : (l : Text) (ss : List Span) → incs l (observe_each ss) ≡ 0
unfolding observe_each
incs-observe_each l [] = refl
incs-observe_each l (s ∷ ss) = ground (arith, incs-observe_each l ss)

pub incs-observe_spans : (l : Text) (c : Clocks) → incs l (observe_spans c) ≡ 0
unfolding observe_spans
incs-observe_spans l c = incs-observe_each l (span_table c)

-- The spans of a stage that are known, in the order of the table.
abbrev known_of : Text → List Span → ℕ
known_of stage [] = 0
known_of stage (s ∷ ss) =
    let rest = known_of stage ss in if known s && text_eq s.stage stage then suc rest else rest

observed-observe_each :
    (stage : Text) (ss : List Span)
    → text_eq pipeline_stage stage ≡ false
    → observed stage (observe_each ss) ≡ known_of stage ss
unfolding observe_each
observed-observe_each stage [] h = refl
observed-observe_each stage (s ∷ ss) h = ground (
  arith,
  observed-observe_each stage ss h,
  text_eq_refl service_label,
  text_eq_iff s.stage pipeline_stage,
  text_eq_iff s.stage stage,
)

whole-observe_each :
    (ss : List Span) → observed_whole (observe_each ss) ≡ known_of pipeline_stage ss
unfolding observe_each
whole-observe_each [] = refl
whole-observe_each (s ∷ ss) = ground (arith, whole-observe_each ss)

abbrev pub stages : List Text
stages = codes "detect" ∷ codes "translate" ∷ codes "transport" ∷ codes "actuate" ∷ []

module _ (c : Clocks) where
  -- A stage of the table with one span.
  once_of :
      (stage : Text)
      → text_eq pipeline_stage stage ≡ false
      → known_of stage (span_table c) ≤ 1
      → observed stage (observe_spans c) ≤ 1
  unfolding observe_spans
  once_of stage differs once = rw (observed-observe_each stage (span_table c) differs) once

  -- One event observes each stage at most once.
  pub once-observe_spans : All (λ stage. observed stage (observe_spans c) ≤ 1) stages
  unfolding span_table text_eq
  once-observe_spans = (
    once_of (codes "detect") refl (ground arith),
    (
      once_of (codes "translate") refl (ground arith),
      (
        once_of (codes "transport") refl (ground arith),
        (once_of (codes "actuate") refl (ground arith), tt),
      ),
    ),
  )

  pub once-observe_whole : observed_whole (observe_spans c) ≤ 1
  unfolding observe_spans
  once-observe_whole =
      rw (whole-observe_each (span_table c)) (unfold span_table text_eq in ground arith)

  -- The stage of the mesh patch is observed if its two clocks are known.
  pub actuate-observe_spans :
      is_zero c.t5 ≡ false → is_zero c.t6 ≡ false → observed (codes "actuate") (observe_spans c) ≡ 1
  unfolding observe_spans
  actuate-observe_spans h k =
      rw (observed-observe_each (codes "actuate") (span_table c) (unfold text_eq in refl))
        (unfold span_table known text_eq in ground arith)
