-- ===== src/Actuator/Registry/Performed.antt =====
-- cmd/actuator/metrics.go: the series after the calls of a request.
use ebpf_ssf_broker.Base.{
  ℕ, suc, ◌+◌, ◌≡◌, refl, ap, ◌∙◌, inl, inr, true, ◌&&◌, Option, some, List, [], ◌∷◌, arith,
  if◌then◌else◌, Bool-cases, Text, text_eq, text_eq_iff, contains,
}
use ebpf_ssf_broker.Actuator.Spans.{
  service_label, MetricCall, inc_events, observe_stage, observe_pipeline,
}
use ebpf_ssf_broker.Actuator.Spans.Counts.{incs, observed, observed_whole}
use ebpf_ssf_broker.Actuator.Registry.{
  event_results, registered, perform, perform_all, Client, Registered,
}
use ebpf_ssf_broker.Metrics.Series.{
  or_zero, value-create_series, value_inc, CounterLaws, HistogramLaws,
}
use ebpf_ssf_broker.Go.Clock.{Duration}

-- The laws of client_golang's counters and histograms.
pub record ClientLaws (p : Client) : Type 0 where
  pub counters : CounterLaws p.counters
  pub histograms : HistogramLaws p.histograms

module _ (p : Client) (laws : ClientLaws p) where
  -- What a scrape shows: the counter of a result, and the number of observations of a stage and of
  -- the whole pipeline.
  abbrev pub events_of : Registered p → Text → Option ℕ
  events_of r result = laws.counters.value r.events_total result

  abbrev pub stage_count : Registered p → Text → ℕ
  stage_count r stage = laws.histograms.count r.stage_seconds (stage ∷ service_label ∷ [])

  abbrev pub pipeline_count : Registered p → ℕ
  pipeline_count r = laws.histograms.count r.pipeline_seconds []

  -- init creates the series at zero.
  pub events-registered :
      (l : Text) → contains (event_results p) l ≡ true → events_of (registered p) l ≡ some 0
  events-registered l h =
      value-create_series p.counters laws.counters (event_results p) p.counters.new_counter_vec l
      ∙ rw (h, laws.counters.value_new l) refl

  pub events-perform_all :
      (ms : List MetricCall) (r : Registered p) (l : Text) (n : ℕ)
      → events_of r l ≡ some n
      → events_of (perform_all p ms r) l ≡ some (n + incs l ms)
  unfolding perform_all
  events-perform_all [] r l n h = rw h (ap some (omega arith))
  events-perform_all (inc_events k ∷ ms) r l n h = elim (Bool-cases (text_eq k l)) [
    | inl same ↦
        rw
          (
            same,
            events-perform_all ms (perform p (inc_events k) r) l (suc n)
                (value_inc p.counters laws.counters r.events_total k l ∙ rw (same, h) refl),
          )
          (ap some (omega arith))
    | inr other ↦
        rw
          (
            other,
            events-perform_all ms (perform p (inc_events k) r) l n
                (value_inc p.counters laws.counters r.events_total k l ∙ rw (other, h) refl),
          )
          refl
  ]
  events-perform_all (observe_stage s service d ∷ ms) r l n h =
      events-perform_all ms (perform p (observe_stage s service d) r) l n h
  events-perform_all (observe_pipeline d ∷ ms) r l n h =
      events-perform_all ms (perform p (observe_pipeline d) r) l n h

  -- The same for a series that may not be there yet.
  pub incs-perform_all :
      (ms : List MetricCall) (r : Registered p) (l : Text)
      → or_zero (events_of (perform_all p ms r) l) ≡ or_zero (events_of r l) + incs l ms
  unfolding perform_all
  incs-perform_all [] r l = omega arith
  incs-perform_all (inc_events k ∷ ms) r l = ground (
    arith,
    incs-perform_all ms (perform p (inc_events k) r) l,
    value_inc p.counters laws.counters r.events_total k l,
  )
  incs-perform_all (observe_stage s service d ∷ ms) r l =
      incs-perform_all ms (perform p (observe_stage s service d) r) l
  incs-perform_all (observe_pipeline d ∷ ms) r l =
      incs-perform_all ms (perform p (observe_pipeline d) r) l

  -- One call, with those that follow it.
  pub incs-perform :
      (m : MetricCall) (ms : List MetricCall) (r : Registered p) (l : Text)
      → or_zero (events_of (perform p m r) l) + incs l ms
        ≡ or_zero (events_of r l) + incs l (m ∷ ms)
  incs-perform (inc_events k) ms r l =
      ground (arith, value_inc p.counters laws.counters r.events_total k l)
  incs-perform (observe_stage s service d) ms r l = refl
  incs-perform (observe_pipeline d) ms r l = refl

  count_observe :
      (v : p.histograms.Vec) (s service stage : Text) (d : Duration)
      → laws.histograms.count
          (p.histograms.observe v (s ∷ service ∷ []) d)
          (stage ∷ service_label ∷ [])
        ≡ (if text_eq s stage && text_eq service service_label
            then suc (laws.histograms.count v (stage ∷ service_label ∷ []))
            else laws.histograms.count v (stage ∷ service_label ∷ []))
  count_observe v s service stage d =
      elim (Bool-cases (text_eq s stage && text_eq service service_label)) [
        | inl same ↦
            let first = (text_eq_iff s stage).0 (ground arith) in
            let second = (text_eq_iff service service_label).0 (ground arith) in
            rw same
              (rw (first, second) (laws.histograms.count_self v (stage ∷ service_label ∷ []) d))
        | inr other ↦ rw other (
            laws.histograms.count_other v (s ∷ service ∷ []) (stage ∷ service_label ∷ []) d (λ e.
              let first : s ≡ stage = cc in
              let second : service ≡ service_label = cc in
              ground (arith, text_eq_iff s stage, text_eq_iff service service_label)))
      ]

  pub stages-perform_all :
      (ms : List MetricCall) (r : Registered p) (stage : Text)
      → stage_count (perform_all p ms r) stage ≡ stage_count r stage + observed stage ms
  unfolding perform_all
  stages-perform_all [] r stage = omega arith
  stages-perform_all (inc_events k ∷ ms) r stage =
      stages-perform_all ms (perform p (inc_events k) r) stage
  stages-perform_all (observe_stage s service d ∷ ms) r stage = ground (
    arith,
    stages-perform_all ms (perform p (observe_stage s service d) r) stage,
    count_observe r.stage_seconds s service stage d,
  )
  stages-perform_all (observe_pipeline d ∷ ms) r stage =
      stages-perform_all ms (perform p (observe_pipeline d) r) stage

  pub pipeline-perform_all :
      (ms : List MetricCall) (r : Registered p)
      → pipeline_count (perform_all p ms r) ≡ pipeline_count r + observed_whole ms
  unfolding perform_all
  pipeline-perform_all [] r = omega arith
  pipeline-perform_all (inc_events k ∷ ms) r = pipeline-perform_all ms (perform p (inc_events k) r)
  pipeline-perform_all (observe_stage s service d ∷ ms) r =
      pipeline-perform_all ms (perform p (observe_stage s service d) r)
  pipeline-perform_all (observe_pipeline d ∷ ms) r = omega (
    arith,
    pipeline-perform_all ms (perform p (observe_pipeline d) r),
    laws.histograms.count_self r.pipeline_seconds [] d,
  )
