-- ===== src/Actuator/Spans/Attributes.antt =====
-- cmd/actuator/main.go: pipelineSpans by its keys.
use ebpf_ssf_broker.Base.{
  ◌≡◌, refl, ◌∙◌, false, none, some, List, [], ◌∷◌, arith, All, Text, codes, text_eq,
}
use ebpf_ssf_broker.Go.Log.{Attrs, attr, attr-append}
use ebpf_ssf_broker.Go.Clock.{is_zero, unix_nano, time_sub, microseconds, Time}
use ebpf_ssf_broker.Actuator.Spans.{
  known, duration, span_table, log_stamps, log_spans, stamps, pipeline_spans, Clocks,
}

-- The stamps have no other keys than their own.
attr-log_stamps :
    (ss : List (Text × Time)) (key : Text)
    → All (λ s. text_eq s.0 key ≡ false) ss
    → attr (log_stamps ss) key ≡ none
unfolding attr log_stamps
attr-log_stamps [] key h = refl
attr-log_stamps ((k, t) ∷ ss) key h =
    let differs = h.0 in ground (arith, attr-log_stamps ss key h.1, differs)

module _ (c : Clocks) (k0 : is_zero c.t0 ≡ false) (k1 : is_zero c.t1 ≡ false)
    (k3 : is_zero c.t3 ≡ false) where
  behind_stamps :
      (key : Text)
      → All (λ s. text_eq s.0 key ≡ false) (stamps c)
      → attr (pipeline_spans c) key ≡ attr (log_spans (span_table c)) key
  unfolding pipeline_spans
  behind_stamps key other =
      rw
        (
          attr-append (log_stamps (stamps c)) (log_spans (span_table c)) key,
          attr-log_stamps (stamps c) key other,
        )
        refl

  -- The stamps and the spans of the translator's half are in the line if its three clocks are known.
  pub record IsLogged (a : Attrs) : Type 0 where
    pub t0_ns : attr a (codes "t0_ns") ≡ some (unix_nano c.t0)
    pub t1_ns : attr a (codes "t1_ns") ≡ some (unix_nano c.t1)
    pub t3_ns : attr a (codes "t3_ns") ≡ some (unix_nano c.t3)
    pub detect_us : attr a (codes "detect_us") ≡ some (microseconds (time_sub c.t1 c.t0))
    pub translate_us : attr a (codes "translate_us") ≡ some (microseconds (time_sub c.t3 c.t1))

  pub IsLogged-pipeline_spans : IsLogged (pipeline_spans c)
  unfolding pipeline_spans log_stamps attr text_eq
  IsLogged-pipeline_spans = record {
    t0_ns = rw k0 refl;
    t1_ns = rw (k0, k1) refl;
    t3_ns = rw (k0, k1, k3) refl;
    detect_us =
        behind_stamps (codes "detect_us") (refl, (refl, (refl, (refl, (refl, (refl, tt))))))
        ∙ (unfold log_spans span_table known duration in rw (k0, k1) refl);
    translate_us =
        behind_stamps (codes "translate_us") (refl, (refl, (refl, (refl, (refl, (refl, tt))))))
        ∙ (unfold log_spans span_table known duration in rw (k0, k1, k3) refl);
  }
