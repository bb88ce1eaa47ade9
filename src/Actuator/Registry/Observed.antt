-- ===== src/Actuator/Registry/Observed.antt =====
-- cmd/actuator: the histograms and the policy against the counter of revocations.
use ebpf_ssf_broker.Base.{
  ℕ, ◌≤◌, ◌≡◌, refl, true, List, [], ◌∷◌, arith, All, Text, codes, text_eq, contains, All-contains,
}
use ebpf_ssf_broker.Metrics.{buckets}
use ebpf_ssf_broker.Actuator.Registry.Added.{IsTimed, revoked-Tally, actuate-Tally}
use ebpf_ssf_broker.Actuator.Registry.Tally.{tally}
use ebpf_ssf_broker.Actuator.Spans.{service_label, observe_spans}
use ebpf_ssf_broker.Actuator.Spans.Counts.{
  observed, observed_whole, stages, once-observe_spans, once-observe_whole,
}
use ebpf_ssf_broker.Actuator.Registry.{registered, serve_input, serve_inputs, Client, Process}
use ebpf_ssf_broker.Actuator.Registry.Performed.{
  events_of, stage_count, pipeline_count, events-registered, incs-perform_all, stages-perform_all,
  pipeline-perform_all, ClientLaws,
}
use ebpf_ssf_broker.Actuator.Events.{result_revoked, events_handler, Deps, State}
use ebpf_ssf_broker.Actuator.History.{Input, event, reset_dedupe}
use ebpf_ssf_broker.Metrics.Series.{or_zero}

module _ (d : Deps) (p : Client) (laws : ClientLaws p) where
  abbrev revocations : Process d p → ℕ
  revocations t = or_zero (events_of p laws t.metrics result_revoked)

  -- The histogram of the mesh patch has an observation for each revocation, and the other
  -- histograms have no more.
  pub record Matches (t : Process d p) : Type 0 where
    pub patches : stage_count p laws t.metrics (codes "actuate") ≡ revocations t
    pub in_stages :
        (stage : Text)
        → contains stages stage ≡ true
        → stage_count p laws t.metrics stage ≤ revocations t
    pub in_whole : pipeline_count p laws t.metrics ≤ revocations t

  Matches-start : (st : State d) → Matches (record { state = st; metrics = registered p })
  Matches-start st =
      let shown = events-registered p laws result_revoked (unfold contains text_eq in refl) in
      record {
        patches =
            rw (laws.histograms.count_new buckets (codes "actuate" ∷ service_label ∷ []), shown)
              refl;
        in_stages = λ stage h.
            rw (laws.histograms.count_new buckets (stage ∷ service_label ∷ [])) (omega arith);
        in_whole = rw (laws.histograms.count_new buckets []) (omega arith);
      }

  Matches-input :
      (i : Input) (t : Process d p) → IsTimed i → Matches t → Matches (serve_input d p t i)
  unfolding serve_input
  Matches-input (reset_dedupe req) t timed now = record {
    patches = now.patches;
    in_stages = now.in_stages;
    in_whole = now.in_whole;
  }
  Matches-input (event at req) t timed now =
      let ms = (events_handler d at req t.state).metrics in
      let sort = tally d at req t.state in
      let counter = incs-perform_all p laws ms t.metrics result_revoked in
      record {
        patches = omega (
          arith,
          counter,
          stages-perform_all p laws ms t.metrics (codes "actuate"),
          actuate-Tally timed sort,
          now.patches,
        );
        in_stages = λ stage h. omega (
          arith,
          counter,
          stages-perform_all p laws ms t.metrics stage,
          revoked-Tally (observed stage) refl (λ r ms. refl)
              (λ c.
                All-contains (λ s. observed s (observe_spans c) ≤ 1) stages stage
                  (once-observe_spans c) h)
              sort,
          now.in_stages stage h,
        );
        in_whole = omega (
          arith,
          counter,
          pipeline-perform_all p laws ms t.metrics,
          revoked-Tally observed_whole refl (λ r ms. refl) (λ c. once-observe_whole c) sort,
          now.in_whole,
        );
      }

  Matches-inputs :
      (is : List Input) (t : Process d p)
      → All IsTimed is
      → Matches t
      → Matches (serve_inputs d p t is)
  unfolding serve_inputs
  Matches-inputs [] t timed now = now
  Matches-inputs (i ∷ is) t timed now =
      Matches-inputs is (serve_input d p t i) timed.1 (Matches-input i t timed.0 now)

  -- If the clocks of the process never read the zero time, then from its start, and after any
  -- requests, the histogram of the mesh patch has had as many observations as the counter shows
  -- revocations, and neither those of the other stages nor that of the whole pipeline have had
  -- more: events that were deduped or failed are in none.
  pub Matches-serve_inputs :
      (st : State d) (is : List Input)
      → All IsTimed is
      → Matches (serve_inputs d p (record { state = st; metrics = registered p }) is)
  Matches-serve_inputs st is timed =
      Matches-inputs is (record { state = st; metrics = registered p }) timed (Matches-start st)
