-- ===== src/Actuator/Registry/Added.antt =====
-- cmd/actuator: how one request changes the counter and the histograms together.
use ebpf_ssf_broker.Base.{
  ℕ, ◌+◌, ◌≤◌, ◌≡◌, refl, false, List, [], ◌∷◌, arith, if◌then◌else◌, Text, codes, text_eq,
}
use ebpf_ssf_broker.Actuator.Spans.{observe_spans, Clocks, MetricCall, inc_events}
use ebpf_ssf_broker.Actuator.Spans.Counts.{
  incs, observed, incs-observe_spans, actuate-observe_spans,
}
use ebpf_ssf_broker.Actuator.Registry.Tally.{
  Tally, skipped, malformed, errored, skipped_patch, actuated,
}
use ebpf_ssf_broker.Actuator.Events.{
  result_revoked, result_deduped, result_failed, Deps, Now, State, Handled,
}
use ebpf_ssf_broker.Actuator.Events.Laws.{arrived}
use ebpf_ssf_broker.Actuator.History.{Input, event, reset_dedupe}
use ebpf_ssf_broker.Go.Clock.{is_zero}
use ebpf_ssf_broker.Go.Http.{Request}

-- The clocks that this process reads are no zero times.
abbrev pub IsTimed : Input → Type 0
IsTimed (event now req) = (is_zero now.t5 ≡ false) × (is_zero now.t6 ≡ false)
IsTimed (reset_dedupe req) = Unit

module _ {d : Deps} {now : Now} {req : Request} {st : State d} {h : Handled d} where
  pub incs-Tally :
      Tally d now req st h
      → incs result_revoked h.metrics + incs result_deduped h.metrics + incs result_failed h.metrics
        ≡ (if arrived req then 1 else 0)
  unfolding text_eq
  incs-Tally (skipped a e s) = rw (a, e) refl
  incs-Tally (malformed a e s) = rw (a, e) refl
  incs-Tally (errored subject f a e s o) = rw (a, e) refl
  incs-Tally (skipped_patch subject a e s o) = rw (a, e) refl
  incs-Tally (actuated subject c a e s o times) =
      rw
        (
          a,
          e,
          incs-observe_spans result_revoked c,
          incs-observe_spans result_deduped c,
          incs-observe_spans result_failed c,
        )
        refl

  -- Observations that the spans of an event have at most once are made for revocations only.
  pub revoked-Tally :
      (f : List MetricCall → ℕ)
      → f [] ≡ 0
      → ((r : Text) (ms : List MetricCall) → f (inc_events r ∷ ms) ≡ f ms)
      → ((c : Clocks) → f (observe_spans c) ≤ 1)
      → Tally d now req st h
      → f h.metrics ≤ incs result_revoked h.metrics
  unfolding text_eq
  revoked-Tally f none_yet passes once (skipped a e s) = rw (e, none_yet) (omega arith)
  revoked-Tally f none_yet passes once (malformed a e s) = rw (e, passes, none_yet) (omega arith)
  revoked-Tally f none_yet passes once (errored subject x a e s o) =
      rw (e, passes, none_yet) (omega arith)
  revoked-Tally f none_yet passes once (skipped_patch subject a e s o) =
      rw (e, passes, none_yet) (omega arith)
  revoked-Tally f none_yet passes once (actuated subject c a e s o times) =
      rw (e, passes, incs-observe_spans result_revoked c) (once c)

  pub actuate-Tally :
      IsTimed (event now req)
      → Tally d now req st h
      → observed (codes "actuate") h.metrics ≡ incs result_revoked h.metrics
  unfolding text_eq
  actuate-Tally timed (skipped a e s) = rw e refl
  actuate-Tally timed (malformed a e s) = rw e refl
  actuate-Tally timed (errored subject f a e s o) = rw e refl
  actuate-Tally timed (skipped_patch subject a e s o) = rw e refl
  actuate-Tally timed (actuated subject c a e s o (t5, t6)) =
      rw
        (
          e,
          incs-observe_spans result_revoked c,
          actuate-observe_spans c (rw t5 timed.0) (rw t6 timed.1),
        )
        refl
