-- ===== src/Actuator/Registry.antt =====
-- cmd/actuator/metrics.go: the registered metrics, and what the requests of a life do to them.
pub mod Tally
pub mod Performed
pub mod Added
pub mod Totals
pub mod Observed
pub mod Growth
use ebpf_ssf_broker.Base.{List, [], ◌∷◌, Text}
use ebpf_ssf_broker.Metrics.{buckets}
use ebpf_ssf_broker.Actuator.Spans.{MetricCall, inc_events, observe_stage, observe_pipeline}
use ebpf_ssf_broker.Actuator.Events.{
  result_revoked, result_deduped, result_failed, events_handler, Deps, State,
}
use ebpf_ssf_broker.Actuator.History.{handle, Input, event, reset_dedupe}
use ebpf_ssf_broker.Metrics.Series.{create_series, CounterApi, HistogramApi}

-- client_golang's counters and histograms.
pub record Client : Type 1 where
  pub counters : CounterApi
  pub histograms : HistogramApi

module _ (p : Client) where
  -- eventsTotal, stageSeconds and pipelineSeconds
  pub record Registered : Type 0 where
    pub events_total : p.counters.Vec
    pub stage_seconds : p.histograms.Vec
    pub pipeline_seconds : p.histograms.Vec

  -- The labels that init creates at zero.
  abbrev pub event_results : List Text
  event_results = result_revoked ∷ result_deduped ∷ result_failed ∷ []

  -- The var block and init.
  abbrev pub registered : Registered
  registered = record {
    events_total = create_series p.counters event_results p.counters.new_counter_vec;
    stage_seconds = p.histograms.new_histogram_vec buckets;
    pipeline_seconds = p.histograms.new_histogram_vec buckets;
  }

  abbrev pub perform : MetricCall → Registered → Registered
  perform (inc_events result) r = record r { events_total = p.counters.inc r.events_total result }
  perform (observe_stage stage service d) r = record r {
    stage_seconds = p.histograms.observe r.stage_seconds (stage ∷ service ∷ []) d;
  }
  perform (observe_pipeline d) r = record r {
    pipeline_seconds = p.histograms.observe r.pipeline_seconds [] d;
  }

  -- The calls of one request, in their order.
  unfoldable pub perform_all : List MetricCall → Registered → Registered
  perform_all [] r = r
  perform_all (m ∷ ms) r = perform_all ms (perform m r)

module _ (d : Deps) (p : Client) where
  -- The process's state with its metrics.
  pub record Process : Type 0 where
    pub state : State d
    pub metrics : Registered p

  -- The reset handler calls no metric.
  unfoldable pub serve_input : Process → Input → Process
  serve_input t (event now req) =
      let h = events_handler d now req t.state in
      record { state = h.state; metrics = perform_all p h.metrics t.metrics }
  serve_input t (reset_dedupe req) = record t { state = handle d t.state (reset_dedupe req) }

  unfoldable pub serve_inputs : Process → List Input → Process
  unfolding serve_input
  serve_inputs t [] = t
  serve_inputs t (i ∷ is) = serve_inputs (serve_input t i) is
