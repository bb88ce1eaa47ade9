-- ===== src/Prober/Loop.antt =====
-- cmd/service-a/main.go and metrics.go: what main reads from the environment, its loop, and the
-- counter of the probes.
pub mod Cadence
pub mod Counts
use ebpf_ssf_broker.Base.{ℕ, ◌+◌, Option, List, [], ◌∷◌, Text, codes}
use ebpf_ssf_broker.Base.Int.{ℤ}
use ebpf_ssf_broker.Environment.{or_default}
use ebpf_ssf_broker.Go.Ticker.{new_ticker, receive_tick, Ticker}
use ebpf_ssf_broker.Go.Http.{Fields, field}
use ebpf_ssf_broker.Metrics.Series.{create_series, inc_each, CounterApi}
use ebpf_ssf_broker.Prober.{probe_interval, call, Probe}

pub record Config : Type 0 where
  pub target : Text
  pub interval : ℤ
  pub metrics_addr : Text

-- The settings of main.
unfoldable pub config : (parse_duration : Text → Option ℤ) → Fields → Config
config parse_duration env = record {
  target = or_default env (codes "TARGET_URL") (codes "https://service-b:8080/");
  interval = probe_interval parse_duration (field env (codes "PROBE_INTERVAL"));
  metrics_addr = or_default env (codes "METRICS_ADDR") (codes ":9091");
}

-- The codes that init creates at zero.
abbrev pub probe_codes : List Text
probe_codes = codes "200" ∷ codes "403" ∷ []

-- One pass of the loop: how the probe goes, and how many nanoseconds the call takes.
pub record Pass : Type 0 where
  pub probe : Probe
  pub took : ℕ

module _ (counters : CounterApi) where
  -- probeRequests, and the init of metrics.go
  abbrev pub probe_requests : counters.Vec
  probe_requests = create_series counters probe_codes counters.new_counter_vec

  -- The loop's state in front of a call: the time, the ticker, the counter.
  pub record Prober : Type 0 where
    pub now : ℕ
    pub tick : Ticker
    pub requests : counters.Vec

  abbrev resumed : counters.Vec → Ticker × ℕ → Prober
  resumed v (tick, now) = record { now = now; tick = tick; requests = v }

  -- One pass: call, then <-tick.C.
  unfoldable pub one_pass : Pass → Prober → Prober
  one_pass pass s =
      resumed (inc_each counters (call pass.probe).counts s.requests)
        (receive_tick s.tick (s.now + pass.took))

  -- The loop over the passes until the process is stopped.
  unfoldable pub passes : List Pass → Prober → Prober
  unfolding one_pass
  passes [] s = s
  passes (p ∷ ps) s = passes ps (one_pass p s)

  -- The state when main enters the loop.
  abbrev pub entered : (now interval : ℕ) → Prober
  entered now interval = record {
    now = now;
    tick = new_ticker now interval;
    requests = probe_requests;
  }
