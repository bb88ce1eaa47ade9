-- ===== src/Examples/ProbeRuns.antt =====
-- A few passes of the prober's loop, at an interval of 20 milliseconds.
use ebpf_ssf_broker.Base.{
  ℕ, ◌+◌, ◌*◌, ◌≤◌, ◌≡◌, refl, ◌⊎◌, Option, none, some, List, [], ◌∷◌, arith, if◌then◌else◌, length,
  Text, codes, text_eq,
}
use ebpf_ssf_broker.Base.Int.{ℤ, pos}
use ebpf_ssf_broker.Go.Http.{Fields, field}
use ebpf_ssf_broker.Examples.Counting.{sample_counters, sample_counter_laws}
use ebpf_ssf_broker.Metrics.Series.{or_zero}
use ebpf_ssf_broker.Prober.{probe_interval, call, no_response, response}
use ebpf_ssf_broker.Prober.Loop.{config, one_pass, passes, entered, Pass, Prober}
use ebpf_ssf_broker.Prober.Loop.Cadence.{cadence, next_probe_in}
use ebpf_ssf_broker.Prober.Loop.Counts.{answered_with, unanswered, counts-passes}
use ebpf_ssf_broker.Go.Ticker.{new_ticker, after_drops, receive_tick}
use ebpf_ssf_broker.Go.Decimal.{format_int}

abbrev millisecond : ℕ
millisecond = 1000000

abbrev answered : ℕ → ℕ → Pass
answered status took = record { probe = response status (some (codes "hello")); took = took }

-- Durations that are written as 20ms or 50ms are read.
abbrev parse_ms : Text → Option ℤ
parse_ms raw =
    if text_eq raw (codes "20ms")
    then some (pos (20 * millisecond))
    else if text_eq raw (codes "50ms")
    then some (pos (50 * millisecond))
    else none

abbrev env_20ms : Fields
env_20ms = (codes "PROBE_INTERVAL", codes "20ms") ∷ []

-- Two allowed probes, a slow one without an answer, and a denied one.
abbrev probes : List Pass
probes =
    answered 200 (2 * millisecond)
    ∷ answered 200 (3 * millisecond)
    ∷ record { probe = no_response; took = 45 * millisecond }
    ∷ answered 403 (1 * millisecond)
    ∷ []

counts-passes_example :
    (or_zero (
        (passes sample_counters probes (entered sample_counters 0 (20 * millisecond))).requests
          (format_int (pos 200)))
      ≡ answered_with 200 probes)
    × (or_zero (
          (passes sample_counters probes (entered sample_counters 0 (20 * millisecond))).requests
            (codes "error"))
        ≡ unanswered probes)
counts-passes_example =
    counts-passes sample_counters sample_counter_laws 0 (20 * millisecond) probes 200
      (omega arith, (omega arith, (tt, (omega arith, tt)))) (omega arith)

-- The probes that return at once.
abbrev quick_probes : List Pass
quick_probes = answered 200 (2 * millisecond) ∷ answered 403 (3 * millisecond) ∷ []

cadence_example :
    (passes sample_counters quick_probes (entered sample_counters 0 (20 * millisecond))).now
    ≡ 0 + length quick_probes * (20 * millisecond)
unfolding config probe_interval field text_eq
cadence_example =
    cadence sample_counters 0 parse_ms env_20ms quick_probes (omega arith, (omega arith, tt))

abbrev last_probe : Prober sample_counters
last_probe = passes sample_counters probes (entered sample_counters 0 (20 * millisecond))

next_probe_in_example :
    (0 + length probes * (20 * millisecond) ≤ last_probe.now)
    × (last_probe.now + 45 * millisecond
        ≤ (one_pass sample_counters (answered 403 (45 * millisecond)) last_probe).now)
    × ((one_pass sample_counters (answered 403 (45 * millisecond)) last_probe).now
          ≤ last_probe.now + 45 * millisecond
        ⊎ (one_pass sample_counters (answered 403 (45 * millisecond)) last_probe).now
          ≤ last_probe.now + 20 * millisecond)
unfolding config probe_interval field text_eq
next_probe_in_example =
    next_probe_in sample_counters 0 parse_ms env_20ms probes (answered 403 (45 * millisecond))

-- The slow probe starts at 40 ms and is over at 85 ms: the next one starts at once, and the one
-- behind it at 100 ms, back on the grid.
slow_then_on_grid :
    ((passes sample_counters
        (answered 200 (2 * millisecond)
          ∷ answered 200 (3 * millisecond)
          ∷ answered 200 (45 * millisecond)
          ∷ [])
        (entered sample_counters 0 (20 * millisecond))).now
      ≡ 85 * millisecond)
    × (last_probe.now ≡ 100 * millisecond)
unfolding passes one_pass receive_tick new_ticker after_drops call
slow_then_on_grid = (refl, refl)
