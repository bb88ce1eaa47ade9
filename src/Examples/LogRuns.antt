-- ===== src/Examples/LogRuns.antt =====
-- The two log lines of an event, with a monotonic reading in the translator's clocks.
use ebpf_ssf_broker.Base.{ℕ, ◌≡◌, refl, some, arith, codes}
use ebpf_ssf_broker.Base.Int.{◌-ℤ◌, pos}
use ebpf_ssf_broker.Examples.World.{at, clock_now, subject_a, claims_for}
use ebpf_ssf_broker.Pipeline.Logs.{
  IsSteady, line, posted_line, posted_attrs-pipeline_spans, IsStamped,
}
use ebpf_ssf_broker.Go.Clock.{wrap64, unix_nano, saturate, time_sub, Time}
use ebpf_ssf_broker.Caep.Set.{new_set}
use ebpf_ssf_broker.Go.Log.{Attrs, attr}

-- A time that time.Now returned: the wall clock, and the time since the process started.
abbrev now_at : ℕ → ℕ → Time
now_at wall since = record { wall = pos wall; mono = some (pos since) }

abbrev recv_a : Time
recv_a = now_at 5000100 100

abbrev t2_a : Time
t2_a = now_at 5000200 200

abbrev t3_a : Time
t3_a = now_at 5003100 3100

stamp_of_a : (claims_for subject_a).events.event_time_stamp_ns ≡ unix_nano (at 50)
stamp_of_a = unfold unix_nano wrap64 new_set in refl

-- The line of the actuator.
abbrev line_of_a : Attrs
line_of_a =
    line clock_now (codes "token") (claims_for subject_a) (at 50) recv_a t2_a t3_a stamp_of_a

abbrev posted_a_line : Attrs
posted_a_line =
    posted_line clock_now (codes "token") (claims_for subject_a) (at 50) recv_a t2_a t3_a stamp_of_a

stamped :
    IsStamped clock_now (codes "token") (claims_for subject_a) (at 50) recv_a t2_a t3_a stamp_of_a
stamped = record {
  stamp0 = ((omega arith, omega arith), refl);
  stamp1 = ((omega arith, omega arith), refl);
  stamp3 = ((omega arith, omega arith), refl);
  origin = refl;
}

steady : IsSteady t3_a recv_a
unfolding time_sub saturate ◌-ℤ◌
steady = refl

posted_attrs-pipeline_spans_example :
    (attr line_of_a (codes "t0_ns") ≡ attr posted_a_line (codes "t0_ns"))
    × (attr line_of_a (codes "t1_ns") ≡ attr posted_a_line (codes "t1_ns"))
    × (attr line_of_a (codes "t3_ns") ≡ attr posted_a_line (codes "t3_ns"))
    × (attr line_of_a (codes "detect_us") ≡ attr posted_a_line (codes "detect_us"))
    × (attr line_of_a (codes "translate_us") ≡ attr posted_a_line (codes "translate_us"))
posted_attrs-pipeline_spans_example =
    posted_attrs-pipeline_spans clock_now (codes "token") (claims_for subject_a) (at 50) recv_a t2_a
      t3_a stamp_of_a stamped steady
