-- ===== src/Translator/Log.antt =====
-- cmd/translator/main.go: the clocks in the log line of a posted event.
use ebpf_ssf_broker.Base.{[], ◌∷◌, codes}
use ebpf_ssf_broker.Go.Clock.{unix_nano, time_sub, microseconds, Time}
use ebpf_ssf_broker.Go.Log.{Attrs}

-- The attributes of "POSTed SET to actuator" that are numbers.
abbrev pub posted_attrs : (t0 recv t2 t3 : Time) → Attrs
posted_attrs t0 recv t2 t3 =
    (codes "t0_ns", unix_nano t0)
    ∷ (codes "t1_ns", unix_nano recv)
    ∷ (codes "t2_ns", unix_nano t2)
    ∷ (codes "t3_ns", unix_nano t3)
    ∷ (codes "detect_us", microseconds (time_sub recv t0))
    ∷ (codes "mint_us", microseconds (time_sub t2 recv))
    ∷ (codes "translate_us", microseconds (time_sub t3 recv))
    ∷ []
