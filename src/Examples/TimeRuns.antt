-- ===== src/Examples/TimeRuns.antt =====
-- Times as the logs write them.
use ebpf_ssf_broker.Base.{
  ℕ, ◌+◌, ◌*◌, ◌≡◌, refl, some, [], arith, if◌then◌else◌, Text, codes, text_eq,
}
use ebpf_ssf_broker.Logging.{time_key, replace_attr, time_value, string_value}
use ebpf_ssf_broker.Logging.Laws.{replace_attr_lem}
use ebpf_ssf_broker.Go.Rfc3339.{date_of, epoch_day, low_digits, drop_zeros, rfc3339_nano}
use ebpf_ssf_broker.Go.Rfc3339.Read.{read_nano}

test_dates :
    (date_of epoch_day ≡ record { year = 1970; month = 1; day = 1 })
    × (date_of (epoch_day + 20788) ≡ record { year = 2026; month = 12; day = 1 })
    × (date_of (epoch_day + 11016) ≡ record { year = 2000; month = 2; day = 29 })
unfolding date_of
test_dates = (refl, refl, refl)

test_text :
    rfc3339_nano (1796083200 * 1000000000 + 120034500) ≡ codes "2026-12-01T00:00:00.1200345Z"
unfolding rfc3339_nano date_of low_digits drop_zeros
test_text = refl

abbrev record_ns : ℕ
record_ns = 1796083200 * 1000000000 + 120034500

replace_attr_lem_example :
    (t : Text) × (read_nano t ≡ record_ns)
    × (replace_attr [] (record { key = time_key; value = time_value record_ns })
        ≡ some (record {
          key = time_key;
          value = if text_eq time_key time_key then string_value t else time_value record_ns;
        }))
replace_attr_lem_example = replace_attr_lem [] time_key record_ns (omega arith)
