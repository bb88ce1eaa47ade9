-- ===== src/Logging/Laws.antt =====
-- cmd/actuator, cmd/service-a and cmd/translator: the times in the logs.
use ebpf_ssf_broker.Base.{
  ℕ, ◌*◌, ◌<◌, ◌≡◌, refl, inl, inr, ◌&&◌, some, List, if◌then◌else◌, Bool-cases, Text, text_eq,
}
use ebpf_ssf_broker.Logging.{time_value, string_value, time_key, is_top, replace_attr}
use ebpf_ssf_broker.Go.Rfc3339.{rfc3339_nano}
use ebpf_ssf_broker.Go.Rfc3339.Read.{read_nano}
use ebpf_ssf_broker.Go.Rfc3339.RoundTrip.{read_nano-rfc3339_nano}

-- ReplaceAttr replaces the time of a record, a time from 1970 to 9999, by a text that reads back to
-- the nanosecond, and leaves a time under another key or in a group as it is.
pub replace_attr_lem :
    (groups : List Text) (key : Text) (ns : ℕ)
    → ns < 253402300800 * 1000000000
    → (t : Text) × (read_nano t ≡ ns)
      × (replace_attr groups (record { key = key; value = time_value ns })
          ≡ some (record {
            key = key;
            value = if is_top groups && text_eq key time_key then string_value t else time_value ns;
          }))
unfolding replace_attr
replace_attr_lem groups key ns h = (
  rfc3339_nano ns,
  read_nano-rfc3339_nano ns h,
  elim (Bool-cases (is_top groups && text_eq key time_key)) [
    | inl chosen ↦ rw chosen refl
    | inr other ↦ rw other refl
  ],
)
