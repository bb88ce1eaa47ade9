-- ===== src/Logging.antt =====
-- cmd/actuator, cmd/service-a and cmd/translator: the ReplaceAttr of slog that the three mains set.
pub mod Laws
use ebpf_ssf_broker.Base.{
  ℕ, Bool, true, false, ◌&&◌, Option, none, some, List, [], ◌∷◌, if◌then◌else◌, Text, codes,
  text_eq,
}
use ebpf_ssf_broker.Base.Int.{ℤ}
use ebpf_ssf_broker.Go.Rfc3339.{rfc3339_nano}

-- An slog.Value of the kinds that the programs log. A time is one from 1970 to 9999, by the
-- nanoseconds since the Unix epoch.
pub data Value : Type 0 where
  time_value : ℕ → Value
  string_value : Text → Value
  int_value : ℤ → Value

pub record Attr : Type 0 where
  pub key : Text
  pub value : Value

-- slog.TimeKey
abbrev pub time_key : Text
time_key = codes "time"

-- a.Value.Time() panics for a value of another kind, here `none`.
abbrev with_time : Text → Value → Option Attr
with_time key (time_value ns) = some (record { key = key; value = string_value (rfc3339_nano ns) })
with_time key (string_value s) = none
with_time key (int_value z) = none

abbrev pub is_top : List Text → Bool
is_top [] = true
is_top (group ∷ groups) = false

-- ReplaceAttr
unfoldable pub replace_attr : (groups : List Text) → Attr → Option Attr
replace_attr groups a =
    if is_top groups && text_eq a.key time_key then with_time a.key a.value else some a
