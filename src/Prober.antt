-- ===== src/Prober.antt =====
-- cmd/service-a/main.go: the interval of the probes, and what one probe counts.
pub mod Laws
pub mod Loop
use ebpf_ssf_broker.Base.{
  ℕ, not, Option, none, some, List, [], ◌∷◌, if◌then◌else◌, Text, codes, is_empty,
}
use ebpf_ssf_broker.Base.Int.{ltb_ℤ, ℤ, pos}
use ebpf_ssf_broker.Go.Decimal.{format_int}

-- One second, in nanoseconds.
abbrev pub default_interval : ℤ
default_interval = pos 1000000000

-- The switch of main on what time.ParseDuration returned, `none` for its error.
abbrev chosen : Option ℤ → ℤ
chosen none = default_interval
chosen (some d) = if not (ltb_ℤ (pos 0) d) then default_interval else d

-- The interval for the value of PROBE_INTERVAL.
unfoldable pub probe_interval : (parse_duration : Text → Option ℤ) → Text → ℤ
probe_interval parse_duration raw =
    if not (is_empty raw) then chosen (parse_duration raw) else default_interval

-- How one probe went: no request could be built, the request got no response, or a response came,
-- whose body may fail to be read.
pub data Probe : Type 0 where
  no_request no_response : Probe
  response : (status : ℕ) → (body : Option Text) → Probe

-- The label values that call counts, and the status and body of its "recv" log line.
pub record Called : Type 0 where
  pub counts : List Text
  pub log : Option (ℕ × Text)

abbrev logged : ℕ → Option Text → Option (ℕ × Text)
logged status none = none
logged status (some body) = some (status, body)

-- call
unfoldable pub call : Probe → Called
call no_request = record { counts = []; log = none }
call no_response = record { counts = codes "error" ∷ []; log = none }
call (response status body) = record {
  counts = format_int (pos status) ∷ [];
  log = logged status body;
}
