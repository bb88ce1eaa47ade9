-- ===== src/Examples/MainRuns.antt =====
-- The main of the translator until a signal.
use ebpf_ssf_broker.Base.{leb, ◌==◌, if◌then◌else◌}
use ebpf_ssf_broker.Examples.OtherRuns.{sample_stream}
use ebpf_ssf_broker.Translator.Main.{Outside}
use ebpf_ssf_broker.Translator.Loop.{unopened, opened}

-- The first stream cannot be opened, the second one ends, and the third check sees the signal.
abbrev until_signal : Outside
until_signal = record {
  cancelled = λ i. leb 2 i;
  attempt = λ i. if i == 0 then unopened else opened sample_stream;
}
