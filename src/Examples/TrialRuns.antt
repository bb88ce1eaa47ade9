-- ===== src/Examples/TrialRuns.antt =====
-- A trial in front of the sample cluster.
use ebpf_ssf_broker.Base.{
  ℕ, refl, Bool, true, false, List, [], ◌∷◌, if◌then◌else◌, Text, codes, contains,
}
use ebpf_ssf_broker.Examples.World.{
  sample_policy_laws, deps, fresh, event_pod, event_of, labels_a, sample_round, principal_a,
}
use ebpf_ssf_broker.Examples.PipelineRuns.{url, event_time}
use ebpf_ssf_broker.Examples.NetworkRuns.{sample_network, sampled, earlier, stream_end}
use ebpf_ssf_broker.Examples.Counting.{sample_counters, sample_counter_laws, sample_client}
use ebpf_ssf_broker.Examples.Cluster.{Server}
use ebpf_ssf_broker.Pipeline.Trial.{shown, trial}
use ebpf_ssf_broker.Pipeline.Sidecar.{Sidecar, Gap}
use ebpf_ssf_broker.ServiceB.{serve_hello, Incoming}
use ebpf_ssf_broker.Actuator.Server.{Slice}

abbrev sample_sidecar : Sidecar deps sample_policy_laws
sample_sidecar = record {
  admit = λ s principal req.
      if contains s.entries principal
      then record { status = 403; headers = []; body = codes "RBAC: access denied" }
      else (serve_hello req).0;
  denies = λ s principal req h. rw h refl;
  forwards = λ s principal req h. rw h refl;
}

abbrev probe_request : Incoming
probe_request = record {
  method = codes "GET";
  path = codes "/";
  remote_addr = codes "10.0.0.7:43210";
}

-- The passes behind the event. A push comes in front of the third one, behind a reset of the dedupe
-- set, and none in front of the last.
abbrev after_event : List Gap
after_event =
    record { slices = []; pushed = false; took = 2000000 }
    ∷ record { slices = []; pushed = false; took = 1000000 }
    ∷ record { slices = Slice.forget principal_a ∷ []; pushed = true; took = 45000000 }
    ∷ record { slices = []; pushed = false; took = 1000000 }
    ∷ []

abbrev before_event : List (Bool × ℕ)
before_event = (false, 2000000) ∷ (true, 3000000) ∷ []

-- The policies of the cluster before the event.
abbrev empty_policies : Server
empty_policies = (fresh true).policies

abbrev seen_by_prober : Text → ℕ
seen_by_prober = shown sample_counters sample_counter_laws 0 20000000 (
    trial deps sample_client empty_policies (fresh true).pods sample_network sampled url
      sample_policy_laws sample_sidecar sample_counters sample_counter_laws sample_round
      (event_of labels_a) event_time (event_pod labels_a) 0 earlier stream_end [] probe_request
      empty_policies empty_policies before_event after_event)
