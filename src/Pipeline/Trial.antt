-- ===== src/Pipeline/Trial.antt =====
-- A trial: service A probes service B through the sidecar of the mesh while the pipeline revokes, and
-- the policy takes its time to get to the sidecar.
use ebpf_ssf_broker.Base.{ℕ, Bool, Option, List, ◌∷◌, ◌++◌, Text, contains}
use ebpf_ssf_broker.Pipeline.Sidecar.{undisturbed, probing, Sidecar, Gap}
use ebpf_ssf_broker.Actuator.Registry.{Client}
use ebpf_ssf_broker.Actuator.Server.{Slice, Serving}
use ebpf_ssf_broker.Actuator.Concurrent.Burst.{in_policy}
use ebpf_ssf_broker.Pipeline.Streams.{messages, ran}
use ebpf_ssf_broker.Pipeline.Network.{Network}
use ebpf_ssf_broker.Pipeline.{principal_of_pod}
use ebpf_ssf_broker.Translator.Loop.{receive, kprobe, GetEventsResponse, Received, message, Round}
use ebpf_ssf_broker.Translator.Build.{Pod, ProcessKprobe}
use ebpf_ssf_broker.Translator.Post.{Transport}
use ebpf_ssf_broker.Go.Clock.{Time}
use ebpf_ssf_broker.Metrics.Series.{or_zero, CounterApi, CounterLaws}
use ebpf_ssf_broker.Prober.Loop.{passes, entered, Pass}
use ebpf_ssf_broker.Actuator.Events.{Deps}
use ebpf_ssf_broker.Actuator.Mesh.Laws.{PolicyLaws}
use ebpf_ssf_broker.ServiceB

module _ (counters : CounterApi) (counter_laws : CounterLaws counters) (start interval : ℕ) where
  -- The counter for a code after the passes of the loop.
  abbrev pub shown : List Pass → Text → ℕ
  shown ps code =
      or_zero
        (counter_laws.value (passes counters ps (entered counters start interval)).requests code)

module _ (d : Deps) (p : Client) (policies : d.policy_api.Store) (pods : d.pod_api.Store)
    (tr : Transport) (net : Network d p policies pods tr) (url : Text)
    (laws : PolicyLaws d.policy_api) (mesh : Sidecar d laws) (counters : CounterApi)
    (counter_laws : CounterLaws counters) (r : Round) (kp : Option ProcessKprobe)
    (time : Option Time) (pod : Pod) (w : tr.World) (ms : List (Round × GetEventsResponse))
    (later : List (Round × Received)) (more : List Slice) where
  open net use {incoming, trace}

  -- The event of the pod, behind what the stream delivered before.
  abbrev pub event_of_pod : GetEventsResponse
  event_of_pod = record { event = kprobe kp; time = time }

  -- What the process has run when the stream has been received and all its requests have returned.
  abbrev pub by_then : List Slice
  by_then =
      trace (receive d.jwt tr url w (messages ms ++ (r, message event_of_pod) ∷ later)).0 ++ more

  abbrev pub state_after : List Slice → Serving d p
  state_after es = ran d p policies pods tr net url es

  abbrev pub names_pod : d.policy_api.Store → Bool
  names_pod s = contains (in_policy d laws s) (principal_of_pod pod)

  -- The passes of the prober of the pod's workload, before the stream and after it, with what the
  -- sidecar has received at the start of both.
  abbrev pub trial :
      (req : ServiceB.Incoming) (received received' : d.policy_api.Store) (before : List (Bool × ℕ))
      (after : List Gap)
      → List Pass
  trial req received received' before after =
      probing d laws mesh p incoming (principal_of_pod pod) req received (state_after (trace w))
        (undisturbed before)
      ++ probing d laws mesh p incoming (principal_of_pod pod) req received' (state_after by_then)
          after
