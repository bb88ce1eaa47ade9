-- ===== src/Examples/PipelineRuns.antt =====
-- Events of a pod with and without an app label, from the stream to the policy.
use ebpf_ssf_broker.Base.{
  ◌≡◌, refl, ap, true, false, Option, none, some, List, [], ◌∷◌, arith, Text, codes, contains,
}
use ebpf_ssf_broker.Translator.Loop.Laws.{reports}
use ebpf_ssf_broker.Go.Clock.{Time}
use ebpf_ssf_broker.Pipeline.Unlabelled.{unlabelled_posted}
use ebpf_ssf_broker.Pipeline.Denied.{pipeline_completes}
use ebpf_ssf_broker.Pipeline.{direct, app_of, principal_of_pod}
use ebpf_ssf_broker.Examples.World.{
  sample_policy_laws, sample_pods_api, deps, at, clock_now, fresh, event_pod, event_of, labels_a,
  sample_round,
}
use ebpf_ssf_broker.Examples.Cluster.{sample_policies, body_of, marshal-body_of, patch_policy_body}
use ebpf_ssf_broker.Examples.Token.{sample_jwt, sample_jwt_laws}
use ebpf_ssf_broker.Translator.Loop.{handle_message, kprobe, GetEventsResponse, Action, posted}
use ebpf_ssf_broker.Translator.Build.{spiffe_uri}
use ebpf_ssf_broker.Actuator.Events.{State}
use ebpf_ssf_broker.Actuator.WorkloadId.Laws.{IsSegment}
use ebpf_ssf_broker.Actuator.WorkloadId.{empty_segment}
use ebpf_ssf_broker.Actuator.Labels.{remove_spire_label, bad_subject}
use ebpf_ssf_broker.Go.Http.{Fields, field}

abbrev pub url : Text
url = codes "http://actuator:8080/events"

abbrev pub event_time : Option Time
event_time = some (at 50)

abbrev pub message_of_pod : Fields → GetEventsResponse
message_of_pod labels = record { event = kprobe (event_of labels); time = event_time }

-- The principal of the pod with these labels.
abbrev pod_principal : Fields → Text
pod_principal labels = principal_of_pod (event_pod labels)

-- The round of the receive loop for an event of that pod.
abbrev round_for : Fields → State deps × List Action
round_for labels =
    handle_message sample_jwt (direct deps clock_now) url sample_round (fresh true)
      (message_of_pod labels)

abbrev no_labels : Fields
no_labels = []

new_principal : (p : Text) → contains (fresh true).revoked p ≡ false
unfolding contains
new_principal p = refl

granted :
    (p : Text)
    → (sample_policies.patch (fresh true).policies deps.namespace deps.policy_name (body_of p)).1
      ≡ none
granted p =
    ap (λ o. o.1) (patch_policy_body (fresh true).policies p (body_of p) (marshal-body_of p))

pipeline_completes_example :
    (reports (round_for labels_a).1
      ≡ posted sample_round.jti (at 50) sample_round.recv sample_round.t2 sample_round.t3 ∷ [])
    × ((round_for labels_a).0.policies.entries ≡ pod_principal labels_a ∷ [])
pipeline_completes_example =
    pipeline_completes deps clock_now url sample_round (fresh true) (event_of labels_a) event_time
      (event_pod labels_a) refl sample_jwt_laws (λ c m. tt) sample_policy_laws
      (new_principal (pod_principal labels_a)) (body_of (pod_principal labels_a))
      (marshal-body_of (pod_principal labels_a)) (granted (pod_principal labels_a))

IsSegment-demo : IsSegment (codes "demo")
IsSegment-demo = record { filled = refl; whole = omega arith }

unlabelled_posted_example :
    (reports (round_for no_labels).1
      ≡ posted sample_round.jti (at 50) sample_round.recv sample_round.t2 sample_round.t3 ∷ [])
    × ((round_for no_labels).0.policies.entries ≡ codes "example.org/ns/demo/sa/" ∷ [])
    × ((remove_spire_label sample_pods_api
          (fresh true).pods
          (spiffe_uri (codes "demo") (app_of (event_pod no_labels)))).errors
        ≡ bad_subject (empty_segment (spiffe_uri (codes "demo") (app_of (event_pod no_labels))))
          ∷ [])
unlabelled_posted_example =
    unlabelled_posted deps clock_now url sample_round (fresh true) (event_of no_labels) event_time
      (event_pod no_labels) refl sample_jwt_laws (λ c m. tt) sample_policy_laws
      (unfold field in refl) IsSegment-demo (new_principal (pod_principal no_labels))
      (body_of (pod_principal no_labels)) (marshal-body_of (pod_principal no_labels))
      (granted (pod_principal no_labels))
