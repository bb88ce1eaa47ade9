-- ===== src/Examples/OtherRuns.antt =====
-- The smaller components on concrete inputs.
use ebpf_ssf_broker.Base.{
  ℕ, ◌+◌, ◌≡◌, refl, ap, ◌↔◌, true, false, none, some, List, [], ◌∷◌, ◌++◌, arith, if◌then◌else◌,
  keep, All, Text, codes, text_eq, is_empty, Lacks,
}
use ebpf_ssf_broker.Actuator.Labels.Pending.{needs_strip}
use ebpf_ssf_broker.Translator.Loop.Reconnect.{
  all_delivered, is_about_event, handle_all, reconnect-handle_all,
}
use ebpf_ssf_broker.Translator.Post.{Transport}
use ebpf_ssf_broker.Translator.Build.Laws.{parse-build_set}
use ebpf_ssf_broker.Actuator.Reset.Laws.{reset_dedupe_handler_lem}
use ebpf_ssf_broker.Actuator.Reset.{cleared_response, reset_dedupe_handler}
use ebpf_ssf_broker.Actuator.Labels.Clean.{remove_spire_label-clean, remove_spire_label_twice}
use ebpf_ssf_broker.Examples.World.{
  sample_pods_api, sample_pod_laws, pod_a, pod_b, at, event_pod, event_of, labels_a, sample_round,
  subject_a, principal_a,
}
use ebpf_ssf_broker.Examples.Token.{sample_jwt}
use ebpf_ssf_broker.Translator.Loop.{
  reconnect, kprobe, other_event, Received, message, end_of_stream, Round, Attempt, unopened,
  opened,
}
use ebpf_ssf_broker.Translator.Build.{build_set}
use ebpf_ssf_broker.Actuator.Events.{not_allowed, bare_response}
use ebpf_ssf_broker.Actuator.Spans.Laws.{attrs_of, stamp, pipeline_spans-observe_spans}
use ebpf_ssf_broker.Actuator.Spans.{observe_spans, pipeline_spans, Clocks}
use ebpf_ssf_broker.Actuator.WorkloadId.Laws.{workload_id, parse_workload_id_iff, IsSegment}
use ebpf_ssf_broker.Actuator.WorkloadId.{parse_workload_id, workload}
use ebpf_ssf_broker.Actuator.Labels.Laws.{is_managed}
use ebpf_ssf_broker.Actuator.Labels.{runs_as, remove_spire_label, PodObject, Removal}
use ebpf_ssf_broker.Go.Json.{quote}
use ebpf_ssf_broker.Caep.Set.{SetClaims}
use ebpf_ssf_broker.Go.Strings.{cut_prefix, split}
use ebpf_ssf_broker.Go.Clock.{zero_time, unix_nano}
use ebpf_ssf_broker.Go.Http.{field, has_key, method_post, status_accepted, Request}

segment : (s : Text) → is_empty s ≡ false → Lacks b'/' s → IsSegment s
segment s f w = record { filled = f; whole = w }

demo : IsSegment (codes "demo")
demo = segment (codes "demo") refl (omega arith)

service_a : IsSegment (codes "service-a")
service_a = segment (codes "service-a") refl (omega arith)

parse_workload_id_iff_example :
    (parse_workload_id subject_a ≡ workload (codes "demo") (codes "service-a")) ↔ (
      (td : Text) × (subject_a ≡ workload_id td (codes "demo") (codes "service-a"))
      × IsSegment td
      × IsSegment (codes "demo")
      × IsSegment (codes "service-a"))
parse_workload_id_iff_example = parse_workload_id_iff subject_a (codes "demo") (codes "service-a")

parsed_a : parse_workload_id subject_a ≡ workload (codes "demo") (codes "service-a")
unfolding parse_workload_id cut_prefix split text_eq
parsed_a = refl

app_a : field labels_a (codes "app") ≡ codes "service-a"
unfolding field text_eq
app_a = refl

parse-build_set_example :
    (c : SetClaims) × (build_set (λ t. t) (event_of labels_a) (at 50) (at 150) (codes "jti-1")
      ≡ some c)
    × (parse_workload_id c.sub_id.uri ≡ workload (codes "demo") (field labels_a (codes "app")))
    × (c.registered.id ≡ codes "jti-1")
    × (c.events.event_time_stamp_ns ≡ unix_nano (at 50))
parse-build_set_example =
    parse-build_set (λ t. t) (event_of labels_a) (at 50) (at 150) (codes "jti-1")
      (event_pod labels_a) refl demo (rw app_a service_a)

abbrev two_pods : List PodObject
two_pods = pod_a ∷ pod_b ∷ []

abbrev removed_a : Removal sample_pods_api
removed_a = remove_spire_label sample_pods_api two_pods subject_a

-- The first pod without the label.
abbrev stripped : List PodObject
stripped = record pod_a { labels = labels_a } ∷ pod_b ∷ []

removal_a : removed_a ≡ record { pods = stripped; patched = 1; errors = [] }
unfolding remove_spire_label parse_workload_id cut_prefix split text_eq has_key runs_as quote
removal_a = refl

no_errors : removed_a.errors ≡ []
no_errors = ap (λ r. r.errors) removal_a

remove_spire_label-clean_example :
    All (λ p. needs_strip (codes "service-a") p ≡ false) removed_a.pods
remove_spire_label-clean_example =
    remove_spire_label-clean sample_pods_api sample_pod_laws two_pods subject_a (codes "demo")
      (codes "service-a") parsed_a no_errors

remove_spire_label_twice_example :
    remove_spire_label sample_pods_api removed_a.pods subject_a
    ≡ record { pods = removed_a.pods; patched = 0; errors = [] }
remove_spire_label_twice_example =
    remove_spire_label_twice sample_pods_api sample_pod_laws two_pods subject_a (codes "demo")
      (codes "service-a") parsed_a (keep is_managed removed_a.pods) no_errors refl

abbrev sample_clocks : Clocks
sample_clocks = record {
  t0 = at 50;
  t1 = zero_time;
  t3 = at 300;
  t4 = at 400;
  t5 = at 500;
  t6 = at 9600;
}

pipeline_spans-observe_spans_example :
    pipeline_spans sample_clocks
    ≡ (stamp (codes "t0_ns") (at 50)
        ++ (stamp (codes "t1_ns") zero_time
            ++ (stamp (codes "t3_ns") (at 300)
                ++ (stamp (codes "t4_ns") (at 400)
                    ++ (stamp (codes "t5_ns") (at 500)
                        ++ (stamp (codes "t6_ns") (at 9600) ++ []))))))
      ++ attrs_of (observe_spans sample_clocks)
pipeline_spans-observe_spans_example = pipeline_spans-observe_spans sample_clocks

abbrev reset_request : Request
reset_request = record { method = method_post; headers = []; body = some [] }

reset_dedupe_handler_lem_example :
    reset_dedupe_handler reset_request (principal_a ∷ codes "other" ∷ []) ≡ (
      if text_eq method_post method_post
      then ([], cleared_response 2)
      else (principal_a ∷ codes "other" ∷ [], not_allowed))
reset_dedupe_handler_lem_example =
    reset_dedupe_handler_lem reset_request (principal_a ∷ codes "other" ∷ [])

-- A network in which every request is answered by 202, and that counts them.
abbrev pub counting : Transport
counting = record {
  World = ℕ;
  accepts_url = λ url. true;
  round_trip = λ n url req. (n + 1, some (bare_response status_accepted));
}

abbrev pub sample_stream : List (Round × Received)
sample_stream =
    (sample_round, message (record { event = other_event; time = none }))
    ∷ (sample_round, message (record { event = kprobe (event_of labels_a); time = none }))
    ∷ (sample_round, end_of_stream)
    ∷ []

-- A stream that could not be opened, one that ends, and one that is still open.
abbrev sample_attempts : List Attempt
sample_attempts = unopened ∷ opened sample_stream ∷ opened [] ∷ []

reconnect-handle_all_example :
    ((reconnect sample_jwt counting [] 0 sample_attempts).0
      ≡ (handle_all sample_jwt counting [] 0 (all_delivered sample_attempts)).0)
    × (keep is_about_event (reconnect sample_jwt counting [] 0 sample_attempts).1
        ≡ (handle_all sample_jwt counting [] 0 (all_delivered sample_attempts)).1)
reconnect-handle_all_example = reconnect-handle_all sample_jwt counting [] 0 sample_attempts
