-- ===== src/Examples/ServerRuns.antt =====
-- Two requests at once for the first pod, in front of the sample API server.
use ebpf_ssf_broker.Base.{
  ℕ, ◌+◌, ◌≤◌, ◌≡◌, refl, inl, inr, true, false, List, [], ◌∷◌, arith, ◌==◌, ==_iff, Bool-cases,
  length, All, text_eq, contains,
}
use ebpf_ssf_broker.Base.Int.{◌-ℤ◌, quot_ℤ}
use ebpf_ssf_broker.Actuator.Mesh.Laws.{principal_of}
use ebpf_ssf_broker.Actuator.Concurrent.{run, at_start, Allowed, Sched}
use ebpf_ssf_broker.Actuator.Server.Simulates.{subjects, serve_slices-Simulates, Simulates}
use ebpf_ssf_broker.Actuator.Server.Denies.{is_settled, requests_deny}
use ebpf_ssf_broker.Actuator.Server.Growth.{revocations, uncounted_all, revocations-serve_slices}
use ebpf_ssf_broker.Actuator.Server.Totals.{
  events_counted, left_to_count, all_come, results-serve_slices,
}
use ebpf_ssf_broker.Actuator.Server.Local.{course_of}
use ebpf_ssf_broker.Actuator.Server.Alone.{slices_of, alone_serves}
use ebpf_ssf_broker.Actuator.History.{event}
use ebpf_ssf_broker.Actuator.Goroutines.LabelSide.{label_left}
use ebpf_ssf_broker.Go.Http.{field, has_key}
use ebpf_ssf_broker.Go.Json.{quote, marshal}
use ebpf_ssf_broker.Go.Strings.{cut_prefix, trim_prefix, split}
use ebpf_ssf_broker.Go.Clock.{is_zero, wrap64, unix_nano, time_sub, microseconds}
use ebpf_ssf_broker.Go.Decimal.{format_int, parse_int}
use ebpf_ssf_broker.Caep.Set.{new_set, SetClaims}
use ebpf_ssf_broker.Caep.Jwt.{decode_unsigned}
use ebpf_ssf_broker.Actuator.WorkloadId.{parse_workload_id}
use ebpf_ssf_broker.Actuator.Dedupe.{load_or_store}
use ebpf_ssf_broker.Actuator.Events.{bare_response, conclude, events_handler}
use ebpf_ssf_broker.Actuator.Spans.{
  ns_to_time, header_time, known, duration, span_table, observe_spans,
}
use ebpf_ssf_broker.Actuator.Goroutines.{
  after_patch, mesh_step_at, label_step_at, Turn, mesh_turn, label_turn, at_list,
}
use ebpf_ssf_broker.Actuator.Registry.{perform_all, serve_input}
use ebpf_ssf_broker.Actuator.Server.{
  begin_request, wait, advance, just_started, serve_slices, handler_side, mesh_side, label_side,
  Slice, slice, arriving, answered, Incoming, Serving,
}
use ebpf_ssf_broker.Examples.World.{
  sample_policy_laws, deps, clock_now, fresh, subject_a, principal_a, request_for, honest_server,
}
use ebpf_ssf_broker.Examples.Cluster.{patch_policy}
use ebpf_ssf_broker.Examples.Token.{write_token, read_token}
use ebpf_ssf_broker.Translator.Post.{set_request}
use ebpf_ssf_broker.Examples.Counting.{sample_client, sample_client_laws}
use ebpf_ssf_broker.Actuator.Labels.{visit_pod}
use ebpf_ssf_broker.Actuator.Server.Fits.{Carries, subject_in}
use ebpf_ssf_broker.Actuator.Mesh.{revoke_in_mesh}

-- Both events are for the first pod.
abbrev pub both : ℕ → Incoming
both i = record { now = clock_now; request = request_for subject_a }

abbrev thrice : Slice → List Slice → List Slice
thrice e es = e ∷ e ∷ e ∷ es

-- The second request begins while the first one is in front of its PATCH. Each label removal has
-- four turns, and each handler as many as its metrics need.
abbrev pub overlapping : List Slice
overlapping =
    slice 0 handler_side
    ∷ slice 1 handler_side
    ∷ slice 0 mesh_side
    ∷ slice 1 mesh_side
    ∷ thrice (slice 0 label_side) (
        slice 0 label_side
        ∷ slice 0 mesh_side
        ∷ thrice (slice 1 label_side) (
            slice 1 handler_side
            ∷ slice 0 handler_side
            ∷ thrice (slice 0 handler_side) (
                thrice (slice 0 handler_side)
                  (thrice (slice 0 handler_side) (thrice (slice 1 handler_side) [])))))

abbrev pub running : Serving deps sample_client
running =
    serve_slices deps sample_client both overlapping
      (just_started deps sample_client (fresh true).policies (fresh true).pods)

pub answered_both :
    (running.at 0 ≡ answered (bare_response 202)) × (running.at 1 ≡ answered (bare_response 202))
unfolding serve_slices advance begin_request wait conclude mesh_step_at label_step_at after_patch
    decode_unsigned new_set read_token write_token set_request text_eq contains trim_prefix
    cut_prefix load_or_store marshal quote patch_policy header_time perform_all parse_workload_id
    split visit_pod has_key parse_int field format_int unix_nano wrap64 ns_to_time known is_zero
    duration time_sub observe_spans span_table microseconds quot_ℤ ◌-ℤ◌
answered_both = (refl, refl)

pub settled_both : (j : ℕ) → is_settled (running.at j) ≡ true
settled_both j = elim (Bool-cases (j == 0)) [
  | inl first ↦ rw ((==_iff j 0).0 first, answered_both.0) refl
  | inr later ↦ elim (Bool-cases (j == 1)) [
    | inl second ↦ rw ((==_iff j 1).0 second, answered_both.1) refl
    | inr rest ↦ unfold serve_slices in rw (later, rest) refl
  ]
]

requests_deny_example :
    (claims : SetClaims) × Carries deps (both 1) claims
    × (contains running.state.policies.entries (principal_of claims.sub_id.uri) ≡ true)
requests_deny_example =
    requests_deny deps sample_policy_laws sample_client both overlapping (fresh true).policies
      (fresh true).pods 1 (bare_response 202) settled_both answered_both.1 refl

-- A reset comes in front of the second request's LoadOrStore.
abbrev reset_between : List Slice
reset_between =
    slice 0 handler_side
    ∷ slice 0 mesh_side
    ∷ Slice.forget principal_a
    ∷ slice 1 handler_side
    ∷ slice 1 mesh_side
    ∷ []

serve_slices-Simulates_example :
    (fs : List Sched) × All (Allowed true) fs
    × Simulates deps sample_client both
        (serve_slices deps sample_client both reset_between
          (just_started deps sample_client (fresh true).policies (fresh true).pods))
        (run deps (subjects deps sample_client both) fs (at_start deps (fresh true).policies))
serve_slices-Simulates_example =
    serve_slices-Simulates deps sample_client both true reset_between (fresh true).policies
      (fresh true).pods (tt, (tt, (refl, (tt, (tt, tt)))))

revocations-serve_slices_example :
    length running.state.policies.entries
    ≡ 0
      + revocations deps sample_policy_laws honest_server sample_client sample_client_laws
          running.metrics
      + uncounted_all deps sample_policy_laws honest_server sample_client sample_client_laws both 2
          running
revocations-serve_slices_example =
    revocations-serve_slices deps sample_policy_laws honest_server sample_client sample_client_laws
      both 2 overlapping (fresh true).policies (fresh true).pods (omega arith)

results-serve_slices_example :
    events_counted deps sample_client sample_client_laws running.metrics
      + left_to_count deps sample_client sample_client_laws both 2 running
    ≡ all_come deps sample_client sample_client_laws both 2 running
results-serve_slices_example =
    results-serve_slices deps sample_client sample_client_laws both 2 overlapping
      (fresh true).policies (fresh true).pods (omega arith)

-- The turns of the two goroutines of the first request.
abbrev mixed : List Turn
mixed = label_turn ∷ mesh_turn ∷ label_turn ∷ mesh_turn ∷ label_turn ∷ mesh_turn ∷ label_turn ∷ []

abbrev opening : Serving deps sample_client
opening = just_started deps sample_client (fresh true).policies (fresh true).pods

label_turns_enough : label_left deps (subject_in deps (both 0)) at_list opening.state.pods ≤ 4
unfolding label_left subject_in parse_workload_id split cut_prefix has_key decode_unsigned new_set
    read_token write_token set_request text_eq contains
label_turns_enough = omega arith

calls_a :
    length (events_handler deps clock_now (request_for subject_a) opening.state).metrics + 2 ≤ 10
unfolding events_handler revoke_in_mesh decode_unsigned new_set read_token write_token set_request
    text_eq contains trim_prefix cut_prefix load_or_store marshal quote patch_policy header_time
    parse_int field format_int unix_nano wrap64 ns_to_time known is_zero duration time_sub
    observe_spans span_table microseconds quot_ℤ ◌-ℤ◌
calls_a = omega arith

alone_serves_example :
    let s' =
      serve_slices deps sample_client both
        (slices_of deps sample_client both 0 (course_of mixed 10))
        opening in
    ((record { state = s'.state; metrics = s'.metrics })
      ≡ serve_input deps sample_client
          (record { state = opening.state; metrics = opening.metrics })
          (event clock_now (request_for subject_a)))
    × (s'.at 0
        ≡ answered (events_handler deps clock_now (request_for subject_a) opening.state).response)
    × ((j : ℕ) → j == 0 ≡ false → s'.at j ≡ arriving)
alone_serves_example =
    alone_serves deps sample_client both 0 mixed 10 opening refl (omega arith) label_turns_enough
      calls_a
