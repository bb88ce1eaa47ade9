-- ===== src/Examples/EventRuns.antt =====
-- Requests to the actuator.
use ebpf_ssf_broker.Base.{
  ◌≡◌, refl, ◌≢◌, ◌⊎◌, Bool, true, false, none, some, [], ◌∷◌, ◌++◌, arith, Text, codes, text_eq,
  contains,
}
use ebpf_ssf_broker.Base.Int.{◌-ℤ◌, quot_ℤ, pos}
use ebpf_ssf_broker.Caep.Jwt.{decode_unsigned}
use ebpf_ssf_broker.Actuator.Events.Retry.{retry_revokes}
use ebpf_ssf_broker.Actuator.Labels.{list_error, PodApi}
use ebpf_ssf_broker.Actuator.Events.Repeat.{events_handler_twice, Repeated}
use ebpf_ssf_broker.Actuator.History.Durable.{accepted_denied_durably}
use ebpf_ssf_broker.Actuator.History.{handle, history, event, reset_dedupe}
use ebpf_ssf_broker.Actuator.Reset.{reset_dedupe_handler}
use ebpf_ssf_broker.Go.Http.{
  field, method_get, method_post, status_accepted, status_internal_server_error, Request,
}
use ebpf_ssf_broker.Go.Strings.{cut_prefix, trim_prefix}
use ebpf_ssf_broker.Actuator.Events.Record.{
  log_line_lem, pods_irrelevant, LoggedRevoked, LoggedDeduped, SameAnswer,
}
use ebpf_ssf_broker.Actuator.Events.Safety.{events_handler-InSync}
use ebpf_ssf_broker.Actuator.Dedupe.{load_or_store}
use ebpf_ssf_broker.Examples.World.{
  sample_policy_laws, deps, clock_now, fresh, subject_a, token_for, request_for,
}
use ebpf_ssf_broker.Examples.Cluster.{patch_policy, body_of, marshal-body_of}
use ebpf_ssf_broker.Examples.Token.{write_token, read_token, sample_jwt}
use ebpf_ssf_broker.Translator.Post.{set_request}
use ebpf_ssf_broker.Actuator.Events.{events_handler, LogLine, Handled}
use ebpf_ssf_broker.Actuator.Spans.{ns_to_time, header_time, known, duration, pipeline_spans}
use ebpf_ssf_broker.Actuator.Mesh.Laws.{principal_of, InSync, IsSpiffe}
use ebpf_ssf_broker.Actuator.Mesh.{revoke_in_mesh}
use ebpf_ssf_broker.Go.Json.{quote, marshal}
use ebpf_ssf_broker.Caep.Set.{new_set, SetClaims}
use ebpf_ssf_broker.Go.Clock.{is_zero, wrap64, unix_nano, time_sub, microseconds}
use ebpf_ssf_broker.Go.Decimal.{format_int, parse_int}

-- The handler on a SET for the first pod, with an API server that answers or not.
abbrev answered : Bool → Handled deps
answered up = events_handler deps clock_now (request_for subject_a) (fresh up)

abbrev line_a : LogLine
line_a = record {
  message = codes "Revocation actuated in mesh";
  jti = codes "jti-1";
  subject = subject_a;
  policy = codes "zta-ssf/revoked-identities";
  result = codes "revoked";
  spans =
      (codes "t0_ns", pos 50)
      ∷ (codes "t1_ns", pos 100)
      ∷ (codes "t3_ns", pos 300)
      ∷ (codes "t4_ns", pos 400)
      ∷ (codes "t5_ns", pos 500)
      ∷ (codes "t6_ns", pos 9600)
      ∷ (codes "detect_us", pos 0)
      ∷ (codes "translate_us", pos 0)
      ∷ (codes "transport_us", pos 0)
      ∷ (codes "actuate_us", pos 9)
      ∷ (codes "pipeline_us", pos 9)
      ∷ [];
}

accepted_a : (answered true).response.status ≡ status_accepted
unfolding events_handler decode_unsigned new_set read_token write_token set_request text_eq contains
    revoke_in_mesh trim_prefix load_or_store marshal patch_policy
accepted_a = refl

logged_a : (answered true).log ≡ some line_a
unfolding events_handler decode_unsigned new_set read_token write_token set_request text_eq contains
    revoke_in_mesh trim_prefix load_or_store marshal patch_policy pipeline_spans header_time
    parse_int field format_int unix_nano wrap64 ns_to_time known is_zero duration time_sub
    microseconds quote quot_ℤ ◌-ℤ◌
logged_a = refl

unanswered_a : (answered false).response.status ≡ status_internal_server_error
unfolding events_handler decode_unsigned new_set read_token write_token set_request text_eq contains
    revoke_in_mesh trim_prefix load_or_store marshal patch_policy
unanswered_a = refl

in_sync : (up : Bool) → InSync (fresh up).policies.entries (fresh up).revoked
in_sync up p h = h

-- A POST to the reset endpoint, and a GET of the events endpoint.
abbrev reset_post : Request
reset_post = record { method = method_post; headers = []; body = some [] }

abbrev get_events : Request
get_events = record { method = method_get; headers = []; body = none }

accepted_later :
    (events_handler deps clock_now
      (request_for subject_a)
      (history deps (fresh true) (reset_dedupe reset_post ∷ []))).response.status
    ≡ status_accepted
unfolding history handle reset_dedupe_handler text_eq
accepted_later = accepted_a

accepted_denied_durably_example :
    (body : Text) × (claims : SetClaims) × ((request_for subject_a).body ≡ some body)
    × (decode_unsigned sample_jwt body ≡ some claims)
    × (contains
          (history deps (fresh true) (
            (reset_dedupe reset_post ∷ [])
            ++ event clock_now (request_for subject_a)
              ∷ event clock_now get_events
              ∷ [])).policies.entries
          (principal_of claims.sub_id.uri)
        ≡ true)
accepted_denied_durably_example =
    accepted_denied_durably deps sample_policy_laws (fresh true) (reset_dedupe reset_post ∷ [])
      (event clock_now get_events ∷ []) clock_now (request_for subject_a) (in_sync true)
      accepted_later

log_line_lem_example :
    LoggedRevoked deps sample_policy_laws (fresh true) (answered true) line_a
    ⊎ LoggedDeduped deps sample_policy_laws (fresh true) (answered true) line_a
log_line_lem_example =
    log_line_lem deps sample_policy_laws clock_now (request_for subject_a) (fresh true) line_a
      logged_a

refused_a : (answered false).response.status ≢ status_accepted
refused_a e = let k = rw unanswered_a at e in absurd (omega arith)

-- The SET for the first pod as it is read, and the API server after the refused PATCH.
abbrev read_a : SetClaims
read_a = read_token (token_for subject_a)

decoded_a : decode_unsigned sample_jwt (token_for subject_a) ≡ some read_a
unfolding decode_unsigned contains text_eq
decoded_a = refl

IsSpiffe-read : IsSpiffe subject_a
unfolding text_eq trim_prefix cut_prefix
IsSpiffe-read = (refl, refl)

recovered_a :
    (patch_policy (answered false).state.policies (body_of (principal_of subject_a))).1 ≡ none
unfolding events_handler decode_unsigned new_set read_token write_token set_request text_eq contains
    revoke_in_mesh trim_prefix load_or_store marshal patch_policy body_of quote
recovered_a = refl

retry_revokes_example :
    ((events_handler deps clock_now (request_for subject_a) (answered false).state).response.status
      ≡ status_accepted)
    × ((events_handler deps clock_now
          (request_for subject_a)
          (answered false).state).state.policies.entries
        ≡ (answered false).state.policies.entries ++ principal_of subject_a ∷ [])
unfolding new_set read_token write_token
retry_revokes_example =
    retry_revokes deps sample_policy_laws clock_now clock_now (request_for subject_a) (fresh false)
      (token_for subject_a) read_a (body_of (principal_of subject_a))
      (unfold set_request text_eq in refl) (unfold set_request in refl) decoded_a IsSpiffe-read
      (unfold contains in refl) refused_a (marshal-body_of (principal_of subject_a)) recovered_a

events_handler-InSync_example :
    InSync (answered false).state.policies.entries (answered false).state.revoked
events_handler-InSync_example =
    events_handler-InSync deps clock_now (request_for subject_a) (fresh false) sample_policy_laws
      (in_sync false)

events_handler_twice_example :
    Repeated deps
      (answered true).state
      (events_handler deps clock_now (request_for subject_a) (answered true).state)
events_handler_twice_example =
    events_handler_twice deps clock_now clock_now (request_for subject_a) (fresh true) accepted_a

-- An API server that lists no pods.
abbrev closed_pods : PodApi
closed_pods = record {
  Store = Unit;
  list = λ s namespace selector. list_error (codes "forbidden");
  patch = λ s namespace name body. (s, some (codes "forbidden"));
}

pods_irrelevant_example : SameAnswer deps closed_pods (answered true) (
    events_handler
      (record deps { pod_api = closed_pods })
      clock_now
      (request_for subject_a)
      (record { revoked = []; policies = (fresh true).policies; pods = tt }))
pods_irrelevant_example =
    pods_irrelevant deps closed_pods clock_now (request_for subject_a) (fresh true) tt
