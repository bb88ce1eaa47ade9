-- ===== src/Actuator/Events.antt =====
-- cmd/actuator/main.go: eventsHandler, the receiver of SETs.
pub mod Laws
pub mod Safety
pub mod Record
pub mod Repeat
pub mod Retry
use ebpf_ssf_broker.Base.{
  ℕ, Bool, not, Option, none, some, List, [], ◌∷◌, ◌++◌, if◌then◌else◌, Text, codes, text_eq,
}
use ebpf_ssf_broker.Go.Log.{Attrs}
use ebpf_ssf_broker.Go.Clock.{Time}
use ebpf_ssf_broker.Go.Http.{
  Fields, method_post, status_accepted, status_bad_request, status_method_not_allowed,
  status_internal_server_error, http_error, Request, Response,
}
use ebpf_ssf_broker.Caep.Set.{SetClaims}
use ebpf_ssf_broker.Caep.Jwt.{decode_unsigned, Jwt}
use ebpf_ssf_broker.Actuator.Dedupe.{Revoked}
use ebpf_ssf_broker.Actuator.Mesh.{revoke_in_mesh, PolicyApi, Outcome, done, failed, Revocation}
use ebpf_ssf_broker.Actuator.Labels.{remove_spire_label, PodApi}
use ebpf_ssf_broker.Actuator.Spans.{
  header_t1, header_t3, ns_to_time, header_time, observe_spans, pipeline_spans, Clocks, MetricCall,
  inc_events,
}

-- What the handler is given: the JWT library, the API server, and the policy it patches.
pub record Deps : Type 1 where
  pub jwt : Jwt
  pub policy_api : PolicyApi
  pub pod_api : PodApi
  pub namespace : Text
  pub policy_name : Text

-- What the time.Now calls of one request return.
pub record Now : Type 0 where
  pub t4 : Time
  pub t5 : Time
  pub t6 : Time

-- The log line of an event that was actuated or deduped.
pub record LogLine : Type 0 where
  pub message : Text
  pub jti : Text
  pub subject : Text
  pub policy : Text
  pub result : Text
  pub spans : Attrs

pub record State (d : Deps) : Type 0 where
  pub revoked : Revoked
  pub policies : d.policy_api.Store
  pub pods : d.pod_api.Store

pub record Handled (d : Deps) : Type 0 where
  pub state : State d
  pub response : Response
  pub metrics : List MetricCall
  pub log : Option LogLine

abbrev pub result_revoked : Text
result_revoked = codes "revoked"

abbrev pub result_deduped : Text
result_deduped = codes "deduped"

abbrev pub result_failed : Text
result_failed = codes "failed"

abbrev pub not_allowed : Response
not_allowed =
    http_error ((codes "Allow", method_post) ∷ []) (codes "method not allowed")
      status_method_not_allowed

-- w.WriteHeader(status) with nothing else.
abbrev pub bare_response : ℕ → Response
bare_response status = record { status = status; headers = []; body = [] }

-- The clocks of an event: T0 off the SET, T1 and T3 off the headers, the others from this process.
abbrev pub clocks_of : Now → Fields → SetClaims → Clocks
clocks_of now headers claims = record {
  t0 = ns_to_time claims.events.event_time_stamp_ns;
  t1 = header_time headers header_t1;
  t3 = header_time headers header_t3;
  t4 = now.t4;
  t5 = now.t5;
  t6 = now.t6;
}

module _ (d : Deps) where
  abbrev pub refuse : State d → List MetricCall → Response → Handled d
  refuse st calls response = record { state = st; response = response; metrics = calls; log = none }

  -- The message and the result of an event that did not fail.
  abbrev pub message_of : Bool → Text
  message_of patched =
      if patched
      then codes "Revocation actuated in mesh"
      else codes "Subject already revoked, mesh patch skipped"

  abbrev pub result_of : Bool → Text
  result_of patched = if patched then result_revoked else result_deduped

  -- What follows wg.Wait(). An error of the label removal is logged only.
  unfoldable pub conclude : SetClaims → Clocks → State d → Outcome → Handled d
  conclude claims c st (failed e) =
      refuse st (inc_events result_failed ∷ [])
        (http_error [] (codes "actuation failed") status_internal_server_error)
  conclude claims c st (done patched) = record {
    state = st;
    response = bare_response status_accepted;
    metrics = inc_events (result_of patched) ∷ (if patched then observe_spans c else []);
    log = some (record {
      message = message_of patched;
      jti = claims.registered.id;
      subject = claims.sub_id.uri;
      policy = d.namespace ++ b'/' ∷ d.policy_name;
      result = result_of patched;
      spans = pipeline_spans c;
    });
  }

  -- The first goroutine.
  abbrev pub mesh_part : State d → Text → Revocation d.policy_api
  mesh_part st subject =
      revoke_in_mesh d.policy_api d.namespace d.policy_name st.revoked st.policies subject

  -- The state after both goroutines.
  abbrev pub joined : State d → Text → State d
  joined st subject = record {
    revoked = (mesh_part st subject).revoked;
    policies = (mesh_part st subject).policies;
    pods = (remove_spire_label d.pod_api st.pods subject).pods;
  }

  -- A decoded SET. The two goroutines stand one after the other: they share no variable and write
  -- different objects of the cluster.
  unfoldable pub actuate : Now → Fields → State d → SetClaims → Handled d
  unfolding conclude
  actuate now headers st claims =
      let subject = claims.sub_id.uri in
      conclude claims (clocks_of now headers claims) (joined st subject)
        (mesh_part st subject).outcome

  after_decode : Now → Fields → State d → Option SetClaims → Handled d
  unfolding actuate
  after_decode now headers st none =
      refuse st (inc_events result_failed ∷ [])
        (http_error [] (codes "malformed SET") status_bad_request)
  after_decode now headers st (some claims) = actuate now headers st claims

  after_read : Now → Fields → State d → Option Text → Handled d
  unfolding after_decode
  after_read now headers st none =
      refuse st [] (http_error [] (codes "cannot read body") status_bad_request)
  after_read now headers st (some body) = after_decode now headers st (decode_unsigned d.jwt body)

  -- eventsHandler
  unfoldable pub events_handler : Now → Request → State d → Handled d
  unfolding after_read
  events_handler now req st =
      if not (text_eq req.method method_post)
      then refuse st [] not_allowed
      else after_read now req.headers st req.body
