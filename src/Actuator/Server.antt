-- ===== src/Actuator/Server.antt =====
-- cmd/actuator/main.go: the process with any number of requests at once. net/http runs eventsHandler
-- in a goroutine for each, which starts the two goroutines of the event and waits for both.
pub mod Fits
pub mod Simulates
pub mod Denies
pub mod Keeps
pub mod Local
pub mod Course
pub mod Alone
mod Total
pub mod Gains
pub mod Growth
pub mod Totals
pub mod Nearer
pub mod Fair
pub mod Lands
pub mod Revokes
use ebpf_ssf_broker.Base.{
  ℕ, not, Option, none, some, List, [], ◌∷◌, if◌then◌else◌, Text, codes, text_eq,
}
use ebpf_ssf_broker.Go.Http.{method_post, status_bad_request, http_error, Request, Response}
use ebpf_ssf_broker.Caep.Set.{SetClaims}
use ebpf_ssf_broker.Caep.Jwt.{decode_unsigned}
use ebpf_ssf_broker.Actuator.Dedupe.{delete}
use ebpf_ssf_broker.Actuator.Mesh.{Outcome}
use ebpf_ssf_broker.Actuator.Events.{
  result_failed, not_allowed, clocks_of, conclude, Deps, Now, State,
}
use ebpf_ssf_broker.Actuator.Spans.{MetricCall, inc_events}
use ebpf_ssf_broker.Actuator.Goroutines.{
  mesh_step_at, label_step_at, MeshAt, at_check, at_patch, at_delete, mesh_returned, LabelAt,
  at_list, at_pods, label_returned, MeshThread, LabelThread,
}
use ebpf_ssf_broker.Actuator.Race.{update}
use ebpf_ssf_broker.Actuator.Registry.{registered, perform, Client, Registered}

-- Which goroutine of a request: the handler's, and the two that it starts.
pub data Part : Type 0 where
  handler_side mesh_side label_side : Part

-- What runs next: an atomic step of a goroutine of a request, or the Delete of a reset.
pub data Slice : Type 0 where
  slice : ℕ → Part → Slice
  forget : Text → Slice

-- Where a request stands: before its handler, in front of wg.Wait() with its two goroutines, at the
-- metrics that are left to be counted before the response, or answered.
pub data RequestAt : Type 0 where
  arriving : RequestAt
  waiting : SetClaims → MeshAt → LabelAt → RequestAt
  reporting : List MetricCall → Response → RequestAt
  answered : Response → RequestAt

-- A request, with what the time.Now calls of its goroutines return.
pub record Incoming : Type 0 where
  pub now : Now
  pub request : Request

module _ (d : Deps) where
  begin_decoded : Option SetClaims → RequestAt
  begin_decoded none =
      reporting (inc_events result_failed ∷ [])
        (http_error [] (codes "malformed SET") status_bad_request)
  begin_decoded (some claims) = waiting claims at_check at_list

  begin_read : Option Text → RequestAt
  unfolding begin_decoded
  begin_read none = reporting [] (http_error [] (codes "cannot read body") status_bad_request)
  begin_read (some body) = begin_decoded (decode_unsigned d.jwt body)

  -- eventsHandler up to the start of its goroutines.
  unfoldable pub begin_request : Request → RequestAt
  unfolding begin_read
  begin_request req =
      if not (text_eq req.method method_post) then reporting [] not_allowed else begin_read req.body

  -- What follows wg.Wait(), the calls of the metrics still to be made.
  abbrev pub report : Incoming → SetClaims → State d → Outcome → RequestAt
  report r claims st o =
      let h = conclude d claims (clocks_of r.now r.request.headers claims) st o in
      reporting h.metrics h.response

  -- wg.Wait() returns when both goroutines have.
  unfoldable pub wait : Incoming → State d → SetClaims → MeshAt → LabelAt → RequestAt
  wait r st claims (mesh_returned o) (label_returned n errs) = report r claims st o
  wait r st claims (mesh_returned o) at_list = waiting claims (mesh_returned o) at_list
  wait r st claims (mesh_returned o) (at_pods ns sa pods n errs) =
      waiting claims (mesh_returned o) (at_pods ns sa pods n errs)
  wait r st claims at_check b = waiting claims at_check b
  wait r st claims (at_patch body) b = waiting claims (at_patch body) b
  wait r st claims (at_delete e) b = waiting claims (at_delete e) b

module _ (d : Deps) (p : Client) where
  -- The shared state and metrics, and where the request that made the step stands.
  pub record Stepped : Type 0 where
    pub state : State d
    pub metrics : Registered p
    pub at : RequestAt

  -- A step of the handler's goroutine.
  unfoldable pub handler_step : Incoming → State d → Registered p → RequestAt → Stepped
  handler_step r st ms arriving = record {
    state = st;
    metrics = ms;
    at = begin_request d r.request;
  }
  handler_step r st ms (waiting claims a b) = record {
    state = st;
    metrics = ms;
    at = wait d r st claims a b;
  }
  handler_step r st ms (reporting [] response) = record {
    state = st;
    metrics = ms;
    at = answered response;
  }
  handler_step r st ms (reporting (m ∷ calls) response) = record {
    state = st;
    metrics = perform p m ms;
    at = reporting calls response;
  }
  handler_step r st ms (answered response) = record {
    state = st;
    metrics = ms;
    at = answered response;
  }

  abbrev pub after_mesh : State d → Registered p → SetClaims → LabelAt → MeshThread d → Stepped
  after_mesh st ms claims b t = record {
    state = record st { revoked = t.revoked; policies = t.policies };
    metrics = ms;
    at = waiting claims t.at b;
  }

  abbrev pub after_label : State d → Registered p → SetClaims → MeshAt → LabelThread d → Stepped
  after_label st ms claims a t = record {
    state = record st { pods = t.pods };
    metrics = ms;
    at = waiting claims a t.at;
  }

  abbrev pub idle : State d → Registered p → RequestAt → Stepped
  idle st ms a = record { state = st; metrics = ms; at = a }

  -- A step of a goroutine of a request. One that does not run makes none.
  unfoldable pub advance : Incoming → Part → State d → Registered p → RequestAt → Stepped
  unfolding handler_step
  advance r handler_side st ms a = handler_step r st ms a
  advance r mesh_side st ms (waiting claims a b) =
      after_mesh st ms claims b (mesh_step_at d claims.sub_id.uri a st.revoked st.policies)
  advance r mesh_side st ms arriving = idle st ms arriving
  advance r mesh_side st ms (reporting calls response) = idle st ms (reporting calls response)
  advance r mesh_side st ms (answered response) = idle st ms (answered response)
  advance r label_side st ms (waiting claims a b) =
      after_label st ms claims a (label_step_at d claims.sub_id.uri b st.pods)
  advance r label_side st ms arriving = idle st ms arriving
  advance r label_side st ms (reporting calls response) = idle st ms (reporting calls response)
  advance r label_side st ms (answered response) = idle st ms (answered response)

  -- The process: what its goroutines share, and where each request stands.
  pub record Serving : Type 0 where
    pub state : State d
    pub metrics : Registered p
    pub at : ℕ → RequestAt

  abbrev pub take_slice : Serving → ℕ → Stepped → Serving
  take_slice s i t = record { state = t.state; metrics = t.metrics; at = update s.at i t.at }

  abbrev pub forget_key : State d → Text → State d
  forget_key st key = record st { revoked = delete st.revoked key }

  -- The process in front of an API server, when it has just started.
  abbrev pub just_started : d.policy_api.Store → d.pod_api.Store → Serving
  just_started policies pods = record {
    state = record { revoked = []; policies = policies; pods = pods };
    metrics = registered p;
    at = λ i. arriving;
  }

  module _ (incoming : ℕ → Incoming) where
    unfoldable pub serve_slice : Slice → Serving → Serving
    serve_slice (slice i part) s =
        take_slice s i (advance (incoming i) part s.state s.metrics (s.at i))
    serve_slice (forget key) s = record s { state = forget_key s.state key }

    unfoldable pub serve_slices : List Slice → Serving → Serving
    unfolding serve_slice
    serve_slices [] s = s
    serve_slices (e ∷ es) s = serve_slices es (serve_slice e s)
