-- ===== src/Actuator/Events/Record.antt =====
-- cmd/actuator/main.go: the log line and the metrics of eventsHandler, and its independence of pods.
use mathlib.Core.Option.{some-injective}
use ebpf_ssf_broker.Base.{
  ◌≡◌, refl, subst, ◌⊎◌, inl, inr, true, false, some, List, [], ◌∷◌, ◌++◌, Bool-cases, Option-cases,
  text_eq, contains,
}
use ebpf_ssf_broker.Go.Http.{method_post, Request, Response}
use ebpf_ssf_broker.Caep.Set.{SetClaims}
use ebpf_ssf_broker.Actuator.Mesh.{Outcome, done, failed}
use ebpf_ssf_broker.Actuator.Mesh.Laws.{principal_of, revoke_patched, revoke_deduped, PolicyLaws}
use ebpf_ssf_broker.Actuator.Spans.{observe_spans, pipeline_spans, Clocks, MetricCall, inc_events}
use ebpf_ssf_broker.Actuator.Events.{
  result_revoked, result_deduped, clocks_of, refuse, conclude, mesh_part, joined, actuate,
  events_handler, Deps, Now, LogLine, State, Handled,
}
use ebpf_ssf_broker.Actuator.Events.Laws.{course, Course, wrong_method, unread, undecodable, acted}
use ebpf_ssf_broker.Actuator.Labels.{PodApi}
use ebpf_ssf_broker.Caep.Jwt.{decode_unsigned}

module _ (d : Deps) (laws : PolicyLaws d.policy_api) where
  -- The log line of an event that actuated: the policy has one more principal, that of the
  -- subject, and the histograms observed the spans that the line shows.
  pub record LoggedRevoked (st : State d) (h : Handled d) (l : LogLine) : Type 0 where
    pub clocks : Clocks
    pub result : l.result ≡ result_revoked
    pub spans : l.spans ≡ pipeline_spans clocks
    pub metrics : h.metrics ≡ inc_events result_revoked ∷ observe_spans clocks
    pub appended :
        laws.principals h.state.policies d.namespace d.policy_name
        ≡ laws.principals st.policies d.namespace d.policy_name ++ principal_of l.subject ∷ []

  -- The log line of a duplicate: no policy changed, the dedupe set held the principal, and no
  -- latency was observed.
  pub record LoggedDeduped (st : State d) (h : Handled d) (l : LogLine) : Type 0 where
    pub result : l.result ≡ result_deduped
    pub metrics : h.metrics ≡ inc_events result_deduped ∷ []
    pub policies : h.state.policies ≡ st.policies
    pub held : contains st.revoked (principal_of l.subject) ≡ true

  module _ (now : Now) (req : Request) (st : State d) where
    logged_conclude :
        (claims : SetClaims) (c : Clocks) (o : Outcome) (l : LogLine)
        → (mesh_part d st claims.sub_id.uri).outcome ≡ o
        → (conclude d claims c (joined d st claims.sub_id.uri) o).log ≡ some l
        → LoggedRevoked st (conclude d claims c (joined d st claims.sub_id.uri) o) l
          ⊎ LoggedDeduped st (conclude d claims c (joined d st claims.sub_id.uri) o) l
    unfolding conclude
    logged_conclude claims c (failed f) l o e = cc
    logged_conclude claims c (done true) l o e =
        let patched =
          revoke_patched d.policy_api laws d.namespace d.policy_name st.revoked st.policies
            claims.sub_id.uri o in
        let h = conclude d claims c (joined d st claims.sub_id.uri) (done true) in
        subst (λ m. LoggedRevoked st h m ⊎ LoggedDeduped st h m) (some-injective _ l e)
          (inl (record {
            clocks = c;
            result = refl;
            spans = refl;
            metrics = refl;
            appended = patched.0;
          }))
    logged_conclude claims c (done false) l o e =
        let deduped =
          revoke_deduped d.policy_api laws d.namespace d.policy_name st.revoked st.policies
            claims.sub_id.uri o in
        let h = conclude d claims c (joined d st claims.sub_id.uri) (done false) in
        subst (λ m. LoggedRevoked st h m ⊎ LoggedDeduped st h m) (some-injective _ l e)
          (inr (record { result = refl; metrics = refl; policies = deduped.0; held = deduped.1 }))

    logged_by :
        {h : Handled d} (l : LogLine)
        → Course d now req st h
        → h.log ≡ some l
        → LoggedRevoked st h l ⊎ LoggedDeduped st h l
    logged_by l (wrong_method m e) k = let k' = rw e at k in cc
    logged_by l (unread m b e) k = let k' = rw e at k in cc
    logged_by l (undecodable body m b c e) k = let k' = rw e at k in cc
    logged_by l (acted body claims m b c e) k = rw e (
        logged_conclude claims (clocks_of now req.headers claims)
          (mesh_part d st claims.sub_id.uri).outcome l refl (rw e at k))

    -- The log line of an event is true: "revoked" stands for one more principal in the policy and
    -- for spans that the histograms observed, "deduped" for a duplicate that changed no policy
    -- and observed nothing.
    pub log_line_lem :
        (l : LogLine)
        → (events_handler d now req st).log ≡ some l
        → LoggedRevoked st (events_handler d now req st) l
          ⊎ LoggedDeduped st (events_handler d now req st) l
    log_line_lem l = logged_by l (course d now req st)

-- All of a handled request but the pods.
pub record SameAnswer (d : Deps) (p : PodApi) (h : Handled d)
    (k : Handled (record d { pod_api = p })) : Type 0 where
  pub response : h.response ≡ k.response
  pub metrics : h.metrics ≡ k.metrics
  pub log : h.log ≡ k.log
  pub revoked : h.state.revoked ≡ k.state.revoked
  pub policies : h.state.policies ≡ k.state.policies

module _ (d : Deps) (p : PodApi) where
  abbrev other : Deps
  other = record d { pod_api = p }

  abbrev with_pods : State d → p.Store → State other
  with_pods st s = record { revoked = st.revoked; policies = st.policies; pods = s }

  same_refusal :
      {st : State d} {s : p.Store} {calls : List MetricCall} {r : Response}
      → SameAnswer d p (refuse d st calls r) (refuse other (with_pods st s) calls r)
  same_refusal = record {
    response = refl;
    metrics = refl;
    log = refl;
    revoked = refl;
    policies = refl;
  }

  same_conclude :
      (st : State d) (s : p.Store) (claims : SetClaims) (c : Clocks) (o : Outcome)
      → SameAnswer d p
          (conclude d claims c (joined d st claims.sub_id.uri) o)
          (conclude other claims c (joined other (with_pods st s) claims.sub_id.uri) o)
  unfolding conclude
  same_conclude st s claims c (failed e) = record {
    response = refl;
    metrics = refl;
    log = refl;
    revoked = refl;
    policies = refl;
  }
  same_conclude st s claims c (done b) = record {
    response = refl;
    metrics = refl;
    log = refl;
    revoked = refl;
    policies = refl;
  }

  -- The removal of the pod label has no part in the answer: with any other pods, and any other
  -- behaviour of the API server towards them, the response, the metrics, the log line, the dedupe
  -- set and the policies are the same.
  pub pods_irrelevant :
      (now : Now) (req : Request) (st : State d) (s : p.Store)
      → SameAnswer d p (events_handler d now req st) (events_handler other now req (with_pods st s))
  unfolding events_handler
  pods_irrelevant now req st s = elim (Bool-cases (text_eq req.method method_post)) [
    | inr wrong ↦ rw wrong same_refusal
    | inl post ↦ elim (Option-cases req.body) [
      | inl broken ↦ rw (post, broken) same_refusal
      | inr (body, read) ↦ elim (Option-cases (decode_unsigned d.jwt body)) [
        | inl bad ↦ rw (post, read, bad) same_refusal
        | inr (claims, decoded) ↦
            rw (post, read, decoded)
              (unfold actuate in
                same_conclude st s claims (clocks_of now req.headers claims)
                  (mesh_part d st claims.sub_id.uri).outcome)
      ]
    ]
  ]
