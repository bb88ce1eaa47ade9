-- ===== src/Actuator/Events/Safety.antt =====
-- cmd/actuator/main.go: the answers of eventsHandler against the policy and the dedupe set.
use ebpf_ssf_broker.Base.{◌≡◌, refl, ◌≢◌, true, some, List, arith, Text, contains}
use ebpf_ssf_broker.Actuator.Mesh.Laws.{
  principal_of, revoked-revoke_failed, InSync, revoke_denies, policy_grows, revoke-InSync,
  PolicyLaws,
}
use ebpf_ssf_broker.Go.Http.{status_accepted, Request}
use ebpf_ssf_broker.Caep.Set.{SetClaims}
use ebpf_ssf_broker.Caep.Jwt.{decode_unsigned}
use ebpf_ssf_broker.Actuator.Mesh.{Outcome, done, failed}
use ebpf_ssf_broker.Actuator.Spans.{Clocks}
use ebpf_ssf_broker.Actuator.Events.{
  clocks_of, conclude, mesh_part, joined, events_handler, Deps, Now, State, Handled,
}
use ebpf_ssf_broker.Actuator.Events.Laws.{course, Course, wrong_method, unread, undecodable, acted}

module _ (d : Deps) (now : Now) (req : Request) (st : State d) where
  revoked_conclude :
      (claims : SetClaims) (c : Clocks) (o : Outcome)
      → (mesh_part d st claims.sub_id.uri).outcome ≡ o
      → (conclude d claims c (joined d st claims.sub_id.uri) o).response.status ≢ status_accepted
      → (conclude d claims c (joined d st claims.sub_id.uri) o).state.revoked ≡ st.revoked
  unfolding conclude
  revoked_conclude claims c (done b) e n = absurd (n refl)
  revoked_conclude claims c (failed f) e n =
      revoked-revoke_failed d.policy_api d.namespace d.policy_name st.revoked st.policies
        claims.sub_id.uri f e

  revoked_by :
      {h : Handled d}
      → Course d now req st h
      → h.response.status ≢ status_accepted
      → h.state.revoked ≡ st.revoked
  revoked_by (wrong_method m e) n = rw e
  revoked_by (unread m b e) n = rw e
  revoked_by (undecodable body m b c e) n = rw e
  revoked_by (acted body claims m b c e) n = rw e (
      revoked_conclude claims (clocks_of now req.headers claims)
        (mesh_part d st claims.sub_id.uri).outcome refl (rw e at n))

  -- A request that is not answered by 202 leaves the dedupe set as it was.
  pub revoked-events_handler :
      (events_handler d now req st).response.status ≢ status_accepted
      → (events_handler d now req st).state.revoked ≡ st.revoked
  revoked-events_handler n = revoked_by (course d now req st) n

  module _ (laws : PolicyLaws d.policy_api) where
    abbrev policy_of : d.policy_api.Store → List Text
    policy_of s = laws.principals s d.namespace d.policy_name

    accepted_conclude :
        (claims : SetClaims) (c : Clocks) (o : Outcome)
        → InSync (policy_of st.policies) st.revoked
        → (mesh_part d st claims.sub_id.uri).outcome ≡ o
        → (conclude d claims c (joined d st claims.sub_id.uri) o).response.status ≡ status_accepted
        → contains
            (policy_of (conclude d claims c (joined d st claims.sub_id.uri) o).state.policies)
            (principal_of claims.sub_id.uri)
          ≡ true
    unfolding conclude
    accepted_conclude claims c (failed f) sync e n = absurd (omega arith)
    accepted_conclude claims c (done b) sync e n =
        revoke_denies d.policy_api laws d.namespace d.policy_name st.revoked st.policies
          claims.sub_id.uri b sync e

    accepted_by :
        {h : Handled d}
        → Course d now req st h
        → InSync (policy_of st.policies) st.revoked
        → h.response.status ≡ status_accepted
        → (body : Text) × (claims : SetClaims) × (req.body ≡ some body)
          × (decode_unsigned d.jwt body ≡ some claims)
          × (contains (policy_of h.state.policies) (principal_of claims.sub_id.uri) ≡ true)
    accepted_by (wrong_method m e) sync n = let k = rw e at n in absurd (omega arith)
    accepted_by (unread m b e) sync n = let k = rw e at n in absurd (omega arith)
    accepted_by (undecodable body m b c e) sync n = let k = rw e at n in absurd (omega arith)
    accepted_by (acted body claims m b c e) sync n = (
      body,
      claims,
      b,
      c,
      rw e (
          accepted_conclude claims (clocks_of now req.headers claims)
            (mesh_part d st claims.sub_id.uri).outcome sync refl (rw e at n)),
    )

    -- An event that is answered by 202 carried a SET, and its subject is denied: the principal is
    -- in the policy afterwards. The dedupe set was within the policy before.
    pub accepted_denied :
        InSync (policy_of st.policies) st.revoked
        → (events_handler d now req st).response.status ≡ status_accepted
        → (body : Text) × (claims : SetClaims) × (req.body ≡ some body)
          × (decode_unsigned d.jwt body ≡ some claims)
          × (contains
                (policy_of (events_handler d now req st).state.policies)
                (principal_of claims.sub_id.uri)
              ≡ true)
    accepted_denied = accepted_by (course d now req st)

    InSync-conclude :
        (claims : SetClaims) (c : Clocks) (o : Outcome)
        → InSync (policy_of st.policies) st.revoked
        → InSync
            (policy_of (conclude d claims c (joined d st claims.sub_id.uri) o).state.policies)
            (conclude d claims c (joined d st claims.sub_id.uri) o).state.revoked
    unfolding conclude
    InSync-conclude claims c (failed f) sync =
        revoke-InSync d.policy_api laws d.namespace d.policy_name st.revoked st.policies
          claims.sub_id.uri sync
    InSync-conclude claims c (done b) sync =
        revoke-InSync d.policy_api laws d.namespace d.policy_name st.revoked st.policies
          claims.sub_id.uri sync

    InSync-by :
        {h : Handled d}
        → Course d now req st h
        → InSync (policy_of st.policies) st.revoked
        → InSync (policy_of h.state.policies) h.state.revoked
    InSync-by (wrong_method m e) sync = rw e sync
    InSync-by (unread m b e) sync = rw e sync
    InSync-by (undecodable body m b c e) sync = rw e sync
    InSync-by (acted body claims m b c e) sync = rw e (
        InSync-conclude claims (clocks_of now req.headers claims)
          (mesh_part d st claims.sub_id.uri).outcome sync)

    -- Every request, failing or not, keeps the dedupe set within the policy.
    pub events_handler-InSync :
        InSync (policy_of st.policies) st.revoked
        → InSync
            (policy_of (events_handler d now req st).state.policies)
            (events_handler d now req st).state.revoked
    events_handler-InSync = InSync-by (course d now req st)

    denied-conclude :
        (q : Text) (claims : SetClaims) (c : Clocks) (o : Outcome)
        → contains (policy_of st.policies) q ≡ true
        → contains
            (policy_of (conclude d claims c (joined d st claims.sub_id.uri) o).state.policies)
            q
          ≡ true
    unfolding conclude
    denied-conclude q claims c (failed f) denied =
        policy_grows d.policy_api laws d.namespace d.policy_name st.revoked st.policies
          claims.sub_id.uri q denied
    denied-conclude q claims c (done b) denied =
        policy_grows d.policy_api laws d.namespace d.policy_name st.revoked st.policies
          claims.sub_id.uri q denied

    denied_by :
        {h : Handled d} (q : Text)
        → Course d now req st h
        → contains (policy_of st.policies) q ≡ true
        → contains (policy_of h.state.policies) q ≡ true
    denied_by q (wrong_method m e) denied = rw e denied
    denied_by q (unread m b e) denied = rw e denied
    denied_by q (undecodable body m b c e) denied = rw e denied
    denied_by q (acted body claims m b c e) denied = rw e (
        denied-conclude q claims (clocks_of now req.headers claims)
          (mesh_part d st claims.sub_id.uri).outcome denied)

    -- No request takes a principal out of the policy.
    pub denied-events_handler :
        (q : Text)
        → contains (policy_of st.policies) q ≡ true
        → contains (policy_of (events_handler d now req st).state.policies) q ≡ true
    denied-events_handler q = denied_by q (course d now req st)
