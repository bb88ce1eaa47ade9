-- ===== src/Actuator/Events/Retry.antt =====
-- cmd/actuator/main.go: eventsHandler on a SET that arrives again after a failure.
use ebpf_ssf_broker.Base.{
  ◌≡◌, ap, ◌∙◌, ◌≢◌, true, false, none, some, List, [], ◌∷◌, ◌++◌, Text, text_eq, contains,
}
use ebpf_ssf_broker.Actuator.Events.Safety.{revoked-events_handler}
use ebpf_ssf_broker.Actuator.Events.Laws.{answer_patched}
use ebpf_ssf_broker.Actuator.Events.{events_handler, Deps, Now, State}
use ebpf_ssf_broker.Actuator.Mesh.Laws.{
  principal_of, IsSpiffe, revoke_patched, revoke_fresh, PolicyLaws,
}
use ebpf_ssf_broker.Actuator.Mesh.{add_principal}
use ebpf_ssf_broker.Caep.Jwt.{decode_unsigned}
use ebpf_ssf_broker.Caep.Set.{SetClaims}
use ebpf_ssf_broker.Go.Json.{marshal}
use ebpf_ssf_broker.Go.Http.{method_post, status_accepted, Request}

module _ (d : Deps) (laws : PolicyLaws d.policy_api) (now again : Now) (req : Request)
    (st : State d) (body : Text) (claims : SetClaims) where
  abbrev policy_at : State d → List Text
  policy_at s = laws.principals s.policies d.namespace d.policy_name

  abbrev denied_principal : Text
  denied_principal = principal_of claims.sub_id.uri

  -- A SET for a new SPIFFE ID whose event was not answered by 202 is revoked when it arrives once
  -- more and the API server accepts the PATCH by then: the answer is 202, and the policy grows by
  -- the principal.
  pub retry_revokes :
      (patch_body : Text)
      → text_eq req.method method_post ≡ true
      → req.body ≡ some body
      → decode_unsigned d.jwt body ≡ some claims
      → IsSpiffe claims.sub_id.uri
      → contains st.revoked (principal_of claims.sub_id.uri) ≡ false
      → (events_handler d now req st).response.status ≢ status_accepted
      → marshal (add_principal (principal_of claims.sub_id.uri) ∷ []) ≡ some patch_body
      → (d.policy_api.patch
          (events_handler d now req st).state.policies
          d.namespace
          d.policy_name
          patch_body).1
        ≡ none
      → ((events_handler d again req (events_handler d now req st).state).response.status
          ≡ status_accepted)
        × (laws.principals
              (events_handler d again req (events_handler d now req st).state).state.policies
              d.namespace
              d.policy_name
            ≡ laws.principals (events_handler d now req st).state.policies d.namespace d.policy_name
              ++ principal_of claims.sub_id.uri ∷ [])
  retry_revokes patch_body post read decoded valid new refused_first written granted =
      let s = (events_handler d now req st).state in
      let kept = revoked-events_handler d now req st refused_first in
      let still_new = ap (λ m. contains m denied_principal) kept ∙ new in
      let o =
        revoke_fresh d.policy_api laws d.namespace d.policy_name s.revoked s.policies
          claims.sub_id.uri patch_body valid still_new written granted in
      let (accepted, left) = answer_patched d again req s body claims post read decoded o in
      let (added, _, _) =
        revoke_patched d.policy_api laws d.namespace d.policy_name s.revoked s.policies
          claims.sub_id.uri o in
      (accepted, ap policy_at left ∙ added)
