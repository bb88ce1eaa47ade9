-- ===== src/Pipeline/Denied.antt =====
-- End to end: one event that the cluster lets through.
use ebpf_ssf_broker.Base.{
  ◌≡◌, refl, ap, ◌∙◌, true, false, Option, none, some, List, [], ◌∷◌, ◌++◌, Text, text_eq, contains,
}
use ebpf_ssf_broker.Translator.Post.{set_request, answer_error, post_set, Posted}
use ebpf_ssf_broker.Pipeline.{
  direct, app_of, principal_of_pod, principal_of-spiffe_uri, spiffe_uri-IsSpiffe, clean-after_post,
  accepted_error, flight, round_posted, subject_read, Flight,
}
use ebpf_ssf_broker.Translator.Loop.Laws.{reports, world-after_post}
use ebpf_ssf_broker.Actuator.Events.Laws.{answer_patched}
use ebpf_ssf_broker.Actuator.Events.{mesh_part, joined, events_handler, Deps, Now, State, Handled}
use ebpf_ssf_broker.Go.Clock.{Time}
use ebpf_ssf_broker.Go.Http.{status_accepted}
use ebpf_ssf_broker.Caep.Set.{SetClaims}
use ebpf_ssf_broker.Caep.Jwt.{JwtLaws}
use ebpf_ssf_broker.Actuator.Mesh.Laws.{principal_of, revoke_patched, revoke_fresh, PolicyLaws}
use ebpf_ssf_broker.Translator.Build.{attribution, spiffe_uri, Pod, ProcessKprobe}
use ebpf_ssf_broker.Translator.Build.Laws.{IsMinted}
use ebpf_ssf_broker.Translator.Loop.{
  or_else, after_post, handle_message, kprobe, Round, Action, posted,
}
use ebpf_ssf_broker.Go.Json.{marshal}
use ebpf_ssf_broker.Actuator.Mesh.{add_principal, done}

module _ (d : Deps) (now : Now) (url : Text) (r : Round) (st : State d) (kp : Option ProcessKprobe)
    (time : Option Time) (pod : Pod) (found : attribution kp ≡ some pod) (laws : JwtLaws d.jwt)
    (carries : (c : SetClaims) → IsMinted pod (or_else time r.recv) r.jti c → laws.Carries c)
    (policies : PolicyLaws d.policy_api) where
  abbrev denied_by : State d → List Text
  denied_by s = policies.principals s.policies d.namespace d.policy_name

  abbrev round_of : State d × List Action
  round_of =
      handle_message d.jwt (direct d now) url r st (record { event = kprobe kp; time = time })

  module _ (f : Flight d r kp time pod found laws carries) where
    abbrev arrival : Handled d
    arrival = events_handler d now (set_request f.token r.recv r.t3) st

    -- What postSet returns.
    abbrev p : Posted (direct d now)
    p = record { world = arrival.state; t3 = r.t3; error = answer_error (some arrival.response) }

    answered_round :
        let (w, said) =
          after_post d.jwt (direct d now) url r f.minted.registered.id (or_else time r.recv) p in
        (round_of.0 ≡ w) × (reports round_of.1 ≡ said)
    unfolding post_set
    answered_round = round_posted d r kp time pod found laws carries f (direct d now) url st

    subject : f.read.sub_id.uri ≡ spiffe_uri pod.namespace (app_of pod)
    subject = subject_read d r kp time pod found laws carries f

    -- The principal of the pod is new, and the API server accepts the PATCH that adds it.
    module _ (new : contains st.revoked (principal_of_pod pod) ≡ false) (body : Text)
        (marshalled : marshal (add_principal (principal_of_pod pod) ∷ []) ≡ some body)
        (granted : (d.policy_api.patch st.policies d.namespace d.policy_name body).1 ≡ none) where
      same_principal : principal_of f.read.sub_id.uri ≡ principal_of_pod pod
      same_principal = ap principal_of subject ∙ principal_of-spiffe_uri pod.namespace (app_of pod)

      patched_now : (mesh_part d st f.read.sub_id.uri).outcome ≡ done true
      patched_now =
          revoke_fresh d.policy_api policies d.namespace d.policy_name st.revoked st.policies
            f.read.sub_id.uri body (rw subject (spiffe_uri-IsSpiffe pod.namespace (app_of pod)))
            (rw same_principal new) (rw same_principal marshalled) granted

      answered :
          (arrival.response.status ≡ status_accepted)
          × (arrival.state ≡ joined d st f.read.sub_id.uri)
      answered =
          answer_patched d now (set_request f.token r.recv r.t3) st f.token f.read
            (unfold set_request text_eq in refl) (unfold set_request in refl) f.decoded patched_now

      completes :
          (reports round_of.1
            ≡ posted f.minted.registered.id (or_else time r.recv) r.recv r.t2 r.t3 ∷ [])
          × (denied_by round_of.0 ≡ denied_by st ++ principal_of_pod pod ∷ [])
      completes =
          let id = f.minted.registered.id in
          let (added, _, _) =
            revoke_patched d.policy_api policies d.namespace d.policy_name st.revoked st.policies
              f.read.sub_id.uri patched_now in
          (
            answered_round.1
                ∙ clean-after_post d.jwt (direct d now) url r id (or_else time r.recv) p
                    (accepted_error arrival.response answered.0),
            ap denied_by answered_round.0
                ∙ ap denied_by (
                    world-after_post d.jwt (direct d now) url r id (or_else time r.recv) p
                    ∙ answered.1)
                ∙ added
                ∙ ap (λ q. denied_by st ++ q ∷ []) same_principal,
          )

  -- An event of a pod whose SET JSON can carry, whose principal is new, and whose PATCH the API
  -- server accepts, is posted with its own identifier and clocks, and the policy grows by exactly
  -- this principal.
  pub pipeline_completes :
      contains st.revoked (principal_of_pod pod) ≡ false
      → (body : Text) → marshal (add_principal (principal_of_pod pod) ∷ []) ≡ some body
      → (d.policy_api.patch st.policies d.namespace d.policy_name body).1 ≡ none
      → (reports round_of.1 ≡ posted r.jti (or_else time r.recv) r.recv r.t2 r.t3 ∷ [])
        × (denied_by round_of.0 ≡ denied_by st ++ principal_of_pod pod ∷ [])
  pipeline_completes new body marshalled granted =
      let f = flight d r kp time pod found laws carries in
      let (done_posting, grown) = completes f new body marshalled granted in
      (
        done_posting
            ∙ ap (λ i. posted i (or_else time r.recv) r.recv r.t2 r.t3 ∷ []) f.is_minted.id,
        grown,
      )
