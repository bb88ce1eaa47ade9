-- ===== src/Pipeline/Unlabelled.antt =====
-- An event of a pod without an app label.
use ebpf_ssf_broker.Base.{
  ◌≡◌, refl, ap, ◌∙◌, false, Option, none, some, [], ◌∷◌, ◌++◌, arith, Text, codes, contains,
}
use ebpf_ssf_broker.Translator.Loop.Laws.{reports}
use ebpf_ssf_broker.Actuator.WorkloadId.{empty_segment}
use ebpf_ssf_broker.Actuator.Labels.{remove_spire_label, PodApi, bad_subject, Removal}
use ebpf_ssf_broker.Actuator.WorkloadId.Laws.{parse_unnamed, IsSegment}
use ebpf_ssf_broker.Pipeline.Denied.{pipeline_completes}
use ebpf_ssf_broker.Actuator.Events.{Deps, Now, State}
use ebpf_ssf_broker.Actuator.Mesh.Laws.{PolicyLaws}
use ebpf_ssf_broker.Actuator.Mesh.{add_principal}
use ebpf_ssf_broker.Caep.Jwt.{JwtLaws}
use ebpf_ssf_broker.Caep.Set.{SetClaims}
use ebpf_ssf_broker.Go.Clock.{Time}
use ebpf_ssf_broker.Go.Json.{marshal}
use ebpf_ssf_broker.Pipeline.{direct, app_of, principal_of_pod}
use ebpf_ssf_broker.Translator.Build.Laws.{IsMinted}
use ebpf_ssf_broker.Translator.Build.{attribution, spiffe_uri, Pod, ProcessKprobe}
use ebpf_ssf_broker.Translator.Loop.{or_else, handle_message, kprobe, Round, posted}

-- The pods of a namespace that a SET of such an event names: the removal reads no account.
pub unnamed_subject :
    (api : PodApi) (pods : api.Store) (ns : Text)
    → IsSegment ns
    → remove_spire_label api pods (spiffe_uri ns []) ≡ record {
      pods = pods;
      patched = 0;
      errors = bad_subject (empty_segment (spiffe_uri ns [])) ∷ [];
    }
unfolding remove_spire_label
unnamed_subject api pods ns n =
    rw (parse_unnamed (codes "example.org") ns (record { filled = refl; whole = omega arith }) n)

module _ (d : Deps) (now : Now) (url : Text) (r : Round) (st : State d) (kp : Option ProcessKprobe)
    (time : Option Time) (pod : Pod) (found : attribution kp ≡ some pod) (laws : JwtLaws d.jwt)
    (carries : (c : SetClaims) → IsMinted pod (or_else time r.recv) r.jti c → laws.Carries c)
    (policies : PolicyLaws d.policy_api) where
  -- An event of a pod without an app label, whose SET JSON can carry, is posted without an error
  -- if the principal is new and the API server accepts the PATCH, and the policy grows by a
  -- principal with an empty account. The label removal refuses the same subject for its empty
  -- segment.
  pub unlabelled_posted :
      app_of pod ≡ []
      → IsSegment pod.namespace
      → contains st.revoked (principal_of_pod pod) ≡ false
      → (body : Text) → marshal (add_principal (principal_of_pod pod) ∷ []) ≡ some body
      → (d.policy_api.patch st.policies d.namespace d.policy_name body).1 ≡ none
      → (reports
            (handle_message d.jwt
              (direct d now)
              url
              r
              st
              (record { event = kprobe kp; time = time })).1
          ≡ posted r.jti (or_else time r.recv) r.recv r.t2 r.t3 ∷ [])
        × (policies.principals
              (handle_message d.jwt
                (direct d now)
                url
                r
                st
                (record { event = kprobe kp; time = time })).0.policies
              d.namespace
              d.policy_name
            ≡ policies.principals st.policies d.namespace d.policy_name
              ++ (codes "example.org/ns/" ++ (pod.namespace ++ codes "/sa/")) ∷ [])
        × ((remove_spire_label d.pod_api st.pods (spiffe_uri pod.namespace (app_of pod))).errors
            ≡ bad_subject (empty_segment (spiffe_uri pod.namespace (app_of pod))) ∷ [])
  unlabelled_posted unlabelled n new body marshalled granted =
      let (done_posting, grown) =
        pipeline_completes d now url r st kp time pod found laws carries policies new body
          marshalled granted in
      (
        done_posting,
        grown ∙ rw unlabelled,
        rw unlabelled (
            ap (λ (m : Removal d.pod_api). m.errors)
              (unnamed_subject d.pod_api st.pods pod.namespace n)),
      )
