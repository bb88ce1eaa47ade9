-- ===== src/Actuator/Registry/Growth.antt =====
-- cmd/actuator: the counter of revocations against the AuthorizationPolicy.
use ebpf_ssf_broker.Base.{
  ℕ, ◌+◌, ◌≡◌, refl, false, some, List, [], ◌∷◌, arith, length, length-append, Text, text_eq,
  contains,
}
use ebpf_ssf_broker.Actuator.Concurrent.View.{Refusals}
use ebpf_ssf_broker.Actuator.Mesh.{revoke_in_mesh, MeshError, failed}
use ebpf_ssf_broker.Actuator.Mesh.Laws.{
  principal_of, marshal-add, revoke_patched, revoke_deduped, PolicyLaws,
}
use ebpf_ssf_broker.Actuator.Dedupe.{load_or_store}
use ebpf_ssf_broker.Actuator.Registry.Totals.{results-serve_inputs}
use ebpf_ssf_broker.Actuator.Spans.Counts.{incs, incs-observe_spans}
use ebpf_ssf_broker.Actuator.Registry.{registered, serve_input, serve_inputs, Client, Process}
use ebpf_ssf_broker.Actuator.Registry.Performed.{
  events_of, events-registered, incs-perform_all, ClientLaws,
}
use ebpf_ssf_broker.Actuator.Registry.Tally.{
  tally, Tally, skipped, malformed, errored, skipped_patch, actuated,
}
use ebpf_ssf_broker.Actuator.Events.{
  result_revoked, mesh_part, events_handler, Deps, Now, State, Handled,
}
use ebpf_ssf_broker.Actuator.History.{handle, Input, event, reset_dedupe}
use ebpf_ssf_broker.Go.Http.{Request}
use ebpf_ssf_broker.Metrics.Series.{or_zero}

module _ (d : Deps) (laws : PolicyLaws d.policy_api) (honest : Refusals d laws false) where
  abbrev named : d.policy_api.Store → List Text
  named s = laws.principals s d.namespace d.policy_name

  module _ (now : Now) (req : Request) (st : State d) where
    -- A call that failed has left the policy as it was.
    named-failed :
        (subject : Text) (e : MeshError)
        → (mesh_part d st subject).outcome ≡ failed e
        → named (mesh_part d st subject).policies ≡ named st.policies
    unfolding revoke_in_mesh load_or_store
    named-failed subject e h =
        let (body, b) = marshal-add (principal_of subject) in
        ground (arith, b, honest st.policies (principal_of subject) body b)

    named-Tally :
        {h : Handled d}
        → Tally d now req st h
        → length (named h.state.policies)
          ≡ length (named st.policies) + incs result_revoked h.metrics
    unfolding text_eq
    named-Tally (skipped a e s) = rw (e, s) (omega arith)
    named-Tally (malformed a e s) = rw (e, s) (omega arith)
    named-Tally (errored subject f a e s o) = rw (e, s, named-failed subject f o) (omega arith)
    named-Tally (skipped_patch subject a e s o) =
        let (same, _, _) =
          revoke_deduped d.policy_api laws d.namespace d.policy_name st.revoked st.policies subject
            o in
        rw (e, s, same) (omega arith)
    named-Tally (actuated subject c a e s o times) =
        let (added, _, _) =
          revoke_patched d.policy_api laws d.namespace d.policy_name st.revoked st.policies subject
            o in
        rw (e, s, added, incs-observe_spans result_revoked c)
          (omega (arith, length-append (named st.policies) (principal_of subject ∷ [])))

  module _ (p : Client) (client_laws : ClientLaws p) where
    named-inputs :
        (is : List Input) (t : Process d p)
        → length (named (serve_inputs d p t is).state.policies)
            + or_zero (events_of p client_laws t.metrics result_revoked)
          ≡ length (named t.state.policies)
            + or_zero (events_of p client_laws (serve_inputs d p t is).metrics result_revoked)
    unfolding serve_inputs serve_input handle
    named-inputs [] t = refl
    named-inputs (reset_dedupe req ∷ is) t = named-inputs is (serve_input d p t (reset_dedupe req))
    named-inputs (event now req ∷ is) t =
        let h = events_handler d now req t.state in
        omega (
          arith,
          named-inputs is (serve_input d p t (event now req)),
          incs-perform_all p client_laws h.metrics t.metrics result_revoked,
          named-Tally now req t.state (tally d now req t.state),
        )

    -- In front of an API server whose errors have no effect, and while nobody else writes the
    -- policy, the counter shows as many revocations as the policy has gained principals since the
    -- process started, whatever requests it got, resets among them.
    pub revocations-serve_inputs :
        (st : State d) (is : List Input)
        → (n : ℕ) × (events_of p client_laws
              (serve_inputs d p (record { state = st; metrics = registered p }) is).metrics
              result_revoked
            ≡ some n)
          × (length (
                named
                  (serve_inputs d p
                    (record { state = st; metrics = registered p })
                    is).state.policies)
              ≡ length (named st.policies) + n)
    revocations-serve_inputs st is =
        let start : Process d p = record { state = st; metrics = registered p } in
        let (r, u, f, shown, total) = results-serve_inputs d p client_laws st is in
        let none_yet =
          events-registered p client_laws result_revoked (unfold contains text_eq in refl) in
        let gained = named-inputs is start in
        (r, shown.shows_revoked, ground (arith, gained, none_yet, shown.shows_revoked))
