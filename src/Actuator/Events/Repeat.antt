-- ===== src/Actuator/Events/Repeat.antt =====
-- cmd/actuator/main.go: eventsHandler on a SET that arrives again.
use ebpf_ssf_broker.Base.{
  ◌≡◌, refl, sym, ap, ◌∙◌, subst, Bool, true, false, some, [], ◌∷◌, arith, Text, text_eq,
}
use ebpf_ssf_broker.Actuator.Events.Laws.{course, Course, wrong_method, unread, undecodable, acted}
use ebpf_ssf_broker.Actuator.Events.{
  result_deduped, clocks_of, conclude, mesh_part, joined, events_handler, Deps, Now, State, Handled,
}
use ebpf_ssf_broker.Actuator.Spans.{Clocks, inc_events}
use ebpf_ssf_broker.Actuator.Mesh.Laws.{revoke_again}
use ebpf_ssf_broker.Actuator.Mesh.{Outcome, done, failed}
use ebpf_ssf_broker.Caep.Jwt.{decode_unsigned}
use ebpf_ssf_broker.Caep.Set.{SetClaims}
use ebpf_ssf_broker.Go.Http.{method_post, status_accepted, Request}

module _ (d : Deps) where
  state-conclude :
      (claims : SetClaims) (c : Clocks) (st : State d) (o : Outcome)
      → (conclude d claims c st o).state ≡ st
  unfolding conclude
  state-conclude claims c st (done b) = refl
  state-conclude claims c st (failed e) = refl

  accepted_outcome :
      (claims : SetClaims) (c : Clocks) (st : State d) (o : Outcome)
      → (conclude d claims c st o).response.status ≡ status_accepted
      → (b : Bool) × (o ≡ done b)
  unfolding conclude
  accepted_outcome claims c st (done b) n = (b, refl)
  accepted_outcome claims c st (failed e) n = absurd (omega arith)

  -- What a duplicate leaves.
  pub record Repeated (st : State d) (h : Handled d) : Type 0 where
    pub accepted : h.response.status ≡ status_accepted
    pub revoked : h.state.revoked ≡ st.revoked
    pub policies : h.state.policies ≡ st.policies
    pub counted_once : h.metrics ≡ inc_events result_deduped ∷ []

  answer-Repeated :
      (now : Now) (req : Request) (st : State d) (body : Text) (claims : SetClaims)
      → text_eq req.method method_post ≡ true
      → req.body ≡ some body
      → decode_unsigned d.jwt body ≡ some claims
      → mesh_part d st claims.sub_id.uri
        ≡ record { revoked = st.revoked; policies = st.policies; outcome = done false }
      → Repeated st (events_handler d now req st)
  unfolding events_handler
  answer-Repeated now req st body claims post read decoded o =
      rw (post, read, decoded, o)
        (record { accepted = refl; revoked = refl; policies = refl; counted_once = refl })

  module _ (now again : Now) (req : Request) (st : State d) where
    mesh_part_again :
        (s : State d) (claims : SetClaims) (b : Bool)
        → (mesh_part d st claims.sub_id.uri).outcome ≡ done b
        → s ≡ joined d st claims.sub_id.uri
        → mesh_part d s claims.sub_id.uri
          ≡ record { revoked = s.revoked; policies = s.policies; outcome = done false }
    mesh_part_again s claims b o e =
        subst
          (λ (t : State d).
            mesh_part d t claims.sub_id.uri
            ≡ record { revoked = t.revoked; policies = t.policies; outcome = done false })
          (sym e)
          (revoke_again d.policy_api d.namespace d.policy_name st.revoked st.policies
            claims.sub_id.uri b (joined d st claims.sub_id.uri).policies o)

    Repeated-by :
        {h : Handled d}
        → Course d now req st h
        → h.response.status ≡ status_accepted
        → Repeated h.state (events_handler d again req h.state)
    Repeated-by (wrong_method m e) n = let k = rw e at n in absurd (omega arith)
    Repeated-by (unread m b e) n = let k = rw e at n in absurd (omega arith)
    Repeated-by (undecodable body m b c e) n = let k = rw e at n in absurd (omega arith)
    Repeated-by {h} (acted body claims m b c e) n =
        let o = (mesh_part d st claims.sub_id.uri).outcome in
        let clocks = clocks_of now req.headers claims in
        let left = joined d st claims.sub_id.uri in
        let (patched, is_done) = accepted_outcome claims clocks left o (rw e at n) in
        answer-Repeated again req h.state body claims m b c (
          mesh_part_again h.state claims patched is_done
            (ap (λ (k : Handled d). k.state) e ∙ state-conclude claims clocks left o))

    -- A request that was answered by 202, sent once more, is answered by 202 again: it is counted
    -- as deduped and observes no latency, and the policies and the dedupe set stay as they are.
    pub events_handler_twice :
        (events_handler d now req st).response.status ≡ status_accepted
        → Repeated
            (events_handler d now req st).state
            (events_handler d again req (events_handler d now req st).state)
    events_handler_twice n = Repeated-by (course d now req st) n
