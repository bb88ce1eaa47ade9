-- ===== src/Actuator/Registry/Tally.antt =====
-- cmd/actuator: what one request adds to each metric, by its course.
use ebpf_ssf_broker.Base.{◌≡◌, refl, true, false, [], ◌∷◌, Text}
use ebpf_ssf_broker.Actuator.Spans.{observe_spans, Clocks, inc_events}
use ebpf_ssf_broker.Actuator.Events.{
  result_revoked, result_deduped, result_failed, clocks_of, conclude, mesh_part, joined,
  events_handler, Deps, Now, State, Handled,
}
use ebpf_ssf_broker.Actuator.Events.Laws.{
  course, arrived, Course, wrong_method, unread, undecodable, acted,
}
use ebpf_ssf_broker.Caep.Set.{SetClaims}
use ebpf_ssf_broker.Actuator.Mesh.{MeshError, Outcome, done, failed}
use ebpf_ssf_broker.Go.Http.{Request}

-- The calls into the metrics library, with the policies that the request leaves.
pub data Tally (d : Deps) (now : Now) (req : Request) (st : State d) (h : Handled d) : Type 0 where
  skipped :
      arrived req ≡ false → h.metrics ≡ [] → h.state.policies ≡ st.policies → Tally d now req st h
  malformed :
      arrived req ≡ true
      → h.metrics ≡ inc_events result_failed ∷ []
      → h.state.policies ≡ st.policies
      → Tally d now req st h
  errored :
      (subject : Text) (e : MeshError)
      → arrived req ≡ true
      → h.metrics ≡ inc_events result_failed ∷ []
      → h.state.policies ≡ (mesh_part d st subject).policies
      → (mesh_part d st subject).outcome ≡ failed e
      → Tally d now req st h
  skipped_patch :
      (subject : Text)
      → arrived req ≡ true
      → h.metrics ≡ inc_events result_deduped ∷ []
      → h.state.policies ≡ (mesh_part d st subject).policies
      → (mesh_part d st subject).outcome ≡ done false
      → Tally d now req st h
  actuated :
      (subject : Text) (c : Clocks)
      → arrived req ≡ true
      → h.metrics ≡ inc_events result_revoked ∷ observe_spans c
      → h.state.policies ≡ (mesh_part d st subject).policies
      → (mesh_part d st subject).outcome ≡ done true
      → (c.t5 ≡ now.t5) × (c.t6 ≡ now.t6)
      → Tally d now req st h

module _ (d : Deps) (now : Now) (req : Request) (st : State d) where
  Tally-concluded :
      (claims : SetClaims) (o : Outcome)
      → arrived req ≡ true
      → (mesh_part d st claims.sub_id.uri).outcome ≡ o
      → Tally d now req st
          (conclude d claims (clocks_of now req.headers claims) (joined d st claims.sub_id.uri) o)
  unfolding conclude
  Tally-concluded claims (failed e) in_time o = errored claims.sub_id.uri e in_time refl refl o
  Tally-concluded claims (done true) in_time o =
      actuated claims.sub_id.uri (clocks_of now req.headers claims) in_time refl refl o (refl, refl)
  Tally-concluded claims (done false) in_time o =
      skipped_patch claims.sub_id.uri in_time refl refl o

  Tally-by : {h : Handled d} → Course d now req st h → Tally d now req st h
  Tally-by (wrong_method m e) = skipped (rw m) (rw e refl) (rw e refl)
  Tally-by (unread m b e) = skipped (rw (m, b)) (rw e refl) (rw e refl)
  Tally-by (undecodable body m b c e) = malformed (rw (m, b)) (rw e refl) (rw e refl)
  Tally-by (acted body claims m b c e) =
      rw e (Tally-concluded claims (mesh_part d st claims.sub_id.uri).outcome (rw (m, b)) refl)

  pub tally : Tally d now req st (events_handler d now req st)
  tally = Tally-by (course d now req st)
