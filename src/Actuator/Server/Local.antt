-- ===== src/Actuator/Server/Local.antt =====
-- cmd/actuator/main.go: the steps of the goroutines of one request.
use ebpf_ssf_broker.Base.{
  ℕ, zero, suc, ◌+◌, ◌≤◌, ◌≡◌, refl, List, [], ◌∷◌, ◌++◌, map, arith, length,
}
use ebpf_ssf_broker.Go.Http.{Response}
use ebpf_ssf_broker.Caep.Set.{SetClaims}
use ebpf_ssf_broker.Actuator.Mesh.{Outcome, done, failed}
use ebpf_ssf_broker.Actuator.Events.{conclude, Deps, State}
use ebpf_ssf_broker.Actuator.Spans.{Clocks, MetricCall}
use ebpf_ssf_broker.Actuator.Goroutines.{
  mesh_step, label_step, interleave, Turn, mesh_turn, label_turn, MeshThread, LabelThread,
}
use ebpf_ssf_broker.Actuator.Registry.{perform, perform_all, Client, Registered}
use ebpf_ssf_broker.Actuator.Server.{
  waiting, reporting, answered, idle, advance, Part, handler_side, mesh_side, label_side, Incoming,
  Stepped,
}

-- The goroutine of a turn.
abbrev pub part_of : Turn → Part
part_of mesh_turn = mesh_side
part_of label_turn = label_side

abbrev pub handler_turns : ℕ → List Part
handler_turns zero = []
handler_turns (suc n) = handler_side ∷ handler_turns n

-- The handler's goroutine, then the two that it starts in some order, then the handler's again.
abbrev pub course_of : List Turn → ℕ → List Part
course_of turns n = handler_side ∷ (map part_of turns ++ handler_turns n)

module _ (d : Deps) (p : Client) (r : Incoming) where
  abbrev pub local_step : Part → Stepped d p → Stepped d p
  local_step part t = advance d p r part t.state t.metrics t.at

  abbrev pub local_run : List Part → Stepped d p → Stepped d p
  local_run [] t = t
  local_run (part ∷ parts) t = local_run parts (local_step part t)

  pub local_run-append :
      (xs ys : List Part) (t : Stepped d p) → local_run (xs ++ ys) t ≡ local_run ys (local_run xs t)
  local_run-append [] ys t = refl
  local_run-append (x ∷ xs) ys t = local_run-append xs ys (local_step x t)

  answered_stays :
      (n : ℕ) (st : State d) (ms : Registered p) (response : Response)
      → local_run (handler_turns n) (idle d p st ms (answered response))
        ≡ idle d p st ms (answered response)
  unfolding advance
  answered_stays zero st ms response = refl
  answered_stays (suc n) st ms response = answered_stays n st ms response

  -- The metrics are counted one after the other, then the request is answered.
  pub reported :
      (n : ℕ) (calls : List MetricCall) (st : State d) (ms : Registered p) (response : Response)
      → length calls + 1 ≤ n
      → local_run (handler_turns n) (idle d p st ms (reporting calls response))
        ≡ idle d p st (perform_all p calls ms) (answered response)
  unfolding advance perform_all
  reported zero calls st ms response h = absurd (omega arith)
  reported (suc n) [] st ms response h = answered_stays n st ms response
  reported (suc n) (m ∷ calls) st ms response h =
      reported n calls st (perform p m ms) response (omega arith)

  -- The goroutines of a request that was refused do not run.
  pub refused_idle :
      (turns : List Turn) (st : State d) (ms : Registered p) (calls : List MetricCall)
      (response : Response)
      → local_run (map part_of turns) (idle d p st ms (reporting calls response))
        ≡ idle d p st ms (reporting calls response)
  unfolding advance
  refused_idle [] st ms calls response = refl
  refused_idle (mesh_turn ∷ turns) st ms calls response = refused_idle turns st ms calls response
  refused_idle (label_turn ∷ turns) st ms calls response = refused_idle turns st ms calls response

  abbrev pub between : Registered p → SetClaims → MeshThread d → LabelThread d → Stepped d p
  between ms claims mesh label = record {
    state = record { revoked = mesh.revoked; policies = mesh.policies; pods = label.pods };
    metrics = ms;
    at = waiting claims mesh.at label.at;
  }

  pub goroutines :
      (turns : List Turn) (ms : Registered p) (claims : SetClaims) (mesh : MeshThread d)
      (label : LabelThread d)
      → local_run (map part_of turns) (between ms claims mesh label)
        ≡ between ms claims
            (interleave d claims.sub_id.uri turns mesh label).0
            (interleave d claims.sub_id.uri turns mesh label).1
  unfolding advance interleave
  goroutines [] ms claims mesh label = refl
  goroutines (mesh_turn ∷ turns) ms claims mesh label =
      goroutines turns ms claims (mesh_step d claims.sub_id.uri mesh) label
  goroutines (label_turn ∷ turns) ms claims mesh label =
      goroutines turns ms claims mesh (label_step d claims.sub_id.uri label)

  pub state-conclude :
      (claims : SetClaims) (c : Clocks) (st : State d) (o : Outcome)
      → (conclude d claims c st o).state ≡ st
  unfolding conclude
  state-conclude claims c st (done b) = refl
  state-conclude claims c st (failed e) = refl
