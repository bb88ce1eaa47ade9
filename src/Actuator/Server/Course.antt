-- ===== src/Actuator/Server/Course.antt =====
-- cmd/actuator: a request whose goroutines have the process to themselves, against events_handler.
use ebpf_ssf_broker.Base.{
  ℕ, zero, suc, ◌+◌, ◌≤◌, ◌≡◌, refl, sym, ap, ◌∙◌, subst, List, [], ◌∷◌, ◌++◌, map, arith, length,
  codes,
}
use ebpf_ssf_broker.Actuator.Labels.{remove_spire_label, LabelError}
use ebpf_ssf_broker.Go.Http.{status_bad_request, http_error, Response}
use ebpf_ssf_broker.Caep.Set.{SetClaims}
use ebpf_ssf_broker.Actuator.Mesh.{Outcome}
use ebpf_ssf_broker.Actuator.Events.{
  result_failed, not_allowed, clocks_of, refuse, conclude, mesh_part, joined, events_handler, Deps,
  State, Handled,
}
use ebpf_ssf_broker.Actuator.Spans.{MetricCall, inc_events}
use ebpf_ssf_broker.Actuator.Goroutines.{
  interleave, mesh_started, label_started, Turn, at_check, mesh_returned, at_list, label_returned,
  MeshThread, LabelThread,
}
use ebpf_ssf_broker.Actuator.Goroutines.LabelSide.{label_left}
use ebpf_ssf_broker.Actuator.Goroutines.Join.{
  turns_of_mesh, turns_of_label, interleave-joined, Joined,
}
use ebpf_ssf_broker.Actuator.Registry.{perform_all, Client, Registered}
use ebpf_ssf_broker.Actuator.Server.{
  arriving, waiting, reporting, answered, begin_request, report, wait, idle, advance, RequestAt,
  Incoming,
}
use ebpf_ssf_broker.Actuator.Events.Laws.{course, Course, wrong_method, unread, undecodable, acted}
use ebpf_ssf_broker.Actuator.Server.Fits.{subject_in, subject_in-Carries, begin_waiting}
use ebpf_ssf_broker.Actuator.Server.Local.{
  part_of, handler_turns, course_of, local_run, local_run-append, reported, refused_idle, between,
  goroutines, state-conclude,
}

module _ (d : Deps) (p : Client) (r : Incoming) where
  module _ (st : State d) (ms : Registered p) (turns : List Turn) (n : ℕ) where
    abbrev Ends : Handled d → Type 0
    Ends h =
        local_run d p r (course_of turns n) (idle d p st ms arriving)
        ≡ idle d p h.state (perform_all p h.metrics ms) (answered h.response)

    began :
        (x : RequestAt)
        → begin_request d r.request ≡ x
        → local_run d p r (course_of turns n) (idle d p st ms arriving)
          ≡ local_run d p r
              (handler_turns n)
              (local_run d p r (map part_of turns) (idle d p st ms x))
    unfolding advance
    began x b =
        ap (λ y. local_run d p r (map part_of turns ++ handler_turns n) (idle d p st ms y)) b
        ∙ local_run-append d p r (map part_of turns) (handler_turns n) (idle d p st ms x)

    refused-Ends :
        (calls : List MetricCall) (response : Response)
        → begin_request d r.request ≡ reporting calls response
        → length calls + 2 ≤ n
        → Ends (refuse d st calls response)
    refused-Ends calls response b h =
        began (reporting calls response) b
        ∙ ap (local_run d p r (handler_turns n)) (refused_idle d p r turns st ms calls response)
        ∙ reported d p r n calls st ms response (omega arith)

    abbrev concluded : SetClaims → Handled d
    concluded claims =
        conclude d claims (clocks_of r.now r.request.headers claims) (joined d st claims.sub_id.uri)
          (mesh_part d st claims.sub_id.uri).outcome

    -- wg.Wait() returns, as both goroutines have.
    waited :
        (k : ℕ) (claims : SetClaims) (st' : State d) (o : Outcome) (m : ℕ) (errs : List LabelError)
        → local_run d p r
            (handler_turns (suc k))
            (idle d p st' ms (waiting claims (mesh_returned o) (label_returned m errs)))
          ≡ local_run d p r (handler_turns k) (idle d p st' ms (report d r claims st' o))
    unfolding advance wait
    waited k claims st' o m errs = refl

    after_wait :
        (k : ℕ) (claims : SetClaims) (o : Outcome) (m : ℕ) (errs : List LabelError)
        (mesh : MeshThread d) (label : LabelThread d)
        → let st' = joined d st claims.sub_id.uri in
          Joined d claims.sub_id.uri st' o m errs mesh label
          → length (conclude d claims (clocks_of r.now r.request.headers claims) st' o).metrics + 2
            ≤ k
          → let h = conclude d claims (clocks_of r.now r.request.headers claims) st' o in
            local_run d p r (handler_turns k) (between d p r ms claims mesh label)
            ≡ idle d p h.state (perform_all p h.metrics ms) (answered h.response)
    after_wait zero claims o m errs mesh label j h = absurd (omega arith)
    after_wait (suc k) claims o m errs mesh label j h =
        let st' = joined d st claims.sub_id.uri in
        let c = conclude d claims (clocks_of r.now r.request.headers claims) st' o in
        ap (local_run d p r (handler_turns (suc k)))
          (rw (j.mesh_done, j.label_done, j.revoked, j.policies, j.pods) refl)
        ∙ waited k claims st' o m errs
        ∙ reported d p r k c.metrics st' ms c.response (omega arith)
        ∙ ap (λ x. idle d p x (perform_all p c.metrics ms) (answered c.response))
            (sym (state-conclude d p r claims (clocks_of r.now r.request.headers claims) st' o))

    joined-Ends :
        (claims : SetClaims)
        → begin_request d r.request ≡ waiting claims at_check at_list
        → 3 ≤ turns_of_mesh turns
        → label_left d claims.sub_id.uri at_list st.pods ≤ turns_of_label turns
        → length (concluded claims).metrics + 2 ≤ n
        → Ends (concluded claims)
    joined-Ends claims b mesh_turns label_turns h =
        began (waiting claims at_check at_list) b
        ∙ ap (local_run d p r (handler_turns n))
            (goroutines d p r turns ms claims (mesh_started d st) (label_started d st))
        ∙ after_wait n claims (mesh_part d st claims.sub_id.uri).outcome
            (remove_spire_label d.pod_api st.pods claims.sub_id.uri).patched
            (remove_spire_label d.pod_api st.pods claims.sub_id.uri).errors
            (interleave d claims.sub_id.uri turns (mesh_started d st) (label_started d st)).0
            (interleave d claims.sub_id.uri turns (mesh_started d st) (label_started d st)).1
            (interleave-joined d st claims.sub_id.uri turns mesh_turns label_turns) h

    enough : {h x : Handled d} → h ≡ x → length h.metrics + 2 ≤ n → length x.metrics + 2 ≤ n
    enough e h = subst (λ (x : Handled d). length x.metrics + 2 ≤ n) e h

    Ends-by :
        {h : Handled d}
        → Course d r.now r.request st h
        → 3 ≤ turns_of_mesh turns
        → label_left d (subject_in d r) at_list st.pods ≤ turns_of_label turns
        → length h.metrics + 2 ≤ n
        → Ends h
    unfolding begin_request
    Ends-by (wrong_method m e) mesh_turns label_turns h =
        subst Ends (sym e) (refused-Ends [] not_allowed (rw m refl) (enough e h))
    Ends-by (unread m b e) mesh_turns label_turns h = subst Ends (sym e) (
        refused-Ends [] (http_error [] (codes "cannot read body") status_bad_request)
          (rw (m, b) refl) (enough e h))
    Ends-by (undecodable body m b c e) mesh_turns label_turns h = subst Ends (sym e) (
        refused-Ends (inc_events result_failed ∷ [])
          (http_error [] (codes "malformed SET") status_bad_request) (rw (m, b, c) refl)
          (enough e h))
    Ends-by (acted body claims m b c e) mesh_turns label_turns h = subst Ends (sym e) (
        joined-Ends claims (begin_waiting d r.request body claims m b c) mesh_turns
          (subst (λ x. label_left d x at_list st.pods ≤ turns_of_label turns)
            (subject_in-Carries d r claims (body, b, c)) label_turns)
          (enough e h))

    -- The goroutines of a request alone do what events_handler does.
    pub course-Ends :
        3 ≤ turns_of_mesh turns
        → label_left d (subject_in d r) at_list st.pods ≤ turns_of_label turns
        → length (events_handler d r.now r.request st).metrics + 2 ≤ n
        → Ends (events_handler d r.now r.request st)
    course-Ends = Ends-by (course d r.now r.request st)
