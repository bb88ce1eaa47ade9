-- ===== src/Actuator/Goroutines/Join.antt =====
-- cmd/actuator/main.go: the goroutines of eventsHandler under every schedule, against events_handler.
use ebpf_ssf_broker.Base.{ℕ, suc, ◌≤◌, ◌≡◌, refl, subst, List, [], ◌∷◌, arith, Text}
use ebpf_ssf_broker.Actuator.Mesh.{Outcome, Revocation}
use ebpf_ssf_broker.Actuator.Goroutines.LabelSide.{
  label_left, label_result_at, label_result, label_steps, label_result-steps, left-label_steps,
}
use ebpf_ssf_broker.Actuator.Goroutines.MeshSide.{
  mesh_left, mesh_result_at, mesh_result, mesh_steps, mesh_result-steps, left-mesh_steps,
}
use ebpf_ssf_broker.Actuator.Goroutines.{
  at_check, at_patch, at_delete, mesh_returned, at_list, at_pods, label_returned, mesh_step,
  label_step, interleave, mesh_started, label_started, Turn, mesh_turn, label_turn, MeshAt, LabelAt,
  MeshThread, LabelThread,
}
use ebpf_ssf_broker.Actuator.Events.{mesh_part, joined, Deps, State}
use ebpf_ssf_broker.Actuator.Labels.{remove_spire_label, LabelError, Removal}

abbrev pub turns_of_mesh : List Turn → ℕ
turns_of_mesh [] = 0
turns_of_mesh (mesh_turn ∷ turns) = suc (turns_of_mesh turns)
turns_of_mesh (label_turn ∷ turns) = turns_of_mesh turns

abbrev pub turns_of_label : List Turn → ℕ
turns_of_label [] = 0
turns_of_label (mesh_turn ∷ turns) = turns_of_label turns
turns_of_label (label_turn ∷ turns) = suc (turns_of_label turns)

module _ (d : Deps) (subject : Text) where
  -- A schedule gives each goroutine its turns, whatever the other does.
  interleave-steps :
      (turns : List Turn) (mesh : MeshThread d) (label : LabelThread d)
      → interleave d subject turns mesh label ≡ (
        mesh_steps d subject (turns_of_mesh turns) mesh,
        label_steps d subject (turns_of_label turns) label,
      )
  unfolding interleave
  interleave-steps [] mesh label = refl
  interleave-steps (mesh_turn ∷ turns) mesh label =
      interleave-steps turns (mesh_step d subject mesh) label
  interleave-steps (label_turn ∷ turns) mesh label =
      interleave-steps turns mesh (label_step d subject label)

  -- Both goroutines have returned, the first with this result, and what they left is this state.
  pub record Joined (st : State d) (o : Outcome) (n : ℕ) (errs : List LabelError)
      (mesh : MeshThread d) (label : LabelThread d) : Type 0 where
    pub mesh_done : mesh.at ≡ mesh_returned o
    pub label_done : label.at ≡ label_returned n errs
    pub revoked : mesh.revoked ≡ st.revoked
    pub policies : mesh.policies ≡ st.policies
    pub pods : label.pods ≡ st.pods

  mesh_at_end :
      (t : MeshThread d)
      → mesh_left t.at ≡ 0
      → (t.at ≡ mesh_returned (mesh_result d subject t).outcome)
        × (t.revoked ≡ (mesh_result d subject t).revoked)
        × (t.policies ≡ (mesh_result d subject t).policies)
  unfolding mesh_left mesh_result_at
  mesh_at_end t h = at_end t.at h
    where
      at_end :
          (a : MeshAt)
          → mesh_left a ≡ 0
          → (a ≡ mesh_returned (mesh_result_at d subject a t.revoked t.policies).outcome)
            × (t.revoked ≡ (mesh_result_at d subject a t.revoked t.policies).revoked)
            × (t.policies ≡ (mesh_result_at d subject a t.revoked t.policies).policies)
      at_end at_check k = absurd (omega arith)
      at_end (at_patch body) k = absurd (omega arith)
      at_end (at_delete e) k = absurd (omega arith)
      at_end (mesh_returned o) k = (refl, refl, refl)

  label_at_end :
      (t : LabelThread d)
      → label_left d subject t.at t.pods ≡ 0
      → (t.at ≡ label_returned (label_result d subject t).patched (label_result d subject t).errors)
        × (t.pods ≡ (label_result d subject t).pods)
  unfolding label_left label_result_at
  label_at_end t h = at_end t.at h
    where
      at_end :
          (a : LabelAt)
          → label_left d subject a t.pods ≡ 0
          → (a
              ≡ label_returned
                  (label_result_at d subject a t.pods).patched
                  (label_result_at d subject a t.pods).errors)
            × (t.pods ≡ (label_result_at d subject a t.pods).pods)
      at_end at_list k = absurd (omega arith)
      at_end (at_pods ns sa pods n errs) k = absurd (omega arith)
      at_end (label_returned n errs) k = (refl, refl)

module _ (d : Deps) (st : State d) (subject : Text) (turns : List Turn) where
  mesh_end :
      (n : ℕ)
      → 3 ≤ n
      → ((mesh_steps d subject n (mesh_started d st)).at
          ≡ mesh_returned (mesh_part d st subject).outcome)
        × ((mesh_steps d subject n (mesh_started d st)).revoked ≡ (mesh_part d st subject).revoked)
        × ((mesh_steps d subject n (mesh_started d st)).policies
            ≡ (mesh_part d st subject).policies)
  unfolding mesh_left mesh_result_at
  mesh_end n h =
      let t = mesh_steps d subject n (mesh_started d st) in
      let left = left-mesh_steps d subject n (mesh_started d st) in
      subst
        (λ (r : Revocation d.policy_api).
          (t.at ≡ mesh_returned r.outcome) × (t.revoked ≡ r.revoked) × (t.policies ≡ r.policies))
        (mesh_result-steps d subject n (mesh_started d st))
        (mesh_at_end d subject t (omega (arith, left)))

  label_end :
      (n : ℕ)
      → label_left d subject at_list st.pods ≤ n
      → ((label_steps d subject n (label_started d st)).at
          ≡ label_returned
              (remove_spire_label d.pod_api st.pods subject).patched
              (remove_spire_label d.pod_api st.pods subject).errors)
        × ((label_steps d subject n (label_started d st)).pods
            ≡ (remove_spire_label d.pod_api st.pods subject).pods)
  unfolding label_result_at
  label_end n h =
      let t = label_steps d subject n (label_started d st) in
      let left = left-label_steps d subject n (label_started d st) in
      subst
        (λ (r : Removal d.pod_api). (t.at ≡ label_returned r.patched r.errors) × (t.pods ≡ r.pods))
        (label_result-steps d subject n (label_started d st))
        (label_at_end d subject t (omega (arith, left)))

  -- However the two goroutines of a request interleave, both have returned after at least three
  -- turns of the first and, of the second, one for the List, one for each pod that it showed and
  -- one to return: with the results of revoke_in_mesh and remove_spire_label, and with the state
  -- that events_handler takes for the one after the other.
  pub interleave-joined :
      3 ≤ turns_of_mesh turns
      → label_left d subject at_list st.pods ≤ turns_of_label turns
      → Joined d subject
          (joined d st subject)
          (mesh_part d st subject).outcome
          (remove_spire_label d.pod_api st.pods subject).patched
          (remove_spire_label d.pod_api st.pods subject).errors
          (interleave d subject turns (mesh_started d st) (label_started d st)).0
          (interleave d subject turns (mesh_started d st) (label_started d st)).1
  interleave-joined mesh_turns label_turns =
      let (mesh_done, revoked, policies) = mesh_end (turns_of_mesh turns) mesh_turns in
      let (label_done, pods) = label_end (turns_of_label turns) label_turns in
      rw (interleave-steps d subject turns (mesh_started d st) (label_started d st)) (record {
        mesh_done = mesh_done;
        label_done = label_done;
        revoked = revoked;
        policies = policies;
        pods = pods;
      })
