-- ===== src/Actuator/Goroutines/MeshSide.antt =====
-- cmd/actuator/main.go: the steps of the first goroutine against revoke_in_mesh.
use ebpf_ssf_broker.Base.{
  ℕ, zero, suc, ◌-◌, ◌≤◌, ◌≡◌, refl, ◌∙◌, inl, inr, Bool, true, false, ◌||◌, Option, none, some, [],
  ◌∷◌, arith, Bool-cases, Text, text_eq, is_empty, contains,
}
use ebpf_ssf_broker.Actuator.Goroutines.{
  at_check, at_patch, at_delete, mesh_returned, principal, after_marshal, after_load, after_patch,
  mesh_step_at, mesh_step, MeshAt, MeshThread,
}
use ebpf_ssf_broker.Go.Json.{marshal}
use ebpf_ssf_broker.Actuator.Events.{Deps}
use ebpf_ssf_broker.Actuator.Mesh.Laws.{marshal-add}
use ebpf_ssf_broker.Actuator.Mesh.{add_principal, finish_patch, revoke_in_mesh, failed, Revocation}
use ebpf_ssf_broker.Actuator.Dedupe.{Revoked, load_or_store, delete}

-- The steps left to the return, at most.
unfoldable pub mesh_left : MeshAt → ℕ
mesh_left at_check = 3
mesh_left (at_patch body) = 2
mesh_left (at_delete e) = 1
mesh_left (mesh_returned o) = 0

module _ (d : Deps) (subject : Text) where
  -- What the first goroutine will have done when it returns.
  unfoldable pub mesh_result_at : MeshAt → Revoked → d.policy_api.Store → Revocation d.policy_api
  mesh_result_at at_check m s = revoke_in_mesh d.policy_api d.namespace d.policy_name m s subject
  mesh_result_at (at_patch body) m s =
      finish_patch d.policy_api d.namespace d.policy_name (principal d subject) m
        (d.policy_api.patch s d.namespace d.policy_name body)
  mesh_result_at (at_delete e) m s = record {
    revoked = delete m (principal d subject);
    policies = s;
    outcome = failed e;
  }
  mesh_result_at (mesh_returned o) m s = record { revoked = m; policies = s; outcome = o }

  abbrev pub mesh_result : MeshThread d → Revocation d.policy_api
  mesh_result t = mesh_result_at t.at t.revoked t.policies

  mesh_result-check :
      (m : Revoked) (s : d.policy_api.Store)
      → mesh_result (mesh_step_at d subject at_check m s) ≡ mesh_result_at at_check m s
  unfolding mesh_result_at mesh_step_at revoke_in_mesh load_or_store
  mesh_result-check m s =
      elim (Bool-cases (text_eq (principal d subject) subject || is_empty (principal d subject))) [
        | inl other ↦ rw other refl
        | inr good ↦ elim (Bool-cases (contains m (principal d subject))) [
          | inl known ↦ rw (good, known) refl
          | inr new ↦
              let (body, written) = marshal-add (principal d subject) in
              rw (good, new, written) refl
        ]
      ]

  mesh_result-patch :
      (m : Revoked) (o : d.policy_api.Store × Option Text)
      → mesh_result (after_patch d subject m o)
        ≡ finish_patch d.policy_api d.namespace d.policy_name (principal d subject) m o
  unfolding mesh_result_at after_patch finish_patch
  mesh_result-patch m (s, none) = refl
  mesh_result-patch m (s, some e) = refl

  mesh_result-step_at :
      (a : MeshAt) (m : Revoked) (s : d.policy_api.Store)
      → mesh_result (mesh_step_at d subject a m s) ≡ mesh_result_at a m s
  unfolding mesh_result_at mesh_step_at
  mesh_result-step_at at_check m s = mesh_result-check m s
  mesh_result-step_at (at_patch body) m s =
      mesh_result-patch m (d.policy_api.patch s d.namespace d.policy_name body)
  mesh_result-step_at (at_delete e) m s = refl
  mesh_result-step_at (mesh_returned o) m s = refl

  mesh_result-step : (t : MeshThread d) → mesh_result (mesh_step d subject t) ≡ mesh_result t
  mesh_result-step t = mesh_result-step_at t.at t.revoked t.policies

  abbrev pub mesh_steps : ℕ → MeshThread d → MeshThread d
  mesh_steps zero t = t
  mesh_steps (suc n) t = mesh_steps n (mesh_step d subject t)

  pub mesh_result-steps : (n : ℕ) (t : MeshThread d) → mesh_result (mesh_steps n t) ≡ mesh_result t
  mesh_result-steps zero t = refl
  mesh_result-steps (suc n) t = mesh_result-steps n (mesh_step d subject t) ∙ mesh_result-step t

  left-after_patch :
      (m : Revoked) (o : d.policy_api.Store × Option Text)
      → mesh_left (after_patch d subject m o).at ≤ 1
  unfolding after_patch mesh_left
  left-after_patch m (s, none) = omega arith
  left-after_patch m (s, some e) = omega arith

  left-after_load :
      (s : d.policy_api.Store) (o : Revoked × Bool) → mesh_left (after_load d subject s o).at ≤ 2
  unfolding after_load mesh_left
  left-after_load s (m, true) = omega arith
  left-after_load s (m, false) =
      left-after_marshal (marshal (add_principal (principal d subject) ∷ []))
    where
      left-after_marshal : (o : Option Text) → mesh_left (after_marshal d subject o) ≤ 2
      left-after_marshal none = omega arith
      left-after_marshal (some body) = omega arith

  -- A step that is not the last one leaves fewer.
  pub left-mesh_step :
      (a : MeshAt) (m : Revoked) (s : d.policy_api.Store)
      → mesh_left (mesh_step_at d subject a m s).at ≤ mesh_left a - 1
  unfolding mesh_step_at mesh_left
  left-mesh_step at_check m s =
      elim (Bool-cases (text_eq (principal d subject) subject || is_empty (principal d subject))) [
        | inl other ↦ rw other (omega arith)
        | inr good ↦ rw good (left-after_load s (load_or_store m (principal d subject)))
      ]
  left-mesh_step (at_patch body) m s =
      left-after_patch m (d.policy_api.patch s d.namespace d.policy_name body)
  left-mesh_step (at_delete e) m s = omega arith
  left-mesh_step (mesh_returned o) m s = omega arith

  pub left-mesh_steps :
      (n : ℕ) (t : MeshThread d) → mesh_left (mesh_steps n t).at ≤ mesh_left t.at - n
  left-mesh_steps zero t = omega arith
  left-mesh_steps (suc n) t =
      let one = left-mesh_step t.at t.revoked t.policies in
      omega (arith, left-mesh_steps n (mesh_step d subject t), one)
