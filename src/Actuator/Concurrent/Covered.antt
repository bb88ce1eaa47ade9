-- ===== src/Actuator/Concurrent/Covered.antt =====
-- cmd/actuator/mesh.go: what a call that has returned can rely on, in front of an API server that
-- accepts every PATCH.
use ebpf_ssf_broker.Base.{
  ℕ, ◌≡◌, refl, ◌⊎◌, inl, inr, Bool, true, false, some, List, [], ◌∷◌, Text, contains,
}
use ebpf_ssf_broker.Go.Json.{marshal}
use ebpf_ssf_broker.Actuator.Mesh.{
  add_principal, not_spiffe_id, marshal_failed, patch_failed, done, failed,
}
use ebpf_ssf_broker.Actuator.Mesh.Laws.{principal_of, PolicyLaws}
use ebpf_ssf_broker.Actuator.Events.{Deps}
use ebpf_ssf_broker.Actuator.Goroutines.{MeshAt, at_check, at_patch, at_delete, mesh_returned}
use ebpf_ssf_broker.Actuator.Race.{busy}
use ebpf_ssf_broker.Actuator.Race.Acknowledged.{has_answered, has_failed, answered_covered}
use ebpf_ssf_broker.Actuator.Concurrent.View.{pc_at, seen, calls_for, All-Allowed, any_refusals}
use ebpf_ssf_broker.Actuator.Concurrent.Refines.{run-refines}
use ebpf_ssf_broker.Actuator.Concurrent.Burst.{contains-append_right, in_policy}
use ebpf_ssf_broker.Actuator.Concurrent.Settles.{IsFine, AcceptsAll, IsFine-after}
use ebpf_ssf_broker.Actuator.Concurrent.{run, at_start, Sched}

module _ (d : Deps) (accepting : AcceptsAll d) where
  -- A call that is fine has not failed, and if it is busy, it is in front of its PATCH.
  fine_unfailed : (subject : Text) (a : MeshAt) → IsFine subject a → has_failed (pc_at a) ≡ false
  fine_unfailed subject at_check h = refl
  fine_unfailed subject (at_patch body) h = refl
  fine_unfailed subject (at_delete e) h = absurd h
  fine_unfailed subject (mesh_returned (done true)) h = refl
  fine_unfailed subject (mesh_returned (done false)) h = refl
  fine_unfailed subject (mesh_returned (failed (not_spiffe_id id))) h = refl
  fine_unfailed subject (mesh_returned (failed marshal_failed)) h = absurd h
  fine_unfailed subject (mesh_returned (failed (patch_failed ns name e))) h = absurd h

  -- A call stands in front of the PATCH of a principal.
  abbrev pub IsPatching : Text → Text → MeshAt → Type 0
  IsPatching subject p a =
      (body : Text) × (a ≡ at_patch body)
      × (marshal (add_principal (principal_of subject) ∷ []) ≡ some body)
      × (principal_of subject ≡ p)

  fine-IsPatching :
      (subject p : Text) (a : MeshAt)
      → IsFine subject a
      → busy (pc_at a) ≡ true
      → principal_of subject ≡ p
      → IsPatching subject p a
  fine-IsPatching subject p at_check h b e = cc
  fine-IsPatching subject p (at_patch body) h b e = (body, refl, h, e)
  fine-IsPatching subject p (at_delete x) h b e = absurd h
  fine-IsPatching subject p (mesh_returned (done true)) h b e = cc
  fine-IsPatching subject p (mesh_returned (done false)) h b e = cc
  fine-IsPatching subject p (mesh_returned (failed (not_spiffe_id id))) h b e = cc
  fine-IsPatching subject p (mesh_returned (failed marshal_failed)) h b e = absurd h
  fine-IsPatching subject p (mesh_returned (failed (patch_failed ns name x))) h b e = absurd h

  answered_pc : (b : Bool) → has_answered (pc_at (mesh_returned (done b))) ≡ true
  answered_pc true = refl
  answered_pc false = refl

  -- When a call has returned without an error, its principal is in the policy, or another call is in
  -- front of the PATCH that adds it.
  pub covered_now :
      (laws : PolicyLaws d.policy_api) (subject : ℕ → Text) (es : List Sched)
      (s : d.policy_api.Store) (i : ℕ) (b : Bool)
      → (run d subject es (at_start d s)).at i ≡ mesh_returned (done b)
      → (contains
            (in_policy d laws (run d subject es (at_start d s)).policies)
            (principal_of (subject i))
          ≡ true)
        ⊎ ((j : ℕ) × IsPatching
              (subject j)
              (principal_of (subject i))
              ((run d subject es (at_start d s)).at j))
  covered_now laws subject es s i b answered =
      let (a, now) =
        run-refines d laws true (any_refusals d laws) (in_policy d laws s) subject es s
          (All-Allowed es) refl in
      let c = run d subject es (at_start d s) in
      let fine = IsFine-after d accepting subject es s in
      elim (answered_covered (calls_for d subject) true (seen d c a) i now.reached
        (λ j. fine_unfailed (subject j) (c.at j) (fine j)) (rw answered (answered_pc b))) [
          | inl there ↦ inl (
              rw now.grown
                (contains-append_right (in_policy d laws s) a (principal_of (subject i)) there))
          | inr (j, same, busy_j) ↦ inr (
            j,
            fine-IsPatching (subject j) (principal_of (subject i)) (c.at j) (fine j) busy_j same,
          )
        ]
