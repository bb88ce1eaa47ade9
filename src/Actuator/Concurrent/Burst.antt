-- ===== src/Actuator/Concurrent/Burst.antt =====
-- cmd/actuator/mesh.go: a burst of events, whose calls of revokeInMesh overlap.
use ebpf_ssf_broker.Base.{
  ℕ, ◌≡◌, refl, inl, inr, Bool, true, false, List, [], ◌∷◌, ◌++◌, arith, All, Text, contains,
  contains-cons,
}
use ebpf_ssf_broker.Actuator.Concurrent.View.{
  pc_at, seen, calls_for, Refusals, All-Allowed, any_refusals,
}
use ebpf_ssf_broker.Actuator.Events.{Deps}
use ebpf_ssf_broker.Actuator.Goroutines.{MeshAt, at_check, at_patch, at_delete, mesh_returned}
use ebpf_ssf_broker.Actuator.Concurrent.{run, at_start, Allowed, Sched}
use ebpf_ssf_broker.Actuator.Concurrent.Refines.{run-refines}
use ebpf_ssf_broker.Actuator.Mesh.{not_spiffe_id, marshal_failed, patch_failed, done, failed}
use ebpf_ssf_broker.Actuator.Race.{busy}
use ebpf_ssf_broker.Actuator.Race.Acknowledged.{has_answered, has_failed, answered_covered}
use ebpf_ssf_broker.Actuator.Race.Once.{appended_once}
use ebpf_ssf_broker.Actuator.Race.Invariant.{NoDup}
use ebpf_ssf_broker.Actuator.Mesh.Laws.{principal_of, PolicyLaws}

-- The call has not begun, or returned without having failed at the API server.
abbrev pub is_over : MeshAt → Bool
is_over at_check = true
is_over (at_patch body) = false
is_over (at_delete e) = false
is_over (mesh_returned (done b)) = true
is_over (mesh_returned (failed (not_spiffe_id id))) = true
is_over (mesh_returned (failed marshal_failed)) = false
is_over (mesh_returned (failed (patch_failed ns name e))) = false

over_quiet :
    (a : MeshAt) → is_over a ≡ true → (has_failed (pc_at a) ≡ false) × (busy (pc_at a) ≡ false)
over_quiet at_check h = (refl, refl)
over_quiet (at_patch body) h = cc
over_quiet (at_delete e) h = cc
over_quiet (mesh_returned (done true)) h = (refl, refl)
over_quiet (mesh_returned (done false)) h = (refl, refl)
over_quiet (mesh_returned (failed (not_spiffe_id id))) h = (refl, refl)
over_quiet (mesh_returned (failed marshal_failed)) h = cc
over_quiet (mesh_returned (failed (patch_failed ns name e))) h = cc

answered_done : (b : Bool) → has_answered (pc_at (mesh_returned (done b))) ≡ true
answered_done true = refl
answered_done false = refl

pub contains-append_right :
    (seed a : List Text) (p : Text) → contains a p ≡ true → contains (seed ++ a) p ≡ true
contains-append_right [] a p h = h
contains-append_right (q ∷ seed) a p h =
    let rest = contains-append_right seed a p h in ground (arith, contains-cons (seed ++ a) q p)

-- The principals of the policy.
module _ (d : Deps) (laws : PolicyLaws d.policy_api) where
  abbrev pub in_policy : d.policy_api.Store → List Text
  in_policy t = laws.principals t d.namespace d.policy_name

module _ (d : Deps) (laws : PolicyLaws d.policy_api) (subject : ℕ → Text) (es : List Sched)
    (s : d.policy_api.Store) where
  -- Calls of revokeInMesh for whatever subjects, at once and in every schedule without a reset, in
  -- front of an API server whose errors have no effect: what they add to the policy's principals
  -- has no duplicates, whether they have all returned or not.
  pub burst_adds_once :
      Refusals d laws false
      → All (Allowed false) es
      → (a : List Text) × (in_policy d laws (run d subject es (at_start d s)).policies
          ≡ in_policy d laws s ++ a)
        × NoDup a
  burst_adds_once honest calm =
      let (a, now) = run-refines d laws false honest (in_policy d laws s) subject es s calm refl in
      (
        a,
        now.grown,
        appended_once (calls_for d subject) (seen d (run d subject es (at_start d s)) a)
            now.reached,
      )

  -- When, in a schedule of calls and resets, every call that has begun has returned, none with an
  -- error but for a subject that is no SPIFFE ID, the policy names the principal of each call that
  -- answered without an error, a duplicate too.
  pub burst_denies :
      (i : ℕ) (b : Bool)
      → ((j : ℕ) → is_over ((run d subject es (at_start d s)).at j) ≡ true)
      → (run d subject es (at_start d s)).at i ≡ mesh_returned (done b)
      → contains
          (in_policy d laws (run d subject es (at_start d s)).policies)
          (principal_of (subject i))
        ≡ true
  burst_denies i b over answered =
      let (a, now) =
        run-refines d laws true (any_refusals d laws) (in_policy d laws s) subject es s
          (All-Allowed es) refl in
      let c = run d subject es (at_start d s) in
      let covered =
        answered_covered (calls_for d subject) true (seen d c a) i now.reached
          (λ j. (over_quiet (c.at j) (over j)).0) (rw answered (answered_done b)) in
      elim covered [
        | inl there ↦
            rw now.grown
              (contains-append_right (in_policy d laws s) a (principal_of (subject i)) there)
        | inr (j, _, busy_j) ↦ let q = (over_quiet (c.at j) (over j)).1 in cc
      ]
