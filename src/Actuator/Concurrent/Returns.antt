-- ===== src/Actuator/Concurrent/Returns.antt =====
-- cmd/actuator/mesh.go: how many turns a call of revokeInMesh needs among others.
use ebpf_ssf_broker.Base.{
  ℕ, ◌+◌, ◌-◌, ◌≤◌, ◌≡◌, refl, inl, inr, List, [], ◌∷◌, arith, ◌==◌, ==_iff, Bool-cases, Text,
}
use ebpf_ssf_broker.Actuator.Events.{Deps}
use ebpf_ssf_broker.Actuator.Goroutines.{MeshAt, at_check, at_patch, at_delete, mesh_returned}
use ebpf_ssf_broker.Actuator.Concurrent.{turn, forget, run_one, run, turns_of, Sched, Cluster}
use ebpf_ssf_broker.Actuator.Mesh.{Outcome}
use ebpf_ssf_broker.Actuator.Goroutines.MeshSide.{mesh_left, left-mesh_step}

module _ (d : Deps) (subject : ℕ → Text) (i : ℕ) where
  left-run_one :
      (e : Sched) (c : Cluster d)
      → mesh_left ((run_one d subject e c).at i) ≤ mesh_left (c.at i) - turns_of i (e ∷ [])
  unfolding run_one
  left-run_one (turn j) c = elim (Bool-cases (i == j)) [
    | inl same ↦
        let k = (==_iff i j).0 same in
        let least = left-mesh_step d (subject j) (c.at j) c.revoked c.policies in
        rw same (rw k least)
    | inr other ↦ rw other (omega arith)
  ]
  left-run_one (forget key) c = omega arith

  pub turns_of-cons :
      (e : Sched) (es : List Sched) → turns_of i (e ∷ es) ≡ turns_of i (e ∷ []) + turns_of i es
  turns_of-cons (turn j) es = ground arith
  turns_of-cons (forget key) es = omega arith

  left-run :
      (es : List Sched) (c : Cluster d)
      → mesh_left ((run d subject es c).at i) ≤ mesh_left (c.at i) - turns_of i es
  unfolding run
  left-run [] c = omega arith
  left-run (e ∷ es) c =
      let one = left-run_one e c in
      let rest = left-run es (run_one d subject e c) in omega (arith, one, rest, turns_of-cons e es)

none_left : (a : MeshAt) → mesh_left a ≤ 0 → (o : Outcome) × (a ≡ mesh_returned o)
unfolding mesh_left
none_left at_check h = absurd (omega arith)
none_left (at_patch body) h = absurd (omega arith)
none_left (at_delete e) h = absurd (omega arith)
none_left (mesh_returned o) h = (o, refl)

three_at_most : (a : MeshAt) → mesh_left a ≤ 3
unfolding mesh_left
three_at_most at_check = omega arith
three_at_most (at_patch body) = omega arith
three_at_most (at_delete e) = omega arith
three_at_most (mesh_returned o) = omega arith

-- A call of revokeInMesh never waits for another one: once it has had three turns of its own, it
-- has returned, in every schedule of any number of calls and resets, from every state in which
-- these stand, and whatever the API server answers.
pub three_turns_return :
    (d : Deps) (subject : ℕ → Text) (i : ℕ) (es : List Sched) (c : Cluster d)
    → 3 ≤ turns_of i es
    → (o : Outcome) × ((run d subject es c).at i ≡ mesh_returned o)
three_turns_return d subject i es c h =
    none_left ((run d subject es c).at i)
      (omega (arith, left-run d subject i es c, three_at_most (c.at i)))
