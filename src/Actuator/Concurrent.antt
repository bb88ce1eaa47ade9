-- ===== src/Actuator/Concurrent.antt =====
-- cmd/actuator/mesh.go: calls of revokeInMesh that run at once over one dedupe set and one API
-- server, in the atomic steps of the goroutines that net/http starts, and the reset handler's Delete.
pub mod View
pub mod Refines
pub mod Burst
pub mod Returns
pub mod Settles
pub mod Covered
use ebpf_ssf_broker.Base.{ℕ, suc, ◌≡◌, Bool, true, List, [], ◌∷◌, ◌==◌, if◌then◌else◌, Text}
use ebpf_ssf_broker.Actuator.Dedupe.{Revoked, delete}
use ebpf_ssf_broker.Actuator.Events.{Deps}
use ebpf_ssf_broker.Actuator.Goroutines.{mesh_step_at, MeshAt, at_check, MeshThread}
use ebpf_ssf_broker.Actuator.Race.{update}

-- What runs next: a call's next atomic step, or the Delete of a reset.
pub data Sched : Type 0 where
  turn : ℕ → Sched
  forget : Text → Sched

module _ (d : Deps) where
  -- The process's dedupe set, the API server's policies, and where each call stands.
  pub record Cluster : Type 0 where
    pub revoked : Revoked
    pub policies : d.policy_api.Store
    pub at : ℕ → MeshAt

module _ (d : Deps) (subject : ℕ → Text) where
  abbrev pub take_turn : ℕ → Cluster d → MeshThread d → Cluster d
  take_turn i c t = record { revoked = t.revoked; policies = t.policies; at = update c.at i t.at }

  unfoldable pub run_one : Sched → Cluster d → Cluster d
  run_one (turn i) c = take_turn i c (mesh_step_at d (subject i) (c.at i) c.revoked c.policies)
  run_one (forget key) c = record c { revoked = delete c.revoked key }

  unfoldable pub run : List Sched → Cluster d → Cluster d
  unfolding run_one
  run [] c = c
  run (e ∷ es) c = run es (run_one e c)

module _ (d : Deps) where
  -- A process that has just started, in front of an API server.
  abbrev pub at_start : d.policy_api.Store → Cluster d
  at_start s = record { revoked = []; policies = s; at = λ i. at_check }

-- The turns of a call in a schedule.
abbrev pub turns_of : ℕ → List Sched → ℕ
turns_of i [] = 0
turns_of i (turn j ∷ es) = if i == j then suc (turns_of i es) else turns_of i es
turns_of i (forget key ∷ es) = turns_of i es

-- The event is no reset, or resets are allowed.
abbrev pub Allowed : Bool → Sched → Type 0
Allowed faulty (turn i) = Unit
Allowed faulty (forget key) = faulty ≡ true
