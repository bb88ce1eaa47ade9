-- ===== src/Actuator/Concurrent/View.antt =====
-- cmd/actuator/mesh.go: where concurrent calls of revokeInMesh stand among the steps of Race, and what
-- an error of the PATCH means.
use std.Path.{fun_ext}
use ebpf_ssf_broker.Base.{
  ℕ, ◌≡◌, refl, sym, ◌≢◌, ◌⊎◌, inl, inr, Bool, true, false, none, some, List, [], ◌∷◌, ◌++◌, ◌==◌,
  ==_iff, Bool-cases, All, Text,
}
use ebpf_ssf_broker.Actuator.Events.{Deps}
use ebpf_ssf_broker.Actuator.Goroutines.{
  principal, MeshAt, at_check, at_patch, at_delete, mesh_returned,
}
use ebpf_ssf_broker.Actuator.Race.{
  update, Pc, entry, patching, failing, patched, duplicate, gave_up, System,
}
use ebpf_ssf_broker.Actuator.Concurrent.{turn, forget, Allowed, Sched, Cluster}
use ebpf_ssf_broker.Actuator.Mesh.{
  add_principal, not_spiffe_id, marshal_failed, patch_failed, done, failed,
}
use ebpf_ssf_broker.Actuator.Mesh.Laws.{PolicyLaws}
use ebpf_ssf_broker.Go.Json.{marshal}

-- The place of Race at which a call stands. A call for a subject that is no SPIFFE ID never enters.
abbrev pub pc_at : MeshAt → Pc
pc_at at_check = entry
pc_at (at_patch body) = patching
pc_at (at_delete e) = failing
pc_at (mesh_returned (done true)) = patched
pc_at (mesh_returned (done false)) = duplicate
pc_at (mesh_returned (failed (not_spiffe_id id))) = entry
pc_at (mesh_returned (failed marshal_failed)) = gave_up
pc_at (mesh_returned (failed (patch_failed ns name e))) = gave_up

-- A call holds the body for its own principal, and an error of marshal or of the PATCH.
abbrev pub IsWellAt : Text → MeshAt → Type 0
IsWellAt p at_check = Unit
IsWellAt p (at_patch body) = marshal (add_principal p ∷ []) ≡ some body
IsWellAt p (at_delete e) = pc_at (mesh_returned (failed e)) ≡ gave_up
IsWellAt p (mesh_returned o) = Unit

pub pc_at-update :
    (f : ℕ → MeshAt) (i : ℕ) (a : MeshAt)
    → (λ j. pc_at (update f i a j)) ≡ update (λ j. pc_at (f j)) i (pc_at a)
pc_at-update f i a = fun_ext (λ j. at j)
  where
    at : (j : ℕ) → pc_at (update f i a j) ≡ update (λ k. pc_at (f k)) i (pc_at a) j
    at j = elim (Bool-cases (j == i)) [ inl same ↦ rw same refl | inr other ↦ rw other refl ]

pub update_same :
    (f : ℕ → MeshAt) (i : ℕ) (c : Pc)
    → pc_at (f i) ≡ c
    → update (λ j. pc_at (f j)) i c ≡ (λ j. pc_at (f j))
update_same f i c e = fun_ext (λ j. at j)
  where
    at : (j : ℕ) → update (λ k. pc_at (f k)) i c j ≡ pc_at (f j)
    at j = elim (Bool-cases (j == i)) [
      | inl same ↦ rw same (rw ((==_iff j i).0 same) (sym e))
      | inr other ↦ rw other refl
    ]

-- The system of Race that a cluster stands for.
module _ (d : Deps) where
  abbrev pub seen : Cluster d → List Text → System
  seen c a = record {
    shared = record { revoked = c.revoked; appended = a };
    pc = λ j. pc_at (c.at j);
  }

module _ (d : Deps) (subject : ℕ → Text) where
  -- The calls of Race, by the principals that they are for.
  abbrev pub calls_for : ℕ → Text
  calls_for j = principal d (subject j)

-- What an error of the PATCH means. Unless answers get lost, it had no effect.
abbrev pub Refusals : (d : Deps) → PolicyLaws d.policy_api → Bool → Type 0
Refusals d laws faulty =
    (s : d.policy_api.Store) (principal body : Text)
    → marshal (add_principal principal ∷ []) ≡ some body
    → (d.policy_api.patch s d.namespace d.policy_name body).1 ≢ none
    → (laws.principals (d.policy_api.patch s d.namespace d.policy_name body).0 d.namespace
          d.policy_name
        ≡ laws.principals s d.namespace d.policy_name)
      ⊎ ((faulty ≡ true)
          × (laws.principals (d.policy_api.patch s d.namespace d.policy_name body).0 d.namespace
                d.policy_name
              ≡ laws.principals s d.namespace d.policy_name ++ principal ∷ []))

pub All-Allowed : (es : List Sched) → All (Allowed true) es
All-Allowed [] = tt
All-Allowed (turn i ∷ es) = (tt, All-Allowed es)
All-Allowed (forget key ∷ es) = (refl, All-Allowed es)

pub any_refusals : (d : Deps) (laws : PolicyLaws d.policy_api) → Refusals d laws true
any_refusals d laws s p body w bad = elim (laws.refuses s d.namespace d.policy_name p body w bad) [
  | inl same ↦ inl same
  | inr added ↦ inr (refl, added)
]
