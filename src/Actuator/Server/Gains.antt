-- ===== src/Actuator/Server/Gains.antt =====
-- cmd/actuator/mesh.go: how a step of a call of revokeInMesh changes the policy.
use ebpf_ssf_broker.Base.{
  ℕ, ◌+◌, ◌≡◌, refl, ◌≢◌, inl, inr, true, false, ◌||◌, Option, none, some, [], ◌∷◌, ◌++◌, arith,
  Bool-cases, length, length-append, Text, text_eq, is_empty, contains,
}
use ebpf_ssf_broker.Go.Json.{marshal}
use ebpf_ssf_broker.Actuator.Dedupe.{Revoked, load_or_store}
use ebpf_ssf_broker.Actuator.Mesh.{add_principal, done, failed}
use ebpf_ssf_broker.Actuator.Mesh.Laws.{principal_of, marshal-add, PolicyLaws}
use ebpf_ssf_broker.Actuator.Events.{result_revoked, Deps}
use ebpf_ssf_broker.Actuator.Spans.{known}
use ebpf_ssf_broker.Actuator.Spans.Counts.{incs}
use ebpf_ssf_broker.Actuator.Goroutines.{
  after_patch, mesh_step_at, MeshAt, at_check, at_patch, at_delete, mesh_returned, MeshThread,
}
use ebpf_ssf_broker.Actuator.Server.{arriving, waiting, reporting, answered, RequestAt}
use ebpf_ssf_broker.Actuator.Concurrent.View.{Refusals}

-- The revocations that a request has made and not counted yet.
abbrev pub uncounted_call : MeshAt → ℕ
uncounted_call at_check = 0
uncounted_call (at_patch body) = 0
uncounted_call (at_delete e) = 0
uncounted_call (mesh_returned (done true)) = 1
uncounted_call (mesh_returned (done false)) = 0
uncounted_call (mesh_returned (failed e)) = 0

abbrev pub uncounted : RequestAt → ℕ
uncounted arriving = 0
uncounted (waiting claims a b) = uncounted_call a
uncounted (reporting calls response) = incs result_revoked calls
uncounted (answered response) = 0

-- A PATCH in flight is for the principal of the SET.
abbrev pub HasBody : Text → MeshAt → Type 0
HasBody p at_check = Unit
HasBody p (at_patch body) = marshal (add_principal p ∷ []) ≡ some body
HasBody p (at_delete e) = Unit
HasBody p (mesh_returned o) = Unit

abbrev pub IsAddressed : RequestAt → Type 0
IsAddressed arriving = Unit
IsAddressed (waiting claims a b) = HasBody (principal_of claims.sub_id.uri) a
IsAddressed (reporting calls response) = Unit
IsAddressed (answered response) = Unit

module _ (d : Deps) (laws : PolicyLaws d.policy_api) where
  -- How many principals the policy names.
  abbrev pub size : d.policy_api.Store → ℕ
  size s = length (laws.principals s d.namespace d.policy_name)

module _ (d : Deps) (laws : PolicyLaws d.policy_api) (honest : Refusals d laws false) where
  module _ (subject : Text) where
    abbrev pub Gains : MeshAt → d.policy_api.Store → MeshThread d → Type 0
    Gains a s t =
        HasBody (principal_of subject) t.at
        × (size d laws t.policies + uncounted_call a ≡ size d laws s + uncounted_call t.at)

    Gains-check :
        (m : Revoked) (s : d.policy_api.Store)
        → Gains at_check s (mesh_step_at d subject at_check m s)
    unfolding mesh_step_at load_or_store
    Gains-check m s =
        elim (Bool-cases
          (text_eq (principal_of subject) subject || is_empty (principal_of subject))) [
            | inl other ↦ rw other (tt, refl)
            | inr good ↦ elim (Bool-cases (contains m (principal_of subject))) [
              | inl known ↦ rw (good, known) (tt, refl)
              | inr new ↦
                  let (body, written) = marshal-add (principal_of subject) in
                  rw (good, new, written) (written, refl)
            ]
          ]

    Gains-patch :
        (m : Revoked) (s : d.policy_api.Store) (body : Text) (o : d.policy_api.Store × Option Text)
        → (o.1 ≡ none
            → laws.principals o.0 d.namespace d.policy_name
              ≡ laws.principals s d.namespace d.policy_name ++ principal_of subject ∷ [])
        → (o.1 ≢ none
            → laws.principals o.0 d.namespace d.policy_name
              ≡ laws.principals s d.namespace d.policy_name)
        → Gains (at_patch body) s (after_patch d subject m o)
    unfolding after_patch
    Gains-patch m s body (t, none) ok bad = (
      tt,
      rw (ok refl) (
          omega (
            arith,
            length-append (laws.principals s d.namespace d.policy_name) (principal_of subject ∷ []),
          )),
    )
    Gains-patch m s body (t, some e) ok bad = (tt, rw (bad (λ h. cc)) refl)

    pub Gains-step :
        (a : MeshAt) (m : Revoked) (s : d.policy_api.Store)
        → HasBody (principal_of subject) a
        → Gains a s (mesh_step_at d subject a m s)
    Gains-step at_check m s w = Gains-check m s
    Gains-step (at_patch body) m s w =
        unfold mesh_step_at in
        Gains-patch m s body (d.policy_api.patch s d.namespace d.policy_name body)
          (λ ok. laws.accepts s d.namespace d.policy_name (principal_of subject) body w ok)
          (λ bad. elim (honest s (principal_of subject) body w bad) [
            | inl same ↦ same
            | inr (no_fault, _) ↦ absurd (cc)
          ])
    Gains-step (at_delete e) m s w = unfold mesh_step_at in (tt, refl)
    Gains-step (mesh_returned o) m s w = unfold mesh_step_at in (tt, refl)
