-- ===== src/Actuator/Concurrent/Refines.antt =====
-- cmd/actuator/mesh.go: concurrent calls of revokeInMesh against the steps of Race.
use ebpf_ssf_broker.Base.{
  ℕ, ◌≡◌, refl, sym, ap, ◌∙◌, subst, ◌≢◌, ◌⊎◌, inl, inr, Bool, true, ◌||◌, Option, none, some, List,
  [], ◌∷◌, ◌++◌, append-nil, append_assoc, ◌==◌, ==_iff, Bool-cases, All, Text, text_eq, is_empty,
  contains,
}
use ebpf_ssf_broker.Actuator.Concurrent.View.{
  pc_at, IsWellAt, pc_at-update, update_same, seen, calls_for, Refusals,
}
use ebpf_ssf_broker.Actuator.Dedupe.{Revoked}
use ebpf_ssf_broker.Actuator.Events.{Deps}
use ebpf_ssf_broker.Actuator.Goroutines.{
  principal, after_patch, mesh_step_at, MeshAt, at_check, at_patch, at_delete, mesh_returned,
  MeshThread,
}
use ebpf_ssf_broker.Actuator.Race.{
  update, Pc, entry, patching, failing, gave_up, Move, stored, held, accepted, rejected, lost,
  dropped, act, reset, Reach, begin, next,
}
use ebpf_ssf_broker.Actuator.Concurrent.{
  turn, forget, take_turn, run_one, run, at_start, Allowed, Sched, Cluster,
}
use ebpf_ssf_broker.Actuator.Mesh.{MeshError, failed}
use ebpf_ssf_broker.Actuator.Mesh.Laws.{marshal-add, PolicyLaws}
use ebpf_ssf_broker.Actuator.Race.Alone.{load_or_store_new, load_or_store_held}

module _ (d : Deps) (laws : PolicyLaws d.policy_api) (faulty : Bool)
    (refusals : Refusals d laws faulty) (seed : List Text) where
  abbrev pub policy : d.policy_api.Store → List Text
  policy s = laws.principals s d.namespace d.policy_name

  -- One step of a call is a move of Race, or none.
  data IsMoved (p : Text) (m : Revoked) (a : List Text) (c : Pc) : MeshThread d → Type 0 where
    stays :
        {t : MeshThread d}
        → policy t.policies ≡ seed ++ a
        → IsWellAt p t.at
        → t.revoked ≡ m
        → pc_at t.at ≡ c
        → IsMoved p m a c t
    moves :
        {t : MeshThread d} (a' : List Text)
        → policy t.policies ≡ seed ++ a'
        → IsWellAt p t.at
        → Move faulty p
            (record { revoked = m; appended = a })
            c
            (record { revoked = t.revoked; appended = a' })
            (pc_at t.at)
        → IsMoved p m a c t

  module _ (subject : Text) (m : Revoked) (s : d.policy_api.Store) (a : List Text)
      (split_policy : policy s ≡ seed ++ a) where
    abbrev p : Text
    p = principal d subject

    grown :
        (t : d.policy_api.Store) → policy t ≡ policy s ++ p ∷ [] → policy t ≡ seed ++ (a ++ p ∷ [])
    grown t e = e ∙ ap (λ l. l ++ p ∷ []) split_policy ∙ append_assoc seed a (p ∷ [])

    IsMoved-check : IsMoved p m a entry (mesh_step_at d subject at_check m s)
    unfolding mesh_step_at
    IsMoved-check = elim (Bool-cases (text_eq p subject || is_empty p)) [
      | inl other ↦ rw other (stays split_policy tt refl refl)
      | inr good ↦ elim (Bool-cases (contains m p)) [
        | inl known ↦
            rw (good, load_or_store_held m p known)
              (moves a split_policy tt (held (load_or_store_held m p known)))
        | inr new ↦
            let (body, written) = marshal-add p in
            rw (good, load_or_store_new m p new, written)
              (moves a split_policy written (stored (load_or_store_new m p new)))
      ]
    ]

    IsMoved-patch :
        (body : Text) (o : d.policy_api.Store × Option Text)
        → (o.1 ≡ none → policy o.0 ≡ policy s ++ p ∷ [])
        → (o.1 ≢ none
            → (policy o.0 ≡ policy s) ⊎ ((faulty ≡ true) × (policy o.0 ≡ policy s ++ p ∷ [])))
        → IsMoved p m a patching (after_patch d subject m o)
    unfolding after_patch
    IsMoved-patch body (t, none) ok bad = moves (a ++ p ∷ []) (grown t (ok refl)) tt accepted
    IsMoved-patch body (t, some e) ok bad = elim (bad (λ h. cc)) [
      | inl same ↦ moves a (same ∙ split_policy) refl rejected
      | inr (f, added) ↦ moves (a ++ p ∷ []) (grown t added) refl (lost f)
    ]

    IsMoved-delete :
        (e : MeshError)
        → pc_at (mesh_returned (failed e)) ≡ gave_up
        → IsMoved p m a failing (mesh_step_at d subject (at_delete e) m s)
    unfolding mesh_step_at
    IsMoved-delete e given = moves a split_policy tt (rw given dropped)

    mesh_step_moves :
        (at : MeshAt) → IsWellAt p at → IsMoved p m a (pc_at at) (mesh_step_at d subject at m s)
    mesh_step_moves at_check w = IsMoved-check
    mesh_step_moves (at_patch body) w =
        unfold mesh_step_at in
        IsMoved-patch body (d.policy_api.patch s d.namespace d.policy_name body)
          (λ ok. laws.accepts s d.namespace d.policy_name p body w ok)
          (λ bad. refusals s p body w bad)
    mesh_step_moves (at_delete e) w = IsMoved-delete e w
    mesh_step_moves (mesh_returned o) w = unfold mesh_step_at in stays split_policy tt refl refl

  module _ (subject : ℕ → Text) where
    -- The cluster is a reachable system of Race, with what the policy has on top of the seed.
    pub record IsSeen (c : Cluster d) (a : List Text) : Type 0 where
      pub reached : Reach (calls_for d subject) faulty (seen d c a)
      pub grown : policy c.policies ≡ seed ++ a
      pub well : (j : ℕ) → IsWellAt (calls_for d subject j) (c.at j)

    module _ (c : Cluster d) (a : List Text) (now : IsSeen c a) (i : ℕ) where
      well_after :
          (x : MeshAt)
          → IsWellAt (calls_for d subject i) x
          → (j : ℕ) → IsWellAt (calls_for d subject j) (update c.at i x j)
      well_after x w j = elim (Bool-cases (j == i)) [
        | inl same ↦
            rw same (subst (λ k. IsWellAt (calls_for d subject k) x) (sym ((==_iff j i).0 same)) w)
        | inr other ↦ rw other (now.well j)
      ]

      IsSeen-moved :
          (t : MeshThread d)
          → IsMoved (calls_for d subject i) c.revoked a (pc_at (c.at i)) t
          → (a' : List Text) × IsSeen (take_turn d subject i c t) a'
      IsSeen-moved t (stays policy_after w kept same) = (
        a,
        record {
          reached =
              rw (kept, pc_at-update c.at i t.at, update_same c.at i (pc_at t.at) (sym same))
                now.reached;
          grown = policy_after;
          well = well_after t.at w;
        },
      )
      IsSeen-moved t (moves a' policy_after w mv) = (
        a',
        record {
          reached = rw (pc_at-update c.at i t.at) (next now.reached (act i refl mv));
          grown = policy_after;
          well = well_after t.at w;
        },
      )

    IsSeen-one :
        (e : Sched) (c : Cluster d) (a : List Text)
        → Allowed faulty e
        → IsSeen c a
        → (a' : List Text) × IsSeen (run_one d subject e c) a'
    unfolding run_one
    IsSeen-one (turn i) c a ok now =
        IsSeen-moved c a now i (mesh_step_at d (subject i) (c.at i) c.revoked c.policies)
          (mesh_step_moves (subject i) c.revoked c.policies a now.grown (c.at i) (now.well i))
    IsSeen-one (forget key) c a ok now = (
      a,
      record { reached = next now.reached (reset key ok); grown = now.grown; well = now.well },
    )

    IsSeen-run :
        (es : List Sched) (c : Cluster d) (a : List Text)
        → All (Allowed faulty) es
        → IsSeen c a
        → (a' : List Text) × IsSeen (run d subject es c) a'
    unfolding run
    IsSeen-run [] c a ok now = (a, now)
    IsSeen-run (e ∷ es) c a ok now =
        let (a', after) = IsSeen-one e c a ok.0 now in
        IsSeen-run es (run_one d subject e c) a' ok.1 after

    -- Whatever calls of revokeInMesh run at once, and however their atomic steps and the resets
    -- interleave, the process and the API server are in a state that the steps of Race reach, and
    -- the policy is the one at the start with what these steps append behind it. Faults are allowed
    -- among the steps where a PATCH answered by an error may have had its effect, or resets happen.
    pub run-refines :
        (es : List Sched) (s : d.policy_api.Store)
        → All (Allowed faulty) es
        → policy s ≡ seed
        → (a : List Text) × IsSeen (run d subject es (at_start d s)) a
    run-refines es s ok given =
        IsSeen-run es (at_start d s) [] ok
          (record { reached = begin; grown = given ∙ sym (append-nil seed); well = λ j. tt })
