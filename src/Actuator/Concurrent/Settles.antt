-- ===== src/Actuator/Concurrent/Settles.antt =====
-- cmd/actuator/mesh.go: a burst of events in front of an API server that accepts every PATCH.
use ebpf_ssf_broker.Base.{
  ℕ, ◌≤◌, ◌≡◌, refl, sym, ap, ◌∙◌, subst, ◌⊎◌, inl, inr, Bool, true, false, ◌||◌, Option, none,
  some, List, [], ◌∷◌, ◌++◌, arith, ◌==◌, ==_iff, Bool-cases, All, Text, text_eq, is_empty,
  contains,
}
use ebpf_ssf_broker.Actuator.Concurrent.Burst.{is_over, in_policy, burst_adds_once, burst_denies}
use ebpf_ssf_broker.Actuator.Concurrent.Returns.{turns_of-cons, three_turns_return}
use ebpf_ssf_broker.Actuator.Race.Invariant.{NoDup}
use ebpf_ssf_broker.Actuator.Dedupe.{Revoked, load_or_store}
use ebpf_ssf_broker.Actuator.Events.{Deps}
use ebpf_ssf_broker.Actuator.Goroutines.{
  after_patch, mesh_step_at, MeshAt, at_check, at_patch, at_delete, mesh_returned,
}
use ebpf_ssf_broker.Actuator.Mesh.{
  add_principal, not_spiffe_id, marshal_failed, patch_failed, Outcome, done, failed,
}
use ebpf_ssf_broker.Actuator.Mesh.Laws.{principal_of, marshal-add, IsSpiffe, PolicyLaws}
use ebpf_ssf_broker.Go.Json.{marshal}
use ebpf_ssf_broker.Actuator.Concurrent.{
  turn, forget, run_one, run, at_start, turns_of, Allowed, Sched, Cluster,
}

-- The call is on its way without an error, or has returned an error for a subject that is no SPIFFE
-- ID.
abbrev pub IsFine : Text → MeshAt → Type 0
IsFine subject at_check = Unit
IsFine subject (at_patch body) = marshal (add_principal (principal_of subject) ∷ []) ≡ some body
IsFine subject (at_delete e) = ⊥
IsFine subject (mesh_returned (done b)) = Unit
IsFine subject (mesh_returned (failed (not_spiffe_id id))) =
    text_eq (principal_of subject) subject || is_empty (principal_of subject) ≡ true
IsFine subject (mesh_returned (failed marshal_failed)) = ⊥
IsFine subject (mesh_returned (failed (patch_failed ns name e))) = ⊥

-- The API server accepts every PATCH that adds a principal.
abbrev pub AcceptsAll : Deps → Type 0
AcceptsAll d =
    (s : d.policy_api.Store) (principal body : Text)
    → marshal (add_principal principal ∷ []) ≡ some body
    → (d.policy_api.patch s d.namespace d.policy_name body).1 ≡ none

module _ (d : Deps) (accepting : AcceptsAll d) where
  module _ (subject : Text) (m : Revoked) (s : d.policy_api.Store) where
    IsFine-check : IsFine subject (mesh_step_at d subject at_check m s).at
    unfolding mesh_step_at load_or_store
    IsFine-check =
        elim (Bool-cases
          (text_eq (principal_of subject) subject || is_empty (principal_of subject))) [
            | inl other ↦ rw other other
            | inr good ↦ elim (Bool-cases (contains m (principal_of subject))) [
              | inl known ↦ rw (good, known) tt
              | inr new ↦
                  let (body, written) = marshal-add (principal_of subject) in
                  rw (good, new, written) written
            ]
          ]

    IsFine-patched :
        (o : d.policy_api.Store × Option Text)
        → o.1 ≡ none
        → IsFine subject (after_patch d subject m o).at
    unfolding after_patch
    IsFine-patched (t, none) h = tt
    IsFine-patched (t, some e) h = absurd (cc)

    IsFine-step : (a : MeshAt) → IsFine subject a → IsFine subject (mesh_step_at d subject a m s).at
    IsFine-step at_check h = IsFine-check
    IsFine-step (at_patch body) h =
        unfold mesh_step_at in
        IsFine-patched (d.policy_api.patch s d.namespace d.policy_name body)
          (accepting s (principal_of subject) body h)
    IsFine-step (at_delete e) h = absurd h
    IsFine-step (mesh_returned o) h = unfold mesh_step_at in h

  -- A call that is fine and has no turns left to take is over.
  fine_over :
      (subject : Text) (o : Outcome)
      → IsFine subject (mesh_returned o)
      → is_over (mesh_returned o) ≡ true
  fine_over subject (done b) h = refl
  fine_over subject (failed (not_spiffe_id id)) h = refl
  fine_over subject (failed marshal_failed) h = absurd h
  fine_over subject (failed (patch_failed ns name e)) h = absurd h

  pub fine_answered :
      (subject : Text) (o : Outcome)
      → IsSpiffe subject
      → IsFine subject (mesh_returned o)
      → (b : Bool) × (o ≡ done b)
  fine_answered subject (done b) v h = (b, refl)
  fine_answered subject (failed (not_spiffe_id id)) v h =
      let (other, filled) = v in absurd (ground arith)
  fine_answered subject (failed marshal_failed) v h = absurd h
  fine_answered subject (failed (patch_failed ns name e)) v h = absurd h

  module _ (subject : ℕ → Text) where
    IsFine-run_one :
        (e : Sched) (c : Cluster d)
        → ((j : ℕ) → IsFine (subject j) (c.at j))
        → (j : ℕ) → IsFine (subject j) ((run_one d subject e c).at j)
    unfolding run_one
    IsFine-run_one (forget key) c h j = h j
    IsFine-run_one (turn i) c h j = elim (Bool-cases (j == i)) [
      | inl same ↦ rw same (
          subst
            (λ k. IsFine (subject k) (mesh_step_at d (subject i) (c.at i) c.revoked c.policies).at)
            (sym ((==_iff j i).0 same))
            (IsFine-step (subject i) c.revoked c.policies (c.at i) (h i)))
      | inr other ↦ rw other (h j)
    ]

    IsFine-run :
        (es : List Sched) (c : Cluster d)
        → ((j : ℕ) → IsFine (subject j) (c.at j))
        → (j : ℕ) → IsFine (subject j) ((run d subject es c).at j)
    unfolding run
    IsFine-run [] c h = h
    IsFine-run (e ∷ es) c h = IsFine-run es (run_one d subject e c) (IsFine-run_one e c h)

    -- A call without a turn stands where it stood.
    at-run_one :
        (e : Sched) (c : Cluster d) (i : ℕ)
        → turns_of i (e ∷ []) ≡ 0
        → (run_one d subject e c).at i ≡ c.at i
    unfolding run_one
    at-run_one (forget key) c i h = refl
    at-run_one (turn j) c i h = let other : (i == j) ≡ false = ground arith in rw other refl

    at-run :
        (es : List Sched) (c : Cluster d) (i : ℕ)
        → turns_of i es ≡ 0
        → (run d subject es c).at i ≡ c.at i
    unfolding run
    at-run [] c i h = refl
    at-run (e ∷ es) c i h =
        let split = turns_of-cons d subject i e es in
        at-run es (run_one d subject e c) i (omega (arith, split))
        ∙ at-run_one e c i (omega (arith, split))

    module _ (es : List Sched) (s : d.policy_api.Store) where
      abbrev after : Cluster d
      after = run d subject es (at_start d s)

      pub IsFine-after : (j : ℕ) → IsFine (subject j) (after.at j)
      IsFine-after = IsFine-run es (at_start d s) (λ j. tt)

      returned_over : (j : ℕ) → 3 ≤ turns_of j es → is_over (after.at j) ≡ true
      returned_over j h =
          let (o, e) = three_turns_return d subject j es (at_start d s) h in
          rw e (fine_over (subject j) o (rw e at (IsFine-after j)))

      all_over :
          ((j : ℕ) → (turns_of j es ≡ 0) ⊎ (3 ≤ turns_of j es))
          → (j : ℕ) → is_over (after.at j) ≡ true
      all_over turns j = elim (turns j) [
        | inl none_yet ↦ rw (at-run es (at_start d s) j none_yet) refl
        | inr enough ↦ returned_over j enough
      ]

  -- Calls of revokeInMesh at once, in every schedule in which each call that begins gets three turns
  -- or more, in front of an API server that accepts every PATCH: at the end the policy names the
  -- principal of each of them whose subject is a SPIFFE ID, and what was added has no duplicates.
  -- Nobody resets meanwhile.
  pub burst_revokes :
      (laws : PolicyLaws d.policy_api) (subject : ℕ → Text) (es : List Sched)
      (s : d.policy_api.Store) (i : ℕ)
      → All (Allowed false) es
      → ((j : ℕ) → (turns_of j es ≡ 0) ⊎ (3 ≤ turns_of j es))
      → 3 ≤ turns_of i es
      → IsSpiffe (subject i)
      → (contains
            (in_policy d laws (run d subject es (at_start d s)).policies)
            (principal_of (subject i))
          ≡ true)
        × ((a : List Text) × (in_policy d laws (run d subject es (at_start d s)).policies
              ≡ in_policy d laws s ++ a)
            × NoDup a)
  burst_revokes laws subject es s i calm turns begun valid =
      let (o, e) = three_turns_return d subject i es (at_start d s) begun in
      let fine = IsFine-after subject es s i in
      let (b, answered) = fine_answered (subject i) o valid (rw e at fine) in
      (
        burst_denies d laws subject es s i b (all_over subject es s turns)
            (e ∙ ap mesh_returned answered),
        burst_adds_once d laws subject es s (λ t p body w bad. absurd (bad (accepting t p body w)))
            calm,
      )
