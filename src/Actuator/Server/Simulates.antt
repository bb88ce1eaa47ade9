-- ===== src/Actuator/Server/Simulates.antt =====
-- cmd/actuator: the requests of a process at once against the concurrent calls of revokeInMesh that
-- they make.
use ebpf_ssf_broker.Base.{
  ℕ, ◌≡◌, refl, sym, ap, ◌∙◌, subst, inl, inr, Bool, true, List, [], ◌∷◌, ◌++◌, ◌==◌, ==_iff,
  Bool-cases, All, All-append, Text,
}
use ebpf_ssf_broker.Actuator.Race.{update}
use ebpf_ssf_broker.Actuator.Events.{Deps, State}
use ebpf_ssf_broker.Actuator.Goroutines.{mesh_step_at, MeshAt}
use ebpf_ssf_broker.Actuator.Registry.{Client, Registered}
use ebpf_ssf_broker.Actuator.Server.{
  slice, forget, arriving, waiting, reporting, answered, advance, take_slice, just_started,
  serve_slice, serve_slices, Part, handler_side, mesh_side, label_side, Slice, RequestAt, Incoming,
  Stepped, Serving,
}
use ebpf_ssf_broker.Actuator.Concurrent.{run_one, run, at_start, Allowed, Sched, turn, Cluster}
use ebpf_ssf_broker.Actuator.Dedupe.{delete}
use ebpf_ssf_broker.Actuator.Server.Fits.{
  subject_in, subject_in-Carries, Fits, begun, Fits-begun, Fits-wait,
}

module _ (d : Deps) (p : Client) where
  -- A step of a request leaves its call of revokeInMesh where it stands, or is a step of this call.
  data IsFollowed (r : Incoming) (st : State d) (a : MeshAt) (t : Stepped d p) : Type 0 where
    still :
        t.state.revoked ≡ st.revoked
        → t.state.policies ≡ st.policies
        → Fits d r t.at a
        → IsFollowed r st a t
    moved :
        t.state.revoked ≡ (mesh_step_at d (subject_in d r) a st.revoked st.policies).revoked
        → t.state.policies ≡ (mesh_step_at d (subject_in d r) a st.revoked st.policies).policies
        → Fits d r t.at (mesh_step_at d (subject_in d r) a st.revoked st.policies).at
        → IsFollowed r st a t

  module _ (r : Incoming) (st : State d) (ms : Registered p) where
    IsFollowed-advance :
        (part : Part) (at : RequestAt) (a : MeshAt)
        → Fits d r at a
        → IsFollowed r st a (advance d p r part st ms at)
    unfolding advance
    IsFollowed-advance handler_side arriving a f =
        rw f (still refl refl (Fits-begun d r (begun d r)))
    IsFollowed-advance handler_side (waiting claims a' b) a (c, e) =
        rw e (still refl refl (Fits-wait d r st claims a' b c))
    IsFollowed-advance handler_side (reporting [] response) a f = still refl refl f
    IsFollowed-advance handler_side (reporting (m ∷ calls) response) a f = still refl refl f
    IsFollowed-advance handler_side (answered response) a f = still refl refl f
    IsFollowed-advance mesh_side arriving a f = still refl refl f
    IsFollowed-advance mesh_side (waiting claims a' b) a (c, e) =
        let same = subject_in-Carries d r claims c in
        moved (rw (same, e) refl) (rw (same, e) refl) (rw (same, e) (c, refl))
    IsFollowed-advance mesh_side (reporting calls response) a f = still refl refl f
    IsFollowed-advance mesh_side (answered response) a f = still refl refl f
    IsFollowed-advance label_side arriving a f = still refl refl f
    IsFollowed-advance label_side (waiting claims a' b) a f = still refl refl f
    IsFollowed-advance label_side (reporting calls response) a f = still refl refl f
    IsFollowed-advance label_side (answered response) a f = still refl refl f

  -- The slice is no reset, or resets are allowed.
  abbrev pub Permits : Bool → Slice → Type 0
  Permits faulty (slice i part) = Unit
  Permits faulty (forget key) = faulty ≡ true

  pub All-Permits : (es : List Slice) → All (Permits true) es
  All-Permits [] = tt
  All-Permits (slice i part ∷ es) = (tt, All-Permits es)
  All-Permits (forget key ∷ es) = (refl, All-Permits es)

  module _ (incoming : ℕ → Incoming) where
    abbrev pub subjects : ℕ → Text
    subjects i = subject_in d (incoming i)

    -- The process seen as concurrent calls of revokeInMesh.
    pub record Simulates (s : Serving d p) (c : Cluster d) : Type 0 where
      pub revoked : s.state.revoked ≡ c.revoked
      pub policies : s.state.policies ≡ c.policies
      pub fits : (j : ℕ) → Fits d (incoming j) (s.at j) (c.at j)

    Fits-others :
        (s : Serving d p) (c : Cluster d) (i : ℕ) (x : RequestAt) (y : MeshAt)
        → Simulates s c
        → Fits d (incoming i) x y
        → (j : ℕ) → Fits d (incoming j) (update s.at i x j) (update c.at i y j)
    Fits-others s c i x y sim f j = elim (Bool-cases (j == i)) [
      | inl same ↦ rw same (subst (λ k. Fits d (incoming k) x y) (sym ((==_iff j i).0 same)) f)
      | inr other ↦ rw other (sim.fits j)
    ]

    -- The fit of one request, where the others stay.
    Fits-same :
        (s : Serving d p) (c : Cluster d) (i : ℕ) (x : RequestAt)
        → Simulates s c
        → Fits d (incoming i) x (c.at i)
        → (j : ℕ) → Fits d (incoming j) (update s.at i x j) (c.at j)
    Fits-same s c i x sim f j = elim (Bool-cases (j == i)) [
      | inl same ↦
          rw same (subst (λ k. Fits d (incoming k) x (c.at k)) (sym ((==_iff j i).0 same)) f)
      | inr other ↦ rw other (sim.fits j)
    ]

    -- The steps of the calls that a step of the process stands for: one, or none.
    abbrev Followed : Bool → Serving d p → Cluster d → Type 0
    Followed faulty s c =
        (es : List Sched) × All (Allowed faulty) es × Simulates s (run d subjects es c)

    Followed-step :
        (faulty : Bool) (s : Serving d p) (c : Cluster d) (i : ℕ) (t : Stepped d p)
        → Simulates s c
        → IsFollowed (incoming i) s.state (c.at i) t
        → Followed faulty (take_slice d p s i t) c
    unfolding run run_one
    Followed-step faulty s c i t sim (still m q f) = (
      [],
      tt,
      record {
        revoked = m ∙ sim.revoked;
        policies = q ∙ sim.policies;
        fits = Fits-same s c i t.at sim f;
      },
    )
    Followed-step faulty s c i t sim (moved m q f) = (
      turn i ∷ [],
      (tt, tt),
      record {
        revoked = m ∙ rw (sim.revoked, sim.policies) refl;
        policies = q ∙ rw (sim.revoked, sim.policies) refl;
        fits =
            Fits-others s c i t.at (mesh_step_at d (subjects i) (c.at i) c.revoked c.policies).at
              sim (subst (λ z. Fits d (incoming i) t.at z) (rw (sim.revoked, sim.policies) refl) f);
      },
    )

    Followed-slice :
        (faulty : Bool) (e : Slice) (s : Serving d p) (c : Cluster d)
        → Permits faulty e
        → Simulates s c
        → Followed faulty (serve_slice d p incoming e s) c
    unfolding serve_slice
    Followed-slice faulty (slice i part) s c ok sim =
        Followed-step faulty s c i (advance d p (incoming i) part s.state s.metrics (s.at i)) sim
          (IsFollowed-advance (incoming i) s.state s.metrics part (s.at i) (c.at i) (sim.fits i))
    Followed-slice faulty (forget key) s c ok sim =
        unfold run run_one in
        (
          Sched.forget key ∷ [],
          (ok, tt),
          record {
            revoked = ap (λ m. delete m key) sim.revoked;
            policies = sim.policies;
            fits = sim.fits;
          },
        )

    run-append :
        (es fs : List Sched) (c : Cluster d)
        → run d subjects (es ++ fs) c ≡ run d subjects fs (run d subjects es c)
    unfolding run
    run-append [] fs c = refl
    run-append (e ∷ es) fs c = run-append es fs (run_one d subjects e c)

    Followed-slices :
        (faulty : Bool) (es : List Slice) (s : Serving d p) (c : Cluster d)
        → All (Permits faulty) es
        → Simulates s c
        → Followed faulty (serve_slices d p incoming es s) c
    unfolding serve_slices
    Followed-slices faulty [] s c ok sim = ([], tt, unfold run in sim)
    Followed-slices faulty (e ∷ es) s c ok sim =
        let (fs, allowed, after) = Followed-slice faulty e s c ok.0 sim in
        let (gs, rest_allowed, end) =
          Followed-slices faulty es (serve_slice d p incoming e s) (run d subjects fs c) ok.1
            after in
        (
          fs ++ gs,
          All-append (Allowed faulty) fs gs allowed rest_allowed,
          rw (run-append fs gs c) end,
        )

    -- Whatever requests are handled at once, and however their goroutines and the resets interleave,
    -- the dedupe set and the policies are as some schedule of calls of revokeInMesh leaves them, one
    -- for each SET, and each request stands where its call does: a request that a goroutine of
    -- revokeInMesh was started for is answered as its outcome says, by 202 or 500, and one that it
    -- was not started for by 400 or 405.
    pub serve_slices-Simulates :
        (faulty : Bool) (es : List Slice) (policies : d.policy_api.Store) (pods : d.pod_api.Store)
        → All (Permits faulty) es
        → (fs : List Sched) × All (Allowed faulty) fs
          × Simulates
              (serve_slices d p incoming es (just_started d p policies pods))
              (run d subjects fs (at_start d policies))
    serve_slices-Simulates faulty es policies pods ok =
        Followed-slices faulty es (just_started d p policies pods) (at_start d policies) ok
          (record { revoked = refl; policies = refl; fits = λ j. refl })
