-- ===== src/Pipeline/Sidecar.antt =====
-- The sidecar of the mesh in front of service B, and what a prober behind it sees of the policy.
use ebpf_ssf_broker.Base.{
  ℕ, suc, ◌+◌, ◌≡◌, refl, inl, inr, Bool, true, false, some, List, [], ◌∷◌, arith, if◌then◌else◌,
  Bool-cases, length, All, Text, contains,
}
use ebpf_ssf_broker.Actuator.Registry.{Client}
use ebpf_ssf_broker.Actuator.Server.{serve_slices, Slice, Serving}
use ebpf_ssf_broker.Actuator.Server.Keeps.{AllAddressed, Keeps-slices}
use ebpf_ssf_broker.Actuator.Concurrent.Burst.{in_policy}
use ebpf_ssf_broker.Go.Http.{Response}
use ebpf_ssf_broker.ServiceB.{serve_hello}
use ebpf_ssf_broker.Prober.{Probe, response}
use ebpf_ssf_broker.Prober.Laws.{FitsInt64}
use ebpf_ssf_broker.Prober.Loop.{Pass}
use ebpf_ssf_broker.Prober.Loop.Counts.{answered_with}
use ebpf_ssf_broker.Actuator.Events.{Deps}
use ebpf_ssf_broker.Actuator.Mesh.Laws.{PolicyLaws}
use ebpf_ssf_broker.Actuator.Server
use ebpf_ssf_broker.ServiceB

-- Istio in front of service B: what a request of a workload with an identity is answered by the
-- sidecar, which has received the policies as they stood at some earlier point. A DENY policy that
-- names the identity there answers 403; a request that no policy there denies is forwarded.
pub record Sidecar (d : Deps) (laws : PolicyLaws d.policy_api) : Type 0 where
  pub admit : d.policy_api.Store → (principal : Text) → ServiceB.Incoming → Response
  pub denies :
      (received : d.policy_api.Store) (principal : Text) (req : ServiceB.Incoming)
      → contains (in_policy d laws received) principal ≡ true
      → (admit received principal req).status ≡ 403
  pub forwards :
      (received : d.policy_api.Store) (principal : Text) (req : ServiceB.Incoming)
      → contains (in_policy d laws received) principal ≡ false
      → admit received principal req ≡ (serve_hello req).0

-- What happens in front of a pass of the prober: the slices that the actuator runs, whether the mesh
-- then pushes the policies to the sidecar, and how long the call of the pass takes.
pub record Gap : Type 0 where
  pub slices : List Slice
  pub pushed : Bool
  pub took : ℕ

-- Gaps in which the actuator does not run.
abbrev pub undisturbed : List (Bool × ℕ) → List Gap
undisturbed [] = []
undisturbed ((pushed, took) ∷ rest) =
    record { slices = []; pushed = pushed; took = took } ∷ undisturbed rest

-- How many passes come before the first push.
abbrev pub before_push : List Gap → ℕ
before_push [] = 0
before_push (g ∷ rest) = if g.pushed then 0 else suc (before_push rest)

-- How many passes find a sidecar that has not received the name yet.
abbrev pub outdated : (named : Bool) → List Gap → ℕ
outdated true plan = 0
outdated false plan = before_push plan

-- So many passes were answered with 200, and so many with 403.
pub record Tally (allowed denied : ℕ) (ps : List Pass) : Type 0 where
  pub let_through : answered_with 200 ps ≡ allowed
  pub turned_away : answered_with 403 ps ≡ denied
  pub fits : All (λ q. FitsInt64 q.probe) ps

module _ (d : Deps) (laws : PolicyLaws d.policy_api) (mesh : Sidecar d laws) (p : Client)
    (incoming : ℕ → Server.Incoming) (name : Text) (req : ServiceB.Incoming) where
  abbrev names : d.policy_api.Store → Bool
  names s = contains (in_policy d laws s) name

  abbrev probe_of : Response → Probe
  probe_of resp = response resp.status (some resp.body)

  -- The probe of a pass, while the sidecar has received these policies.
  abbrev probe_at : d.policy_api.Store → ℕ → Pass
  probe_at received took = record { probe = probe_of (mesh.admit received name req); took = took }

  -- Passes of the prober with what happens in front of each.
  unfoldable pub probing : (received : d.policy_api.Store) → Serving d p → List Gap → List Pass
  probing received s [] = []
  probing received s (g ∷ rest) =
      let s' = serve_slices d p incoming g.slices s in
      let received' = if g.pushed then s'.state.policies else received in
      probe_at received' g.took ∷ probing received' s' rest

  pass_denied :
      (received : d.policy_api.Store) (took n m : ℕ) (ps : List Pass)
      → names received ≡ true
      → Tally n m ps
      → Tally n (suc m) (probe_at received took ∷ ps)
  pass_denied received took n m ps h later =
      let answer = mesh.denies received name req h in
      record {
        let_through = rw answer later.let_through;
        turned_away = rw (answer, later.turned_away) refl;
        fits = (rw answer (omega arith), later.fits);
      }

  pass_allowed :
      (received : d.policy_api.Store) (took n m : ℕ) (ps : List Pass)
      → names received ≡ false
      → Tally n m ps
      → Tally (suc n) m (probe_at received took ∷ ps)
  unfolding serve_hello
  pass_allowed received took n m ps h later =
      let answer = mesh.forwards received name req h in
      record {
        let_through = rw (answer, later.let_through) refl;
        turned_away = rw answer later.turned_away;
        fits = (rw answer (omega arith), later.fits);
      }

  -- The policy names the workload, and so does what the sidecar has received.
  Tally-denied :
      (received : d.policy_api.Store) (s : Serving d p) (plan : List Gap)
      → AllAddressed d laws p incoming s
      → names received ≡ true
      → names s.state.policies ≡ true
      → Tally 0 (length plan) (probing received s plan)
  unfolding probing
  Tally-denied received s [] a h k = record { let_through = refl; turned_away = refl; fits = tt }
  Tally-denied received s (g ∷ rest) a h k =
      let s' = serve_slices d p incoming g.slices s in
      let (a', kept) = Keeps-slices d laws p incoming g.slices s a in
      let k' = kept name k in
      elim (Bool-cases g.pushed) [
        | inl new ↦ rw new (
            pass_denied s'.state.policies g.took 0 (length rest) (probing s'.state.policies s' rest)
              k' (Tally-denied s'.state.policies s' rest a' k' k'))
        | inr old ↦ rw old (
            pass_denied received g.took 0 (length rest) (probing received s' rest) h
              (Tally-denied received s' rest a' h k'))
      ]

  -- The policy names the workload, and what the sidecar has received does not yet.
  Tally-pending :
      (received : d.policy_api.Store) (s : Serving d p) (plan : List Gap)
      → AllAddressed d laws p incoming s
      → names received ≡ false
      → names s.state.policies ≡ true
      → (m : ℕ) × (m + before_push plan ≡ length plan)
        × Tally (before_push plan) m (probing received s plan)
  unfolding probing
  Tally-pending received s [] a h k =
      (0, refl, record { let_through = refl; turned_away = refl; fits = tt })
  Tally-pending received s (g ∷ rest) a h k =
      let s' = serve_slices d p incoming g.slices s in
      let (a', kept) = Keeps-slices d laws p incoming g.slices s a in
      let k' = kept name k in
      elim (Bool-cases g.pushed) [
        | inl new ↦ (
          suc (length rest),
          rw new (omega arith),
          rw new (
              pass_denied s'.state.policies g.took 0 (length rest)
                (probing s'.state.policies s' rest) k'
                (Tally-denied s'.state.policies s' rest a' k' k')),
        )
        | inr old ↦
            let (m, whole, later) = Tally-pending received s' rest a' h k' in
            (
              m,
              rw old (omega (arith, whole)),
              rw old (
                  pass_allowed received g.took (before_push rest) m (probing received s' rest) h
                    later),
            )
      ]

  -- The policy names the workload, whatever the sidecar has received.
  pub Tally-named :
      (received : d.policy_api.Store) (s : Serving d p) (plan : List Gap)
      → AllAddressed d laws p incoming s
      → names s.state.policies ≡ true
      → (m : ℕ) × (m + outdated (names received) plan ≡ length plan)
        × Tally (outdated (names received) plan) m (probing received s plan)
  Tally-named received s plan a k = elim (Bool-cases (names received)) [
    | inl h ↦ (length plan, rw h (omega arith), rw h (Tally-denied received s plan a h k))
    | inr h ↦ rw h (Tally-pending received s plan a h k)
  ]

  -- Nothing names the workload, and the actuator does not run.
  pub Tally-allowed :
      (received : d.policy_api.Store) (s : Serving d p) (plan : List (Bool × ℕ))
      → names received ≡ false
      → names s.state.policies ≡ false
      → Tally (length plan) 0 (probing received s (undisturbed plan))
  unfolding probing serve_slices
  Tally-allowed received s [] h k = record { let_through = refl; turned_away = refl; fits = tt }
  Tally-allowed received s ((true, took) ∷ rest) h k =
      pass_allowed s.state.policies took (length rest) 0
        (probing s.state.policies s (undisturbed rest)) k
        (Tally-allowed s.state.policies s rest k k)
  Tally-allowed received s ((false, took) ∷ rest) h k =
      pass_allowed received took (length rest) 0 (probing received s (undisturbed rest)) h
        (Tally-allowed received s rest h k)
