-- ===== src/Actuator/Server/Denies.antt =====
-- cmd/actuator: what a 202 of one among many requests at once is worth.
use ebpf_ssf_broker.Base.{
  ℕ, ◌≡◌, refl, subst, inl, inr, Bool, true, false, not, List, arith, ◌==◌, contains,
}
use ebpf_ssf_broker.Go.Http.{status_accepted, status_internal_server_error, Response}
use ebpf_ssf_broker.Caep.Set.{SetClaims}
use ebpf_ssf_broker.Actuator.Mesh.{done, failed}
use ebpf_ssf_broker.Actuator.Mesh.Laws.{principal_of, PolicyLaws}
use ebpf_ssf_broker.Actuator.Events.{Deps}
use ebpf_ssf_broker.Actuator.Goroutines.{MeshAt, mesh_returned}
use ebpf_ssf_broker.Actuator.Registry.{Client}
use ebpf_ssf_broker.Actuator.Server.Fits.{Carries, subject_in-Carries, Fits, Told, refused, told}
use ebpf_ssf_broker.Actuator.Server.{
  arriving, waiting, reporting, answered, just_started, serve_slices, Slice, RequestAt, Incoming,
}
use ebpf_ssf_broker.Actuator.Server.Simulates.{All-Permits, subjects, serve_slices-Simulates}
use ebpf_ssf_broker.Actuator.Concurrent.{run, at_start}
use ebpf_ssf_broker.Actuator.Concurrent.Burst.{is_over, in_policy, burst_denies}

-- The request has not begun, or was answered or is about to be, and not by 500.
abbrev pub is_settled : RequestAt → Bool
is_settled arriving = true
is_settled (waiting claims a b) = false
is_settled (reporting calls response) = not (response.status == status_internal_server_error)
is_settled (answered response) = not (response.status == status_internal_server_error)

module _ (d : Deps) (r : Incoming) where
  Told-over :
      (a : MeshAt) (status : ℕ)
      → Told d r a status
      → not (status == status_internal_server_error) ≡ true
      → is_over a ≡ true
  Told-over a status (refused e s other) fine = rw e refl
  Told-over a status (told claims (done b) c e s) fine = rw e refl
  Told-over a status (told claims (failed x) c e s) fine = absurd (ground arith)

  Fits-over : (x : RequestAt) (a : MeshAt) → Fits d r x a → is_settled x ≡ true → is_over a ≡ true
  Fits-over arriving a f fine = rw f refl
  Fits-over (waiting claims a' b) a f fine = absurd (cc)
  Fits-over (reporting calls response) a f fine = Told-over a response.status f fine
  Fits-over (answered response) a f fine = Told-over a response.status f fine

  -- A request that is told 202 carried a SET whose call returned without an error.
  Told-accepted :
      (a : MeshAt) (status : ℕ)
      → Told d r a status
      → status ≡ status_accepted
      → (claims : SetClaims) × (b : Bool) × Carries d r claims × (a ≡ mesh_returned (done b))
  Told-accepted a status (refused e (inl s) other) ok = absurd (ground arith)
  Told-accepted a status (refused e (inr s) other) ok = absurd (ground arith)
  Told-accepted a status (told claims (done b) c e s) ok = (claims, b, c, e)
  Told-accepted a status (told claims (failed x) c e s) ok = absurd (ground arith)

module _ (d : Deps) (laws : PolicyLaws d.policy_api) (p : Client) (incoming : ℕ → Incoming) where
  -- When, in a schedule of whole requests and resets, each request that has begun has returned from
  -- its goroutines, and none is answered by 500, every request that was answered by 202, as a
  -- duplicate too, carried a SET whose principal is in the policy.
  pub requests_deny :
      (es : List Slice) (policies : d.policy_api.Store) (pods : d.pod_api.Store) (i : ℕ)
      (response : Response)
      → ((j : ℕ)
          → is_settled ((serve_slices d p incoming es (just_started d p policies pods)).at j)
            ≡ true)
      → (serve_slices d p incoming es (just_started d p policies pods)).at i ≡ answered response
      → response.status ≡ status_accepted
      → (claims : SetClaims) × Carries d (incoming i) claims
        × (contains
              (in_policy d laws
                (serve_slices d p incoming es (just_started d p policies pods)).state.policies)
              (principal_of claims.sub_id.uri)
            ≡ true)
  requests_deny es policies pods i response settled at_end ok =
      let (fs, _, sim) =
        serve_slices-Simulates d p incoming true es policies pods (All-Permits d p es) in
      let s = serve_slices d p incoming es (just_started d p policies pods) in
      let c = run d (subjects d p incoming) fs (at_start d policies) in
      let fit = subst (λ x. Fits d (incoming i) x (c.at i)) at_end (sim.fits i) in
      let (claims, b, carried, returned) =
        Told-accepted d (incoming i) (c.at i) response.status fit ok in
      let named =
        burst_denies d laws (subjects d p incoming) fs policies i b
          (λ j. Fits-over d (incoming j) (s.at j) (c.at j) (sim.fits j) (settled j)) returned in
      (claims, carried, rw (sim.policies, ← subject_in-Carries d (incoming i) claims carried) named)
