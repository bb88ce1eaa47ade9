-- ===== src/Actuator/Server/Revokes.antt =====
-- cmd/actuator: every event is revoked in the end, in front of an API server that accepts every PATCH.
use ebpf_ssf_broker.Base.{
  ℕ, zero, suc, ◌≡◌, refl, sym, ap, ◌∙◌, subst, ◌≢◌, ◌⊎◌, inl, inr, Bool, true, some, [], ◌∷◌, ◌==◌,
  ==_iff, Bool-cases, Text, contains,
}
use ebpf_ssf_broker.Go.Http.{status_accepted, Response}
use ebpf_ssf_broker.Caep.Set.{SetClaims}
use ebpf_ssf_broker.Actuator.Mesh.{add_principal, done}
use ebpf_ssf_broker.Actuator.Mesh.Laws.{principal_of, IsSpiffe, PolicyLaws}
use ebpf_ssf_broker.Actuator.Events.{Deps}
use ebpf_ssf_broker.Actuator.Goroutines.{MeshAt, at_patch, mesh_returned, LabelAt}
use ebpf_ssf_broker.Actuator.Registry.{Client}
use ebpf_ssf_broker.Actuator.Concurrent.Burst.{in_policy}
use ebpf_ssf_broker.Actuator.Concurrent.Settles.{IsFine, AcceptsAll, fine_answered, IsFine-after}
use ebpf_ssf_broker.Actuator.Concurrent.{run, at_start}
use ebpf_ssf_broker.Actuator.Server.Fits.{
  Carries, IsEvent, subject_in, subject_in-Carries, status_of, Fits, Told, refused, told,
}
use ebpf_ssf_broker.Actuator.Server.Fair.{prefix, IsFair, fair-IsAnswered}
use ebpf_ssf_broker.Actuator.Server.{
  slice, arriving, waiting, reporting, answered, just_started, serve_slice, serve_slices, Part,
  mesh_side, Slice, RequestAt, Incoming, Serving,
}
use ebpf_ssf_broker.Actuator.Concurrent.Covered.{covered_now}
use ebpf_ssf_broker.Actuator.Server.Simulates.{All-Permits, subjects, serve_slices-Simulates}
use ebpf_ssf_broker.Actuator.Server.Lands.{
  drop, IsFair-drop, Eventually, eventually_then, patch_lands,
}
use ebpf_ssf_broker.Go.Json.{marshal}

module _ (d : Deps) (p : Client) (incoming : ℕ → Incoming) where
  -- A request that the schedule never runs.
  abbrev pub IsLeftOut : ℕ → (ℕ → Slice) → Type 0
  IsLeftOut i f = (part : Part) (n : ℕ) → f n ≢ slice i part

  -- A request that has not begun has no call of revokeInMesh under way.
  left_out_stays :
      (i n : ℕ) (f : ℕ → Slice) (s : Serving d p)
      → IsLeftOut i f
      → (serve_slices d p incoming (prefix f n) s).at i ≡ s.at i
  unfolding serve_slices
  left_out_stays i zero f s out = refl
  left_out_stays i (suc n) f s out =
      left_out_stays i n (λ k. f (suc k)) (serve_slice d p incoming (f 0) s)
        (λ part k. out part (suc k))
      ∙ untouched (f 0) (λ part. out part 0)
    where
      untouched :
          (e : Slice)
          → ((part : Part) → e ≢ slice i part)
          → (serve_slice d p incoming e s).at i ≡ s.at i
      untouched (Slice.forget key) h = unfold serve_slice in refl
      untouched (slice j part) h = elim (Bool-cases (i == j)) [
        | inl same ↦ absurd (h part (ap (λ k. slice k part) (sym ((==_iff i j).0 same))))
        | inr other ↦ unfold serve_slice in rw other refl
      ]

  -- Where a request stands whose call is in front of its PATCH.
  in_flight_at :
      (r : Incoming) (x : RequestAt) (a : MeshAt) (body : Text)
      → Fits d r x a
      → a ≡ at_patch body
      → (claims : SetClaims) × (b : LabelAt) × Carries d r claims
        × (x ≡ waiting claims (at_patch body) b)
  in_flight_at r arriving a body f e = cc
  in_flight_at r (waiting claims a' b) a body (c, k) e =
      (claims, b, c, ap (λ z. waiting claims z b) (sym k ∙ e))
  in_flight_at r (reporting calls response) a body (refused k s other) e = cc
  in_flight_at r (reporting calls response) a body (told claims o c k s) e = cc
  in_flight_at r (answered response) a body (refused k s other) e = cc
  in_flight_at r (answered response) a body (told claims o c k s) e = cc

module _ (d : Deps) (accepting : AcceptsAll d) (laws : PolicyLaws d.policy_api) (p : Client)
    (incoming : ℕ → Incoming) (i : ℕ) (claims : SetClaims) (event : IsEvent d (incoming i) claims)
    (valid : IsSpiffe claims.sub_id.uri) where
  -- The request is answered by 202, and its principal is in the policy.
  abbrev pub IsRevoked : Serving d p → Type 0
  IsRevoked s =
      ((response : Response) × (s.at i ≡ answered response) × (response.status ≡ status_accepted))
      × (contains (in_policy d laws s.state.policies) (principal_of claims.sub_id.uri) ≡ true)

  accepted_answer :
      (a : MeshAt) (status : ℕ)
      → Told d (incoming i) a status
      → IsFine (subject_in d (incoming i)) a
      → (status ≡ status_accepted) × ((b : Bool) × (a ≡ mesh_returned (done b)))
  accepted_answer a status (refused e s other) fine = absurd (other claims event)
  accepted_answer a status (told claims' o c e s) fine =
      let valid' = subst IsSpiffe (sym (subject_in-Carries d (incoming i) claims event.0)) valid in
      let (b, k) =
        fine_answered d accepting (subject_in d (incoming i)) o valid'
          (subst (IsFine (subject_in d (incoming i))) e fine) in
      (s ∙ ap (status_of d) k, (b, e ∙ ap mesh_returned k))

  -- The subject of the request, by its principal.
  named_as : principal_of (subject_in d (incoming i)) ≡ principal_of claims.sub_id.uri
  named_as = ap (λ x. principal_of x) (subject_in-Carries d (incoming i) claims event.0)

  -- Another request is in front of the PATCH that adds the principal.
  other_lands :
      (n j : ℕ) (response : Response) (f : ℕ → Slice) (s : Serving d p) (claims' : SetClaims)
      (b : LabelAt) (body : Text)
      → IsFair j f
      → (serve_slices d p incoming (prefix f n) s).at i ≡ answered response
      → response.status ≡ status_accepted
      → Carries d (incoming j) claims'
      → (serve_slices d p incoming (prefix f n) s).at j ≡ waiting claims' (at_patch body) b
      → marshal (add_principal (principal_of (subject_in d (incoming j))) ∷ []) ≡ some body
      → principal_of (subject_in d (incoming j)) ≡ principal_of (subject_in d (incoming i))
      → Eventually d p incoming IsRevoked f s
  other_lands n j response f s claims' b body fair at_n ok carried stands written same =
      let s1 = serve_slices d p incoming (prefix f n) s in
      let theirs = ap (λ x. principal_of x) (subject_in-Carries d (incoming j) claims' carried) in
      let (w, _, due) = IsFair-drop j n f fair mesh_side 0 in
      let (m, (kept, named)) =
        patch_lands d p incoming accepting laws j claims' body
          (subst (λ q. marshal (add_principal q ∷ []) ≡ some body) theirs written) i response w
          (drop n f) s1 due (b, stands) at_n in
      eventually_then d p incoming IsRevoked n f s (
        m,
        (
          (response, kept, ok),
          subst
              (λ q.
                contains
                  (in_policy d laws
                    (serve_slices d p incoming (prefix (drop n f) m) s1).state.policies)
                  q
                ≡ true)
              (sym theirs ∙ same ∙ named_as) named,
        ),
      )

  -- Behind an answer of 202, the policy names the principal, or another request that the schedule
  -- runs is in front of the PATCH that adds it.
  settled :
      (n : ℕ) (response : Response) (f : ℕ → Slice) (policies : d.policy_api.Store)
      (pods : d.pod_api.Store)
      → ((j : ℕ) → IsFair j f ⊎ IsLeftOut d p incoming j f)
      → (serve_slices d p incoming (prefix f n) (just_started d p policies pods)).at i
        ≡ answered response
      → Eventually d p incoming IsRevoked f (just_started d p policies pods)
  settled n response f policies pods others at_n =
      let s0 = just_started d p policies pods in
      let s1 = serve_slices d p incoming (prefix f n) s0 in
      let (fs, _, sim) =
        serve_slices-Simulates d p incoming true (prefix f n) policies pods
          (All-Permits d p (prefix f n)) in
      let subject = subjects d p incoming in
      let c = run d subject fs (at_start d policies) in
      let (ok, answer) =
        accepted_answer (c.at i) response.status
          (subst (λ x. Fits d (incoming i) x (c.at i)) at_n (sim.fits i))
          (IsFine-after d accepting subject fs policies i) in
      elim (covered_now d accepting laws subject fs policies i answer.0 answer.1) [
        | inl there ↦ (
          n,
          (
            (response, at_n, ok),
            subst (λ q. contains (in_policy d laws s1.state.policies) q ≡ true) named_as
                (subst (λ x. contains (in_policy d laws x) (principal_of (subject i)) ≡ true)
                  (sym sim.policies) there),
          ),
        )
        | inr (j, (body, at_j, written, same)) ↦
            let (claims', b, carried, stands) =
              in_flight_at d p incoming (incoming j) (s1.at j) (c.at j) body (sim.fits j) at_j in
            elim (others j) [
              | inl fair ↦
                  other_lands n j response f s0 claims' b body fair at_n ok carried stands written
                    same
              | inr out ↦ let new = left_out_stays d p incoming j n f s0 out in absurd (cc)
            ]
      ]

  -- Under every schedule, resets included, in which the goroutines of each request that it runs get
  -- turns again and again, and in front of an API server that accepts every PATCH: from the start of
  -- the process, each POST of a SET for a SPIFFE ID is at some point answered by 202 with its
  -- principal in the policy, whatever other requests for the same or other subjects come between.
  pub all-IsRevoked :
      (f : ℕ → Slice) (policies : d.policy_api.Store) (pods : d.pod_api.Store)
      → IsFair i f
      → ((j : ℕ) → IsFair j f ⊎ IsLeftOut d p incoming j f)
      → Eventually d p incoming IsRevoked f (just_started d p policies pods)
  all-IsRevoked f policies pods fair others =
      let (n, response, at_n) =
        fair-IsAnswered d p incoming i f (just_started d p policies pods) fair in
      settled n response f policies pods others at_n
