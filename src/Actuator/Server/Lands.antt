-- ===== src/Actuator/Server/Lands.antt =====
-- cmd/actuator: a PATCH that a request is in front of, among other requests.
use ebpf_ssf_broker.Base.{
  ℕ, zero, suc, ◌≡◌, refl, sym, subst, ◌⊎◌, inl, inr, true, Option, none, some, [], ◌∷◌, ◌==◌,
  ==_iff, Bool-cases, Text, contains, contains_self,
}
use ebpf_ssf_broker.Actuator.Dedupe.{Revoked}
use ebpf_ssf_broker.Go.Http.{Response}
use ebpf_ssf_broker.Go.Json.{marshal}
use ebpf_ssf_broker.Caep.Set.{SetClaims}
use ebpf_ssf_broker.Actuator.Mesh.{add_principal}
use ebpf_ssf_broker.Actuator.Mesh.Laws.{principal_of, PolicyLaws}
use ebpf_ssf_broker.Actuator.Events.{Deps}
use ebpf_ssf_broker.Actuator.Goroutines.{
  after_patch, mesh_step_at, label_step_at, at_patch, LabelAt,
}
use ebpf_ssf_broker.Actuator.Registry.{Client}
use ebpf_ssf_broker.Actuator.Concurrent.Burst.{contains-append_right, in_policy}
use ebpf_ssf_broker.Actuator.Concurrent.Settles.{AcceptsAll}
use ebpf_ssf_broker.Actuator.Server.Fair.{prefix, IsFair, IsFair-later}
use ebpf_ssf_broker.Actuator.Server.{
  slice, forget, waiting, answered, wait, advance, serve_slice, serve_slices, Part, handler_side,
  mesh_side, label_side, Slice, Incoming, Serving,
}

-- The schedule behind its first slices.
abbrev pub drop : ℕ → (ℕ → Slice) → ℕ → Slice
drop zero f = f
drop (suc n) f = drop n (λ j. f (suc j))

pub IsFair-drop : (i : ℕ) (n : ℕ) (f : ℕ → Slice) → IsFair i f → IsFair i (drop n f)
IsFair-drop i zero f fair = fair
IsFair-drop i (suc n) f fair = IsFair-drop i n (λ j. f (suc j)) (IsFair-later i f fair)

module _ (d : Deps) (p : Client) (incoming : ℕ → Incoming) where
  -- After some slices of the schedule.
  abbrev pub Eventually : (Serving d p → Type 0) → (ℕ → Slice) → Serving d p → Type 0
  Eventually P f s = (n : ℕ) × P (serve_slices d p incoming (prefix f n) s)

  later :
      (P : Serving d p → Type 0) (f : ℕ → Slice) (s : Serving d p)
      → Eventually P (λ j. f (suc j)) (serve_slice d p incoming (f 0) s)
      → Eventually P f s
  unfolding serve_slices
  later P f s (n, h) = (suc n, h)

  pub eventually_then :
      (P : Serving d p → Type 0) (n : ℕ) (f : ℕ → Slice) (s : Serving d p)
      → Eventually P (drop n f) (serve_slices d p incoming (prefix f n) s)
      → Eventually P f s
  unfolding serve_slices
  eventually_then P zero f s h = h
  eventually_then P (suc n) f s h =
      later P f s (eventually_then P n (λ j. f (suc j)) (serve_slice d p incoming (f 0) s) h)

  answered_own :
      (i : ℕ) (response : Response) (part : Part) (s : Serving d p)
      → s.at i ≡ answered response
      → (serve_slice d p incoming (slice i part) s).at i ≡ answered response
  unfolding serve_slice advance
  answered_own i response handler_side s h = rw ((==_iff i i).1 refl, h) refl
  answered_own i response mesh_side s h = rw ((==_iff i i).1 refl, h) refl
  answered_own i response label_side s h = rw ((==_iff i i).1 refl, h) refl

  -- An answer stays.
  pub answered-slice :
      (i : ℕ) (response : Response) (e : Slice) (s : Serving d p)
      → s.at i ≡ answered response
      → (serve_slice d p incoming e s).at i ≡ answered response
  answered-slice i response (forget key) s h = unfold serve_slice in h
  answered-slice i response (slice j part) s h = elim (Bool-cases (i == j)) [
    | inl same ↦
        subst (λ k. (serve_slice d p incoming (slice k part) s).at i ≡ answered response)
          ((==_iff i j).0 same) (answered_own i response part s h)
    | inr other ↦ unfold serve_slice in rw other h
  ]

  module _ (accepting : AcceptsAll d) (laws : PolicyLaws d.policy_api) (j : ℕ) (claims : SetClaims)
      (body : Text)
      (written : marshal (add_principal (principal_of claims.sub_id.uri) ∷ []) ≡ some body) where
    abbrev IsNamed : Serving d p → Type 0
    IsNamed s = contains (in_policy d laws s.state.policies) (principal_of claims.sub_id.uri) ≡ true

    abbrev StandsAt : Serving d p → Type 0
    StandsAt s = (b : LabelAt) × (s.at j ≡ waiting claims (at_patch body) b)

    policies-after_patch :
        (m : Revoked) (o : d.policy_api.Store × Option Text)
        → (after_patch d claims.sub_id.uri m o).policies ≡ o.0
    unfolding after_patch
    policies-after_patch m (t, none) = refl
    policies-after_patch m (t, some e) = refl

    named-mesh :
        (m : Revoked) (s : d.policy_api.Store)
        → contains
            (in_policy d laws (mesh_step_at d claims.sub_id.uri (at_patch body) m s).policies)
            (principal_of claims.sub_id.uri)
          ≡ true
    unfolding mesh_step_at
    named-mesh m s =
        let q = principal_of claims.sub_id.uri in
        rw
          (
            policies-after_patch m (d.policy_api.patch s d.namespace d.policy_name body),
            laws.accepts s d.namespace d.policy_name q body written (accepting s q body written),
          )
          (contains-append_right (in_policy d laws s) (q ∷ []) q (contains_self [] q))

    -- A step of the request itself.
    own_step :
        (part : Part) (s : Serving d p) (b : LabelAt)
        → s.at j ≡ waiting claims (at_patch body) b
        → IsNamed (serve_slice d p incoming (slice j part) s)
          ⊎ StandsAt (serve_slice d p incoming (slice j part) s)
    unfolding serve_slice advance wait
    own_step handler_side s b h = inr (b, rw ((==_iff j j).1 refl, h) refl)
    own_step mesh_side s b h = inl (rw h (named-mesh s.state.revoked s.state.policies))
    own_step label_side s b h =
        inr
          ((label_step_at d claims.sub_id.uri b s.state.pods).at, rw ((==_iff j j).1 refl, h) refl)

    -- A slice executes the PATCH, or leaves the request in front of it.
    lands_or_stays :
        (e : Slice) (s : Serving d p)
        → StandsAt s
        → IsNamed (serve_slice d p incoming e s) ⊎ StandsAt (serve_slice d p incoming e s)
    lands_or_stays (forget key) s h = unfold serve_slice in inr h
    lands_or_stays (slice k part) s (b, h) = elim (Bool-cases (j == k)) [
      | inl same ↦
          subst
            (λ l.
              IsNamed (serve_slice d p incoming (slice l part) s)
              ⊎ StandsAt (serve_slice d p incoming (slice l part) s))
            ((==_iff j k).0 same) (own_step part s b h)
      | inr other ↦ unfold serve_slice in inr (b, rw other h)
    ]

    -- The turn that executes it.
    own_lands :
        (s : Serving d p) → StandsAt s → IsNamed (serve_slice d p incoming (slice j mesh_side) s)
    unfolding serve_slice advance
    own_lands s (b, h) = rw h (named-mesh s.state.revoked s.state.policies)

    -- When the request's turn comes, its principal is in the policy, and an answer of another one is
    -- still there.
    pub patch_lands :
        (i : ℕ) (response : Response) (w : ℕ) (f : ℕ → Slice) (s : Serving d p)
        → f w ≡ slice j mesh_side
        → StandsAt s
        → s.at i ≡ answered response
        → Eventually (λ t. (t.at i ≡ answered response) × IsNamed t) f s
    unfolding serve_slices
    patch_lands i response zero f s turn h done_i = (
      1,
      (
        answered-slice i response (f 0) s done_i,
        subst (λ e. IsNamed (serve_slice d p incoming e s)) (sym turn) (own_lands s h),
      ),
    )
    patch_lands i response (suc w) f s turn h done_i =
        let kept = answered-slice i response (f 0) s done_i in
        elim (lands_or_stays (f 0) s h) [
          | inl named ↦ (1, (kept, named))
          | inr stands ↦
              later (λ t. (t.at i ≡ answered response) × IsNamed t) f s
                (patch_lands i response w (λ k. f (suc k)) (serve_slice d p incoming (f 0) s) turn
                  stands kept)
        ]
