-- ===== src/Actuator/Server/Keeps.antt =====
-- cmd/actuator: what stays behind more slices: answers, and what the policy names.
use ebpf_ssf_broker.Base.{
  ℕ, ◌≡◌, refl, inl, inr, true, ◌||◌, Option, none, some, List, [], ◌∷◌, ◌++◌, ◌==◌, Bool-cases,
  Option-cases, Text, text_eq, is_empty, contains,
}
use ebpf_ssf_broker.Actuator.Server.Lands.{answered-slice}
use ebpf_ssf_broker.Go.Http.{Response}
use ebpf_ssf_broker.Go.Json.{marshal}
use ebpf_ssf_broker.Caep.Set.{SetClaims}
use ebpf_ssf_broker.Actuator.Mesh.{add_principal}
use ebpf_ssf_broker.Actuator.Mesh.Laws.{principal_of, marshal-add, contains-append_mono, PolicyLaws}
use ebpf_ssf_broker.Actuator.Dedupe.{Revoked, load_or_store}
use ebpf_ssf_broker.Actuator.Events.{Deps, State}
use ebpf_ssf_broker.Actuator.Goroutines.{
  after_patch, mesh_step_at, MeshAt, at_check, at_patch, at_delete, mesh_returned, LabelAt, at_list,
  at_pods, label_returned, MeshThread,
}
use ebpf_ssf_broker.Actuator.Registry.{Client, Registered}
use ebpf_ssf_broker.Actuator.Concurrent.Burst.{in_policy}
use ebpf_ssf_broker.Actuator.Server.Fits.{begun, Begun, turned_away, malformed, started}
use ebpf_ssf_broker.Actuator.Server.Gains.{HasBody, IsAddressed}
use ebpf_ssf_broker.Actuator.Server.{
  slice, forget, arriving, waiting, reporting, answered, wait, advance, serve_slice, serve_slices,
  Part, handler_side, mesh_side, label_side, Slice, RequestAt, Incoming, Serving,
}

module _ (d : Deps) (p : Client) (incoming : ℕ → Incoming) where
  pub serve_slices-append :
      (es fs : List Slice) (s : Serving d p)
      → serve_slices d p incoming (es ++ fs) s
        ≡ serve_slices d p incoming fs (serve_slices d p incoming es s)
  unfolding serve_slices
  serve_slices-append [] fs s = refl
  serve_slices-append (e ∷ es) fs s = serve_slices-append es fs (serve_slice d p incoming e s)

  pub answered-slices :
      (i : ℕ) (response : Response) (es : List Slice) (s : Serving d p)
      → s.at i ≡ answered response
      → (serve_slices d p incoming es s).at i ≡ answered response
  unfolding serve_slices
  answered-slices i response [] s h = h
  answered-slices i response (e ∷ es) s h =
      answered-slices i response es (serve_slice d p incoming e s)
        (answered-slice d p incoming i response e s h)

module _ (d : Deps) (laws : PolicyLaws d.policy_api) where
  -- What a policy names, the later one names.
  abbrev pub Keeps : (before after : d.policy_api.Store) → Type 0
  Keeps s t =
      (q : Text) → contains (in_policy d laws s) q ≡ true → contains (in_policy d laws t) q ≡ true

  module _ (subject : Text) where
    abbrev Steps : d.policy_api.Store → MeshThread d → Type 0
    Steps s t = HasBody (principal_of subject) t.at × Keeps s t.policies

    Steps-check :
        (m : Revoked) (s : d.policy_api.Store) → Steps s (mesh_step_at d subject at_check m s)
    unfolding mesh_step_at load_or_store
    Steps-check m s =
        elim (Bool-cases
          (text_eq (principal_of subject) subject || is_empty (principal_of subject))) [
            | inl other ↦ rw other (tt, λ q h. h)
            | inr good ↦ elim (Bool-cases (contains m (principal_of subject))) [
              | inl known ↦ rw (good, known) (tt, λ q h. h)
              | inr new ↦
                  let (body, written) = marshal-add (principal_of subject) in
                  rw (good, new, written) (written, λ q h. h)
            ]
          ]

    Steps-patch :
        (m : Revoked) (s : d.policy_api.Store) (o : d.policy_api.Store × Option Text)
        → Keeps s o.0
        → Steps s (after_patch d subject m o)
    unfolding after_patch
    Steps-patch m s (t, none) kept = (tt, kept)
    Steps-patch m s (t, some e) kept = (tt, kept)

    -- A PATCH appends to the policy or does nothing.
    Keeps-patch :
        (s : d.policy_api.Store) (body : Text)
        → marshal (add_principal (principal_of subject) ∷ []) ≡ some body
        → Keeps s (d.policy_api.patch s d.namespace d.policy_name body).0
    Keeps-patch s body w q h =
        let p = principal_of subject in
        let longer = contains-append_mono (in_policy d laws s) p q h in
        elim (Option-cases (d.policy_api.patch s d.namespace d.policy_name body).1) [
          | inl ok ↦ rw (laws.accepts s d.namespace d.policy_name p body w ok) longer
          | inr (e, bad) ↦
              elim (laws.refuses s d.namespace d.policy_name p body w (λ k. absurd (cc))) [
                | inl same ↦ rw same h
                | inr hidden ↦ rw hidden longer
              ]
        ]

    Steps-step :
        (a : MeshAt) (m : Revoked) (s : d.policy_api.Store)
        → HasBody (principal_of subject) a
        → Steps s (mesh_step_at d subject a m s)
    Steps-step at_check m s w = Steps-check m s
    Steps-step (at_patch body) m s w =
        unfold mesh_step_at in
        Steps-patch m s (d.policy_api.patch s d.namespace d.policy_name body) (Keeps-patch s body w)
    Steps-step (at_delete e) m s w = unfold mesh_step_at in (tt, λ q h. h)
    Steps-step (mesh_returned o) m s w = unfold mesh_step_at in (tt, λ q h. h)

  module _ (p : Client) (r : Incoming) (st : State d) (ms : Registered p) where
    IsAddressed-begun : {x : RequestAt} → Begun d r x → IsAddressed x
    IsAddressed-begun (turned_away response a s) = tt
    IsAddressed-begun (malformed response a s bad) = tt
    IsAddressed-begun (started claims a c) = tt

    IsAddressed-wait :
        (claims : SetClaims) (a : MeshAt) (b : LabelAt)
        → HasBody (principal_of claims.sub_id.uri) a
        → IsAddressed (wait d r st claims a b)
    unfolding wait
    IsAddressed-wait claims (mesh_returned o) (label_returned n errs) h = tt
    IsAddressed-wait claims (mesh_returned o) at_list h = h
    IsAddressed-wait claims (mesh_returned o) (at_pods ns sa pods n errs) h = h
    IsAddressed-wait claims at_check b h = h
    IsAddressed-wait claims (at_patch body) b h = h
    IsAddressed-wait claims (at_delete e) b h = h

    Steps-advance :
        (part : Part) (at : RequestAt)
        → IsAddressed at
        → let t = advance d p r part st ms at in
          IsAddressed t.at × Keeps st.policies t.state.policies
    unfolding advance
    Steps-advance handler_side arriving h = (IsAddressed-begun (begun d r), λ q k. k)
    Steps-advance handler_side (waiting claims a b) h = (IsAddressed-wait claims a b h, λ q k. k)
    Steps-advance handler_side (reporting [] response) h = (tt, λ q k. k)
    Steps-advance handler_side (reporting (m ∷ calls) response) h = (tt, λ q k. k)
    Steps-advance handler_side (answered response) h = (tt, λ q k. k)
    Steps-advance mesh_side arriving h = (tt, λ q k. k)
    Steps-advance mesh_side (waiting claims a b) h =
        Steps-step claims.sub_id.uri a st.revoked st.policies h
    Steps-advance mesh_side (reporting calls response) h = (tt, λ q k. k)
    Steps-advance mesh_side (answered response) h = (tt, λ q k. k)
    Steps-advance label_side arriving h = (tt, λ q k. k)
    Steps-advance label_side (waiting claims a b) h = (h, λ q k. k)
    Steps-advance label_side (reporting calls response) h = (tt, λ q k. k)
    Steps-advance label_side (answered response) h = (tt, λ q k. k)

  module _ (p : Client) (incoming : ℕ → Incoming) where
    -- Each PATCH in flight is for the principal of its SET.
    abbrev pub AllAddressed : Serving d p → Type 0
    AllAddressed s = (j : ℕ) → IsAddressed (s.at j)

    Keeps-slice :
        (e : Slice) (s : Serving d p)
        → AllAddressed s
        → let t = serve_slice d p incoming e s in
          AllAddressed t × Keeps s.state.policies t.state.policies
    unfolding serve_slice
    Keeps-slice (forget key) s h = (h, λ q k. k)
    Keeps-slice (slice i part) s h =
        let (own, kept) = Steps-advance p (incoming i) s.state s.metrics part (s.at i) (h i) in
        (
          λ j. elim (Bool-cases (j == i)) [ inl same ↦ rw same own | inr other ↦ rw other (h j) ],
          kept,
        )

    pub Keeps-slices :
        (es : List Slice) (s : Serving d p)
        → AllAddressed s
        → let t = serve_slices d p incoming es s in
          AllAddressed t × Keeps s.state.policies t.state.policies
    unfolding serve_slices
    Keeps-slices [] s h = (h, λ q k. k)
    Keeps-slices (e ∷ es) s h =
        let (addressed, kept) = Keeps-slice e s h in
        let (later, still) = Keeps-slices es (serve_slice d p incoming e s) addressed in
        (later, λ q k. still q (kept q k))
