-- ===== src/Actuator/Mesh/Laws.antt =====
-- cmd/actuator/mesh.go: revokeInMesh over an API server of which only the effect of an accepted and
-- of a refused PATCH is assumed.
use ebpf_ssf_broker.Base.{
  ◌≡◌, refl, ◌≢◌, ◌⊎◌, inl, inr, Bool, true, false, ◌||◌, none, some, List, [], ◌∷◌, ◌++◌, arith,
  Text, text_eq, text_eq_refl, is_empty, contains, contains-append, contains-cons, contains_self,
}
use ebpf_ssf_broker.Actuator.WorkloadId.{scheme}
use ebpf_ssf_broker.Go.Strings.{trim_prefix}
use ebpf_ssf_broker.Go.Json.{marshal}
use ebpf_ssf_broker.Actuator.Dedupe.{Revoked, load_or_store, delete_added}
use ebpf_ssf_broker.Actuator.Mesh.{
  done, failed, add_principal, revoke_in_mesh, PolicyApi, MeshError, Outcome, Revocation,
}

-- An accepted PATCH appends the principal. One that is answered by an error has no effect, or had
-- it before the answer was lost.
pub record PolicyLaws (api : PolicyApi) : Type 1 where
  pub principals : api.Store → (namespace name : Text) → List Text
  pub accepts :
      (s : api.Store) (namespace name principal body : Text)
      → marshal (add_principal principal ∷ []) ≡ some body
      → (api.patch s namespace name body).1 ≡ none
      → principals (api.patch s namespace name body).0 namespace name
        ≡ principals s namespace name ++ principal ∷ []
  pub refuses :
      (s : api.Store) (namespace name principal body : Text)
      → marshal (add_principal principal ∷ []) ≡ some body
      → (api.patch s namespace name body).1 ≢ none
      → (principals (api.patch s namespace name body).0 namespace name
          ≡ principals s namespace name)
        ⊎ (principals (api.patch s namespace name body).0 namespace name
            ≡ principals s namespace name ++ principal ∷ [])

-- The principal that a SPIFFE ID stands for in the policy.
abbrev pub principal_of : Text → Text
principal_of spiffe_id = trim_prefix spiffe_id scheme

module _ (api : PolicyApi) (namespace name : Text) (m : Revoked) (s : api.Store) (id : Text) where
  -- A call that fails leaves the dedupe set as it was, so a later event for the subject retries.
  pub revoked-revoke_failed :
      (e : MeshError)
      → (revoke_in_mesh api namespace name m s id).outcome ≡ failed e
      → (revoke_in_mesh api namespace name m s id).revoked ≡ m
  unfolding revoke_in_mesh load_or_store
  revoked-revoke_failed e h =
      ground (arith, contains_self m (principal_of id), delete_added m (principal_of id))

-- The request body of the PATCH that adds a principal.
pub marshal-add : (p : Text) → (body : Text) × (marshal (add_principal p ∷ []) ≡ some body)
unfolding marshal
marshal-add p = (_, refl)

revoke_held :
    (api : PolicyApi) (namespace name : Text) (m : Revoked) (s : api.Store) (id : Text)
    → text_eq (principal_of id) id || is_empty (principal_of id) ≡ false
    → contains m (principal_of id) ≡ true
    → revoke_in_mesh api namespace name m s id
      ≡ record { revoked = m; policies = s; outcome = done false }
unfolding revoke_in_mesh load_or_store
revoke_held api namespace name m s id valid held = rw (valid, held) refl

module _ (api : PolicyApi) (namespace name : Text) (m : Revoked) (s : api.Store) (id : Text) where
  -- A call that returned without an error did so for a SPIFFE ID, which the dedupe set holds then.
  revoke_holds :
      (b : Bool)
      → (revoke_in_mesh api namespace name m s id).outcome ≡ done b
      → (text_eq (principal_of id) id || is_empty (principal_of id) ≡ false)
        × (contains (revoke_in_mesh api namespace name m s id).revoked (principal_of id) ≡ true)
  unfolding revoke_in_mesh load_or_store
  revoke_holds b h =
      let (body, e) = marshal-add (principal_of id) in
      ground (arith, e, contains_self m (principal_of id))

  -- A repeated call, after one that returned without an error, is a duplicate.
  pub revoke_again :
      (b : Bool) (t : api.Store)
      → (revoke_in_mesh api namespace name m s id).outcome ≡ done b
      → revoke_in_mesh api namespace name (revoke_in_mesh api namespace name m s id).revoked t id
        ≡ record {
          revoked = (revoke_in_mesh api namespace name m s id).revoked;
          policies = t;
          outcome = done false;
        }
  revoke_again b t h =
      let (valid, held) = revoke_holds b h in
      revoke_held api namespace name (revoke_in_mesh api namespace name m s id).revoked t id valid
        held

-- Every principal of the dedupe set is in the policy: a skipped PATCH is never a missing one.
abbrev pub InSync : List Text → Revoked → Type 0
InSync principals m = (p : Text) → contains m p ≡ true → contains principals p ≡ true

-- The principal is the ID without its scheme, and neither the ID itself nor empty.
abbrev pub IsSpiffe : Text → Type 0
IsSpiffe id = (text_eq (principal_of id) id ≡ false) × (is_empty (principal_of id) ≡ false)

contains-append_self : (m : Revoked) (p : Text) → contains (m ++ p ∷ []) p ≡ true
contains-append_self m p = ground (arith, contains-append m p p, text_eq_refl p)

pub contains-append_mono :
    (m : Revoked) (p q : Text) → contains m q ≡ true → contains (m ++ p ∷ []) q ≡ true
contains-append_mono m p q h = ground (arith, contains-append m p q)

module _ (api : PolicyApi) (laws : PolicyLaws api) (namespace name : Text) where
  abbrev policy : api.Store → List Text
  policy s = laws.principals s namespace name

  module _ (m : Revoked) (s : api.Store) (id : Text) where
    abbrev after : Revocation api
    after = revoke_in_mesh api namespace name m s id

    -- A call that patched appended exactly this principal, which the dedupe set did not hold
    -- before and holds now.
    pub revoke_patched :
        after.outcome ≡ done true
        → (policy after.policies ≡ policy s ++ principal_of id ∷ [])
          × (contains m (principal_of id) ≡ false)
          × (after.revoked ≡ principal_of id ∷ m)
    unfolding revoke_in_mesh load_or_store
    revoke_patched h =
        let (body, e) = marshal-add (principal_of id) in
        ground (arith, e, laws.accepts s namespace name (principal_of id) body e)

    -- A call that was a duplicate changed nothing, and the dedupe set held the principal.
    pub revoke_deduped :
        after.outcome ≡ done false
        → (after.policies ≡ s) × (contains m (principal_of id) ≡ true) × (after.revoked ≡ m)
    unfolding revoke_in_mesh load_or_store
    revoke_deduped h = let (body, e) = marshal-add (principal_of id) in ground (arith, e)

    pub revoke_failed :
        (e : MeshError)
        → after.outcome ≡ failed e
        → (policy after.policies ≡ policy s)
          ⊎ (policy after.policies ≡ policy s ++ principal_of id ∷ [])
    unfolding revoke_in_mesh load_or_store
    revoke_failed e h =
        let (body, b) = marshal-add (principal_of id) in
        ground (arith, b, laws.refuses s namespace name (principal_of id) body)

    -- A call for a SPIFFE ID fails only behind LoadOrStore, which stored a new key.
    pub revoke_failed_new :
        (e : MeshError)
        → IsSpiffe id
        → after.outcome ≡ failed e
        → contains m (principal_of id) ≡ false
    unfolding revoke_in_mesh load_or_store
    revoke_failed_new e v h = let (body, b) = marshal-add (principal_of id) in ground (arith, b)

    -- A new principal whose PATCH is accepted is revoked by this call.
    pub revoke_fresh :
        (body : Text)
        → IsSpiffe id
        → contains m (principal_of id) ≡ false
        → marshal (add_principal (principal_of id) ∷ []) ≡ some body
        → (api.patch s namespace name body).1 ≡ none
        → after.outcome ≡ done true
    unfolding revoke_in_mesh load_or_store
    revoke_fresh body v new b ok = ground arith

    -- A call that returned without an error leaves the subject denied: its principal is in the
    -- policy, whether this call appended it or an earlier one did.
    pub revoke_denies :
        (b : Bool)
        → InSync (policy s) m
        → after.outcome ≡ done b
        → contains (policy after.policies) (principal_of id) ≡ true
    revoke_denies true sync h =
        rw (revoke_patched h).0 (contains-append_self (policy s) (principal_of id))
    revoke_denies false sync h =
        let (same, held, _) = revoke_deduped h in rw same (sync (principal_of id) held)

    policy_grows_by :
        (o : Outcome) (q : Text)
        → after.outcome ≡ o
        → contains (policy s) q ≡ true
        → contains (policy after.policies) q ≡ true
    policy_grows_by (done true) q h k =
        rw (revoke_patched h).0 (contains-append_mono (policy s) (principal_of id) q k)
    policy_grows_by (done false) q h k = rw (revoke_deduped h).0 k
    policy_grows_by (failed e) q h k = elim (revoke_failed e h) [
      | inl same ↦ rw same k
      | inr added ↦ rw added (contains-append_mono (policy s) (principal_of id) q k)
    ]

    -- No call takes a principal out of the policy.
    pub policy_grows :
        (q : Text) → contains (policy s) q ≡ true → contains (policy after.policies) q ≡ true
    policy_grows q h = policy_grows_by after.outcome q refl h

    InSync-by :
        (o : Outcome)
        → after.outcome ≡ o
        → InSync (policy s) m
        → InSync (policy after.policies) after.revoked
    InSync-by (done true) h sync q k =
        let (added, _, stored) = revoke_patched h in
        ground (
          arith,
          added,
          stored,
          sync q,
          contains-cons m (principal_of id) q,
          contains-append (policy s) (principal_of id) q,
        )
    InSync-by (done false) h sync q k =
        let (same, _, kept) = revoke_deduped h in rw same (sync q (rw kept at k))
    InSync-by (failed e) h sync q k =
        policy_grows q (sync q (rw (revoked-revoke_failed api namespace name m s id e h) at k))

    -- The dedupe set stays within the policy on every branch, errors included.
    pub revoke-InSync : InSync (policy s) m → InSync (policy after.policies) after.revoked
    revoke-InSync sync = InSync-by after.outcome refl sync
