-- ===== src/Actuator/Race/Alone.antt =====
-- cmd/actuator: revokeInMesh run alone, against the atomic steps, and a schedule of two calls.
use ebpf_ssf_broker.Base.{
  ◌≡◌, refl, ap, ◌∙◌, subst, inl, inr, true, false, List, [], ◌∷◌, ◌++◌, append_assoc, arith, Text,
  text_eq_refl, contains, contains_self,
}
use ebpf_ssf_broker.Actuator.Dedupe.{Revoked, load_or_store, contains-delete, delete_added}
use ebpf_ssf_broker.Actuator.Mesh.{revoke_in_mesh, PolicyApi, Outcome, done, failed, Revocation}
use ebpf_ssf_broker.Actuator.Race.{
  stored, held, accepted, rejected, lost, dropped, act, begin, next, Pc, entry, patched, duplicate,
  gave_up, Shared, Move, System, Reach,
}
use ebpf_ssf_broker.Actuator.Mesh.Laws.{
  principal_of, revoked-revoke_failed, IsSpiffe, revoke_patched, revoke_deduped, revoke_failed,
  revoke_failed_new, PolicyLaws,
}

-- The steps of one call.
pub data Moves (p : Text) (s : Shared) (c : Pc) : Shared → Pc → Type 0 where
  stay : Moves p s c s c
  then_move :
      {s' s'' : Shared} {c' c'' : Pc}
      → Moves p s c s' c'
      → Move true p s' c' s'' c''
      → Moves p s c s'' c''

-- The place at which a result returns.
abbrev pub pc_of : Outcome → Pc
pc_of (done true) = patched
pc_of (done false) = duplicate
pc_of (failed e) = gave_up

pub load_or_store_new :
    (m : Revoked) (p : Text) → contains m p ≡ false → load_or_store m p ≡ (p ∷ m, false)
unfolding load_or_store
load_or_store_new m p h = rw h

pub load_or_store_held :
    (m : Revoked) (p : Text) → contains m p ≡ true → load_or_store m p ≡ (m, true)
unfolding load_or_store
load_or_store_held m p h = rw h

module _ (m : Revoked) (a : List Text) (p : Text) where
  abbrev before : Shared
  before = record { revoked = m; appended = a }

  patched_run :
      contains m p ≡ false
      → Moves p before entry (record { revoked = p ∷ m; appended = a ++ p ∷ [] }) patched
  patched_run new = then_move (then_move stay (stored (load_or_store_new m p new))) accepted

  held_run : contains m p ≡ true → Moves p before entry before duplicate
  held_run old = then_move stay (held (load_or_store_held m p old))

  rejected_run : contains m p ≡ false → Moves p before entry before gave_up
  rejected_run new =
      subst (λ m'. Moves p before entry (record { revoked = m'; appended = a }) gave_up)
        (delete_added m p new)
        (then_move (then_move (then_move stay (stored (load_or_store_new m p new))) rejected)
          dropped)

  lost_run :
      contains m p ≡ false
      → Moves p before entry (record { revoked = m; appended = a ++ p ∷ [] }) gave_up
  lost_run new =
      subst (λ m'. Moves p before entry (record { revoked = m'; appended = a ++ p ∷ [] }) gave_up)
        (delete_added m p new)
        (then_move (then_move (then_move stay (stored (load_or_store_new m p new))) (lost refl))
          dropped)

module _ (api : PolicyApi) (laws : PolicyLaws api) (ns name : Text) (m : Revoked) (s : api.Store)
    (id : Text) (valid : IsSpiffe id) (seed a : List Text)
    (split_policy : laws.principals s ns name ≡ seed ++ a) where
  abbrev rev : Revocation api
  rev = revoke_in_mesh api ns name m s id

  -- A run of the atomic steps from the shared state before the call to the one after it, in which
  -- the policy grows by what the steps append.
  abbrev pub IsRun : Outcome → Type 0
  IsRun o =
      (a' : List Text) × Moves (principal_of id) (record { revoked = m; appended = a }) entry
        (record { revoked = rev.revoked; appended = a' }) (pc_of o)
      × (laws.principals rev.policies ns name ≡ seed ++ a')

  IsRun-of : (o : Outcome) → rev.outcome ≡ o → IsRun o
  IsRun-of (done true) e =
      let (added, new, stored_in) = revoke_patched api laws ns name m s id e in
      (
        a ++ principal_of id ∷ [],
        rw stored_in (patched_run m a (principal_of id) new),
        added
            ∙ ap (λ l. l ++ principal_of id ∷ []) split_policy
            ∙ append_assoc seed a (principal_of id ∷ []),
      )
  IsRun-of (done false) e =
      let (same, old, kept) = revoke_deduped api laws ns name m s id e in
      (
        a,
        rw kept (held_run m a (principal_of id) old),
        ap (λ t. laws.principals t ns name) same ∙ split_policy,
      )
  IsRun-of (failed f) e =
      let new = revoke_failed_new api laws ns name m s id f valid e in
      let kept = revoked-revoke_failed api ns name m s id f e in
      elim (revoke_failed api laws ns name m s id f e) [
        | inl same ↦ (a, rw kept (rejected_run m a (principal_of id) new), same ∙ split_policy)
        | inr added ↦ (
          a ++ principal_of id ∷ [],
          rw kept (lost_run m a (principal_of id) new),
          added
              ∙ ap (λ l. l ++ principal_of id ∷ []) split_policy
              ∙ append_assoc seed a (principal_of id ∷ []),
        )
      ]

  -- A call of revokeInMesh for a SPIFFE ID that nothing interrupts is a run of the atomic steps of
  -- one call, a lost answer among them: it ends at the place of its result, with the dedupe set
  -- that it leaves, and the policy grows by what the steps appended.
  pub revoke_in_mesh-refines : IsRun rev.outcome
  revoke_in_mesh-refines = IsRun-of rev.outcome refl

-- Two events for one subject at once have a schedule without a fault in which the first call
-- returns an error, as its PATCH is rejected, the second returns as a duplicate, and afterwards
-- the principal is neither appended to the policy nor in the dedupe set.
pub duplicate_undenied :
    (p : Text)
    → (s : System) × Reach (λ _. p) false s
      × (s.pc 0 ≡ gave_up)
      × (s.pc 1 ≡ duplicate)
      × (contains s.shared.appended p ≡ false)
      × (contains s.shared.revoked p ≡ false)
duplicate_undenied p = (
  _,
  next
      (next
        (next (next begin (act 0 refl (stored (load_or_store_new [] p (unfold contains in refl)))))
          (act 1 refl (held (load_or_store_held (p ∷ []) p (contains_self [] p)))))
        (act 0 refl rejected))
      (act 0 refl dropped),
  refl,
  refl,
  unfold contains in refl,
  ground (arith, contains-delete (p ∷ []) p p, text_eq_refl p),
)
