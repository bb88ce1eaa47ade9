-- ===== src/Actuator/History/Keys.antt =====
-- cmd/actuator: the answers of a life of the process depend on the dedupe set as a set only.
use mathlib.Core.Quot
use mathlib.Core.Quot.{Quot}
use ebpf_ssf_broker.Base.{
  ◌≡◌, refl, sym, ap, ◌∙◌, inl, inr, false, ◌||◌, Option, none, some, List, [], ◌∷◌, Bool-cases,
  Text, text_eq, is_empty, contains,
}
use ebpf_ssf_broker.Actuator.Dedupe.Once.{NoDup-delete}
use ebpf_ssf_broker.Go.Http.{Response}
use ebpf_ssf_broker.Actuator.Dedupe.Keys.{
  SameKeys, KeySet, SameKeys-cons, SameKeys-delete, same_keys,
}
use ebpf_ssf_broker.Actuator.Race.Invariant.{NoDup}
use ebpf_ssf_broker.Actuator.Events.{events_handler, Deps, State}
use ebpf_ssf_broker.Actuator.Reset.{reset_dedupe_handler}
use ebpf_ssf_broker.Actuator.History.{event, reset_dedupe, handle, Input}
use ebpf_ssf_broker.Actuator.Dedupe.{Revoked, load_or_store}
use ebpf_ssf_broker.Actuator.Mesh.{
  finish_patch, revoke_in_mesh, not_spiffe_id, done, failed, Revocation,
}
use ebpf_ssf_broker.Actuator.Mesh.Laws.{principal_of, marshal-add}

module _ (d : Deps) where
  -- What a request is answered with.
  unfoldable pub answer : State d → Input → Response
  answer st (event now req) = (events_handler d now req st).response
  answer st (reset_dedupe req) = (reset_dedupe_handler req st.revoked).1

  unfoldable pub answers : State d → List Input → List Response
  unfolding answer
  answers st [] = []
  answers st (i ∷ is) = answer st i ∷ answers (handle d st i) is

  -- The state, with the dedupe set as a set: in what order the sync.Map holds its keys is forgotten.
  pub record View : Type 0 where
    pub keys : KeySet
    pub policies : d.policy_api.Store
    pub pods : d.pod_api.Store

  abbrev pub view : State d → View
  view st = record { keys = Quot.mk st.revoked; policies = st.policies; pods = st.pods }

  -- Two states that hold the same keys, each once, and the same cluster.
  pub record AreAlike (s t : State d) : Type 0 where
    pub same : SameKeys s.revoked t.revoked
    pub once_left : NoDup s.revoked
    pub once_right : NoDup t.revoked
    pub policies : s.policies ≡ t.policies
    pub pods : s.pods ≡ t.pods

  pub view-AreAlike : (s t : State d) → AreAlike s t → view s ≡ view t
  view-AreAlike s t a =
      λ i. record { keys = Quot.sound a.same i; policies = a.policies i; pods = a.pods i }

  pub AreAlike-view :
      (s t : State d) → NoDup s.revoked → NoDup t.revoked → view s ≡ view t → AreAlike s t
  AreAlike-view s t once_s once_t e = record {
    same = same_keys s.revoked t.revoked (ap (λ (v : View). v.keys) e);
    once_left = once_s;
    once_right = once_t;
    policies = ap (λ (v : View). v.policies) e;
    pods = ap (λ (v : View). v.pods) e;
  }

  -- What revokeInMesh makes of two dedupe sets with the same keys.
  pub record SameRevocation (r q : Revocation d.policy_api) : Type 0 where
    pub same : SameKeys r.revoked q.revoked
    pub once_left : NoDup r.revoked
    pub once_right : NoDup q.revoked
    pub policies : r.policies ≡ q.policies
    pub outcome : r.outcome ≡ q.outcome

  module _ (m n : Revoked) (same : SameKeys m n) (once_m : NoDup m) (once_n : NoDup n)
      (s : d.policy_api.Store) where
    SameRevocation-finish :
        (p : Text) (o : d.policy_api.Store × Option Text)
        → contains m p ≡ false
        → SameRevocation
            (finish_patch d.policy_api d.namespace d.policy_name p (p ∷ m) o)
            (finish_patch d.policy_api d.namespace d.policy_name p (p ∷ n) o)
    unfolding finish_patch
    SameRevocation-finish p (t, none) new = record {
      same = SameKeys-cons p m n same;
      once_left = (new, once_m);
      once_right = (sym (same p) ∙ new, once_n);
      policies = refl;
      outcome = refl;
    }
    SameRevocation-finish p (t, some e) new = record {
      same = SameKeys-delete p (p ∷ m) (p ∷ n) (SameKeys-cons p m n same);
      once_left = NoDup-delete (p ∷ m) p (new, once_m);
      once_right = NoDup-delete (p ∷ n) p (sym (same p) ∙ new, once_n);
      policies = refl;
      outcome = refl;
    }

    pub SameRevocation-revoke :
        (id : Text)
        → SameRevocation
            (revoke_in_mesh d.policy_api d.namespace d.policy_name m s id)
            (revoke_in_mesh d.policy_api d.namespace d.policy_name n s id)
    unfolding revoke_in_mesh load_or_store
    SameRevocation-revoke id =
        elim (Bool-cases (text_eq (principal_of id) id || is_empty (principal_of id))) [
          | inl other ↦ rw other kept
          | inr good ↦ elim (Bool-cases (contains m (principal_of id))) [
            | inl held ↦ rw (good, held, sym (same (principal_of id)) ∙ held) kept_held
            | inr new ↦
                let (body, written) = marshal-add (principal_of id) in
                rw (good, new, sym (same (principal_of id)) ∙ new, written)
                  (SameRevocation-finish (principal_of id)
                    (d.policy_api.patch s d.namespace d.policy_name body) new)
          ]
        ]
      where
        kept :
            SameRevocation
              (record { revoked = m; policies = s; outcome = failed (not_spiffe_id id) })
              (record { revoked = n; policies = s; outcome = failed (not_spiffe_id id) })
        kept = record {
          same = same;
          once_left = once_m;
          once_right = once_n;
          policies = refl;
          outcome = refl;
        }

        kept_held :
            SameRevocation
              (record { revoked = m; policies = s; outcome = done false })
              (record { revoked = n; policies = s; outcome = done false })
        kept_held = record {
          same = same;
          once_left = once_m;
          once_right = once_n;
          policies = refl;
          outcome = refl;
        }
