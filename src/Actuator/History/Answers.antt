-- ===== src/Actuator/History/Answers.antt =====
-- cmd/actuator: what the answers of a life of the process depend on.
use ebpf_ssf_broker.Base.{
  ◌≡◌, refl, ap, subst, inl, inr, List, [], ◌∷◌, Bool-cases, Option-cases, Text, text_eq,
}
use ebpf_ssf_broker.Go.Http.{method_post, Request, Response}
use ebpf_ssf_broker.Caep.Set.{SetClaims}
use ebpf_ssf_broker.Caep.Jwt.{decode_unsigned}
use ebpf_ssf_broker.Actuator.Dedupe.Once.{length-same}
use ebpf_ssf_broker.Actuator.Race.Invariant.{NoDup}
use ebpf_ssf_broker.Actuator.Mesh.{revoke_in_mesh, Outcome, done, failed}
use ebpf_ssf_broker.Actuator.Labels.{remove_spire_label}
use ebpf_ssf_broker.Actuator.Events.{
  clocks_of, refuse, conclude, mesh_part, joined, actuate, events_handler, Deps, Now, State,
  Handled,
}
use ebpf_ssf_broker.Actuator.Spans.{Clocks, MetricCall}
use ebpf_ssf_broker.Actuator.Reset.{cleared_response, reset_dedupe_handler}
use ebpf_ssf_broker.Actuator.Reset.Laws.{reset_dedupe_handler_lem}
use ebpf_ssf_broker.Actuator.History.{event, reset_dedupe, handle, history, Input}
use ebpf_ssf_broker.Actuator.History.Keys.{
  answer, answers, view, view-AreAlike, AreAlike-view, SameRevocation-revoke, AreAlike,
  SameRevocation,
}

module _ (d : Deps) where
  record SameHandled (h k : Handled d) : Type 0 where
    alike : AreAlike d h.state k.state
    response : h.response ≡ k.response

  module _ (s t : State d) (a : AreAlike d s t) where
    refused :
        (calls : List MetricCall) (r : Response)
        → SameHandled (refuse d s calls r) (refuse d t calls r)
    refused calls r = record { alike = a; response = refl }

  concluded :
      (s t : State d) (claims : SetClaims) (c : Clocks) (o : Outcome)
      → AreAlike d s t
      → SameHandled (conclude d claims c s o) (conclude d claims c t o)
  unfolding conclude
  concluded s t claims c (failed e) a = refused s t a _ _
  concluded s t claims c (done b) a = record { alike = a; response = refl }

  module _ (s t : State d) (a : AreAlike d s t) where
    same_mesh : (subject : Text) → SameRevocation d (mesh_part d s subject) (mesh_part d t subject)
    same_mesh subject =
        subst
          (λ x.
            SameRevocation d (mesh_part d s subject)
              (revoke_in_mesh d.policy_api d.namespace d.policy_name t.revoked x subject))
          a.policies
          (SameRevocation-revoke d s.revoked t.revoked a.same a.once_left a.once_right s.policies
            subject)

    joined_alike : (subject : Text) → AreAlike d (joined d s subject) (joined d t subject)
    joined_alike subject =
        let r = same_mesh subject in
        record {
          same = r.same;
          once_left = r.once_left;
          once_right = r.once_right;
          policies = r.policies;
          pods = ap (λ x. (remove_spire_label d.pod_api x subject).pods) a.pods;
        }

    actuated :
        (claims : SetClaims) (c : Clocks)
        → SameHandled
            (conclude d claims c
              (joined d s claims.sub_id.uri)
              (mesh_part d s claims.sub_id.uri).outcome)
            (conclude d claims c
              (joined d t claims.sub_id.uri)
              (mesh_part d t claims.sub_id.uri).outcome)
    actuated claims c =
        let subject = claims.sub_id.uri in
        subst
          (λ o.
            SameHandled (conclude d claims c (joined d s subject) (mesh_part d s subject).outcome)
              (conclude d claims c (joined d t subject) o))
          (same_mesh subject).outcome
          (concluded (joined d s subject) (joined d t subject) claims c
            (mesh_part d s subject).outcome (joined_alike subject))

    handled_alike :
        (now : Now) (req : Request)
        → SameHandled (events_handler d now req s) (events_handler d now req t)
    unfolding events_handler
    handled_alike now req = elim (Bool-cases (text_eq req.method method_post)) [
      | inr wrong ↦ rw wrong (refused s t a _ _)
      | inl post ↦ elim (Option-cases req.body) [
        | inl broken ↦ rw (post, broken) (refused s t a _ _)
        | inr (body, read) ↦ elim (Option-cases (decode_unsigned d.jwt body)) [
          | inl bad ↦ rw (post, read, bad) (refused s t a _ _)
          | inr (claims, decoded) ↦
              rw (post, read, decoded)
                (unfold actuate in actuated claims (clocks_of now req.headers claims))
        ]
      ]
    ]

    reset_alike :
        (req : Request)
        → AreAlike d
            (record s { revoked = (reset_dedupe_handler req s.revoked).0 })
            (record t { revoked = (reset_dedupe_handler req t.revoked).0 })
          × ((reset_dedupe_handler req s.revoked).1 ≡ (reset_dedupe_handler req t.revoked).1)
    reset_alike req = elim (Bool-cases (text_eq req.method method_post)) [
      | inl post ↦
          rw (reset_dedupe_handler_lem req s.revoked, reset_dedupe_handler_lem req t.revoked, post)
            (
              record {
                same = λ q. refl;
                once_left = tt;
                once_right = tt;
                policies = a.policies;
                pods = a.pods;
              },
              ap cleared_response (length-same s.revoked t.revoked a.once_left a.once_right a.same),
            )
      | inr other ↦
          rw (reset_dedupe_handler_lem req s.revoked, reset_dedupe_handler_lem req t.revoked, other)
            (a, refl)
    ]

    answer_alike :
        (i : Input) → AreAlike d (handle d s i) (handle d t i) × (answer d s i ≡ answer d t i)
    unfolding handle answer
    answer_alike (event now req) = let h = handled_alike now req in (h.alike, h.response)
    answer_alike (reset_dedupe req) = reset_alike req

  answers_alike :
      (is : List Input) (s t : State d)
      → AreAlike d s t
      → AreAlike d (history d s is) (history d t is) × (answers d s is ≡ answers d t is)
  unfolding history answers
  answers_alike [] s t a = (a, refl)
  answers_alike (i ∷ is) s t a =
      let (after, same) = answer_alike s t a i in
      let (end, rest) = answers_alike is (handle d s i) (handle d t i) after in
      (end, λ k. same k ∷ rest k)

  -- In what order the sync.Map holds its keys cannot be seen: from two states that are equal when
  -- the dedupe set is taken as the set of its keys, each held once, the same requests and resets get
  -- the same responses, the count of the keys that a reset cleared among them, and leave states that
  -- are equal in the same sense.
  pub answers-view :
      (s t : State d) (is : List Input)
      → NoDup s.revoked
      → NoDup t.revoked
      → view d s ≡ view d t
      → (answers d s is ≡ answers d t is) × (view d (history d s is) ≡ view d (history d t is))
  answers-view s t is once_s once_t e =
      let (end, same) = answers_alike is s t (AreAlike-view d s t once_s once_t e) in
      (same, view-AreAlike d (history d s is) (history d t is) end)
