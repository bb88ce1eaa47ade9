-- ===== src/Actuator/History/Durable.antt =====
-- cmd/actuator: what an answer of eventsHandler is worth after all later requests.
use ebpf_ssf_broker.Base.{
  ◌≡◌, refl, inl, inr, true, some, List, [], ◌∷◌, ◌++◌, Bool-cases, Text, text_eq, contains,
}
use ebpf_ssf_broker.Actuator.Events.Safety.{
  accepted_denied, events_handler-InSync, denied-events_handler,
}
use ebpf_ssf_broker.Caep.Jwt.{decode_unsigned}
use ebpf_ssf_broker.Caep.Set.{SetClaims}
use ebpf_ssf_broker.Actuator.Dedupe.{Revoked}
use ebpf_ssf_broker.Actuator.Mesh.Laws.{principal_of, InSync, PolicyLaws}
use ebpf_ssf_broker.Actuator.Reset.Laws.{reset_dedupe_handler_lem}
use ebpf_ssf_broker.Actuator.Reset.{reset_dedupe_handler}
use ebpf_ssf_broker.Actuator.Events.{events_handler, Deps, Now, State}
use ebpf_ssf_broker.Go.Http.{method_post, status_accepted, Request}
use ebpf_ssf_broker.Actuator.History.{event, reset_dedupe, handle, history, Input}

module _ (d : Deps) where
  history-append :
      (st : State d) (is js : List Input) → history d st (is ++ js) ≡ history d (history d st is) js
  unfolding history
  history-append st [] js = refl
  history-append st (i ∷ is) js = history-append (handle d st i) is js

module _ (d : Deps) (laws : PolicyLaws d.policy_api) where
  abbrev policy_in : State d → List Text
  policy_in st = laws.principals st.policies d.namespace d.policy_name

  abbrev Synced : State d → Type 0
  Synced st = InSync (policy_in st) st.revoked

  denied-handle :
      (st : State d) (i : Input) (q : Text)
      → contains (policy_in st) q ≡ true
      → contains (policy_in (handle d st i)) q ≡ true
  unfolding handle
  denied-handle st (event now req) q h = denied-events_handler d now req st laws q h
  denied-handle st (reset_dedupe req) q h = h

  denied-history :
      (st : State d) (is : List Input) (q : Text)
      → contains (policy_in st) q ≡ true
      → contains (policy_in (history d st is)) q ≡ true
  unfolding history
  denied-history st [] q h = h
  denied-history st (i ∷ is) q h = denied-history (handle d st i) is q (denied-handle st i q h)

  -- A reset keeps the dedupe set or empties it.
  InSync-reset :
      (req : Request) (ps : List Text) (m : Revoked)
      → InSync ps m
      → InSync ps (reset_dedupe_handler req m).0
  InSync-reset req ps m sync =
      rw (reset_dedupe_handler_lem req m) (elim (Bool-cases (text_eq req.method method_post)) [
        | inl post ↦ rw post (λ q k. unfold contains in cc)
        | inr other ↦ rw other sync
      ])

  InSync-handle : (st : State d) (i : Input) → Synced st → Synced (handle d st i)
  unfolding handle
  InSync-handle st (event now req) sync = events_handler-InSync d now req st laws sync
  InSync-handle st (reset_dedupe req) sync = InSync-reset req (policy_in st) st.revoked sync

  InSync-history : (st : State d) (is : List Input) → Synced st → Synced (history d st is)
  unfolding history
  InSync-history st [] sync = sync
  InSync-history st (i ∷ is) sync = InSync-history (handle d st i) is (InSync-handle st i sync)

  -- From a dedupe set within the policy, an event that is answered by 202 at any point carried a
  -- SET whose principal is in the policy at any later point: behind whatever requests came before,
  -- and whatever events, failing or not, and resets follow.
  pub accepted_denied_durably :
      (st : State d) (before after : List Input) (now : Now) (req : Request)
      → InSync (policy_in st) st.revoked
      → (events_handler d now req (history d st before)).response.status ≡ status_accepted
      → (body : Text) × (claims : SetClaims) × (req.body ≡ some body)
        × (decode_unsigned d.jwt body ≡ some claims)
        × (contains
              (policy_in (history d st (before ++ event now req ∷ after)))
              (principal_of claims.sub_id.uri)
            ≡ true)
  accepted_denied_durably st before after now req sync ok =
      let then = history d st before in
      let (body, claims, b, c, k) =
        accepted_denied d now req then laws (InSync-history st before sync) ok in
      (
        body,
        claims,
        b,
        c,
        rw (history-append d st before (event now req ∷ after)) (
            unfold history handle in
            denied-history (events_handler d now req then).state after
              (principal_of claims.sub_id.uri) k),
      )
