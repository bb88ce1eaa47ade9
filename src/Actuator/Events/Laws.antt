-- ===== src/Actuator/Events/Laws.antt =====
-- cmd/actuator/main.go: eventsHandler by its courses, what it counts, and how it answers a revocation.
use ebpf_ssf_broker.Base.{
  suc, ◌≡◌, refl, ap, inl, inr, Bool, true, false, ◌&&◌, none, some, [], ◌∷◌, if◌then◌else◌,
  Bool-cases, Option-cases, Text, codes, text_eq,
}
use ebpf_ssf_broker.Go.Http.{method_post, status_accepted, status_bad_request, http_error, Request}
use ebpf_ssf_broker.Actuator.Spans.{Clocks, inc_events}
use ebpf_ssf_broker.Actuator.Events.{
  result_failed, not_allowed, clocks_of, refuse, conclude, mesh_part, joined, events_handler, Deps,
  Now, State, Handled,
}
use ebpf_ssf_broker.Caep.Set.{SetClaims}
use ebpf_ssf_broker.Caep.Jwt.{decode_unsigned}
use ebpf_ssf_broker.Actuator.Spans.Laws.{counted, counted-observe_spans}
use ebpf_ssf_broker.Actuator.Mesh.{Outcome, done, failed}

-- The five courses that a request can take, each with what decides it and what it leaves.
pub data Course (d : Deps) (now : Now) (req : Request) (st : State d) (h : Handled d) : Type 1 where
  wrong_method :
      text_eq req.method method_post ≡ false
      → h ≡ refuse d st [] not_allowed
      → Course d now req st h
  unread :
      text_eq req.method method_post ≡ true
      → req.body ≡ none
      → h ≡ refuse d st [] (http_error [] (codes "cannot read body") status_bad_request)
      → Course d now req st h
  undecodable :
      (body : Text)
      → text_eq req.method method_post ≡ true
      → req.body ≡ some body
      → decode_unsigned d.jwt body ≡ none
      → h
        ≡ refuse d st
            (inc_events result_failed ∷ [])
            (http_error [] (codes "malformed SET") status_bad_request)
      → Course d now req st h
  acted :
      (body : Text) (claims : SetClaims)
      → text_eq req.method method_post ≡ true
      → req.body ≡ some body
      → decode_unsigned d.jwt body ≡ some claims
      → h
        ≡ conclude d claims
            (clocks_of now req.headers claims)
            (joined d st claims.sub_id.uri)
            (mesh_part d st claims.sub_id.uri).outcome
      → Course d now req st h

module _ (d : Deps) (now : Now) (req : Request) (st : State d) where
  abbrev handled : Handled d
  handled = events_handler d now req st

  pub course : Course d now req st handled
  unfolding events_handler
  course = elim (Bool-cases (text_eq req.method method_post)) [
    | inr other ↦ wrong_method other (rw other)
    | inl post ↦ elim (Option-cases req.body) [
      | inl broken ↦ unread post broken (rw (post, broken))
      | inr (body, read) ↦ elim (Option-cases (decode_unsigned d.jwt body)) [
        | inl bad ↦ undecodable body post read bad (rw (post, read, bad))
        | inr (claims, decoded) ↦ acted body claims post read decoded (rw (post, read, decoded))
      ]
    ]
  ]

-- The body of a POST arrived.
abbrev pub arrived : Request → Bool
arrived req = text_eq req.method method_post && elim req.body [ none ↦ false | some b ↦ true ]

module _ (d : Deps) (now : Now) (req : Request) (st : State d) where
  counted-conclude :
      (claims : SetClaims) (c : Clocks) (st' : State d) (o : Outcome)
      → counted (conclude d claims c st' o).metrics ≡ 1
  unfolding conclude
  counted-conclude claims c st' (failed e) = refl
  counted-conclude claims c st' (done true) = ap suc (counted-observe_spans c)
  counted-conclude claims c st' (done false) = refl

  counted_by :
      {h : Handled d} → Course d now req st h → counted h.metrics ≡ (if arrived req then 1 else 0)
  counted_by (wrong_method m e) = rw (e, m)
  counted_by (unread m b e) = rw (e, m, b)
  counted_by (undecodable body m b c e) = rw (e, m, b)
  counted_by (acted body claims m b c e) =
      rw (e, m, b)
        (counted-conclude claims (clocks_of now req.headers claims) (joined d st claims.sub_id.uri)
          (mesh_part d st claims.sub_id.uri).outcome)

  -- Every POST whose body was read is counted exactly once by the events counter, and no other
  -- request is counted.
  pub counted-events_handler :
      counted (events_handler d now req st).metrics ≡ (if arrived req then 1 else 0)
  counted-events_handler = counted_by (course d now req st)

  -- A SET whose principal the mesh part appends is answered by 202.
  pub answer_patched :
      (body : Text) (claims : SetClaims)
      → text_eq req.method method_post ≡ true
      → req.body ≡ some body
      → decode_unsigned d.jwt body ≡ some claims
      → (mesh_part d st claims.sub_id.uri).outcome ≡ done true
      → ((events_handler d now req st).response.status ≡ status_accepted)
        × ((events_handler d now req st).state ≡ joined d st claims.sub_id.uri)
  unfolding events_handler
  answer_patched body claims post read decoded o = rw (post, read, decoded, o) (refl, refl)
