-- ===== src/Actuator/Server/Fits.antt =====
-- cmd/actuator/main.go: where a request stands, and where its call of revokeInMesh does.
use ebpf_ssf_broker.Base.{
  ℕ, ◌≡◌, refl, sym, subst, ◌⊎◌, inl, inr, true, false, Option, none, some, [], ◌∷◌, Bool-cases,
  Option-cases, Text, codes, text_eq,
}
use ebpf_ssf_broker.Actuator.Spans.{inc_events}
use ebpf_ssf_broker.Actuator.Events.Laws.{arrived}
use ebpf_ssf_broker.Go.Http.{
  method_post, status_accepted, status_bad_request, status_method_not_allowed,
  status_internal_server_error, http_error, Request, Response,
}
use ebpf_ssf_broker.Caep.Set.{SetClaims}
use ebpf_ssf_broker.Caep.Jwt.{decode_unsigned}
use ebpf_ssf_broker.Actuator.Mesh.{Outcome, done, failed}
use ebpf_ssf_broker.Actuator.Events.{result_failed, not_allowed, clocks_of, conclude, Deps, State}
use ebpf_ssf_broker.Actuator.Goroutines.{
  MeshAt, at_check, at_patch, at_delete, mesh_returned, LabelAt, at_list, at_pods, label_returned,
}
use ebpf_ssf_broker.Actuator.Server.{
  arriving, waiting, reporting, answered, begin_request, wait, RequestAt, Incoming,
}

module _ (d : Deps) where
  -- The SET of a request.
  abbrev pub Carries : Incoming → SetClaims → Type 0
  Carries r claims =
      (body : Text) × (r.request.body ≡ some body) × (decode_unsigned d.jwt body ≡ some claims)

  -- The request is an event: a POST that carries the SET.
  abbrev pub IsEvent : Incoming → SetClaims → Type 0
  IsEvent r claims = Carries r claims × (text_eq r.request.method method_post ≡ true)

  subject_decoded : Option SetClaims → Text
  subject_decoded none = []
  subject_decoded (some claims) = claims.sub_id.uri

  subject_read : Option Text → Text
  unfolding subject_decoded
  subject_read none = []
  subject_read (some body) = subject_decoded (decode_unsigned d.jwt body)

  -- The subject that a request names.
  unfoldable pub subject_in : Incoming → Text
  unfolding subject_read
  subject_in r = subject_read r.request.body

  pub subject_in-Carries :
      (r : Incoming) (claims : SetClaims) → Carries r claims → subject_in r ≡ claims.sub_id.uri
  unfolding subject_in
  subject_in-Carries r claims (body, b, c) = rw (b, c) refl

  -- The status that an outcome is answered with.
  abbrev pub status_of : Outcome → ℕ
  status_of (done b) = status_accepted
  status_of (failed e) = status_internal_server_error

  -- The response of a request whose call of revokeInMesh stands there.
  pub data Told (r : Incoming) (a : MeshAt) (status : ℕ) : Type 0 where
    refused :
        a ≡ at_check
        → (status ≡ status_bad_request) ⊎ (status ≡ status_method_not_allowed)
        → ((claims : SetClaims) → ¬ (IsEvent r claims))
        → Told r a status
    told :
        (claims : SetClaims) (o : Outcome)
        → Carries r claims
        → a ≡ mesh_returned o
        → status ≡ status_of o
        → Told r a status

  -- The call of revokeInMesh stands where the request has it.
  abbrev pub Fits : Incoming → RequestAt → MeshAt → Type 0
  Fits r arriving a = a ≡ at_check
  Fits r (waiting claims a' b) a = Carries r claims × (a ≡ a')
  Fits r (reporting calls response) a = Told r a response.status
  Fits r (answered response) a = Told r a response.status

  pub begin_waiting :
      (req : Request) (body : Text) (claims : SetClaims)
      → text_eq req.method method_post ≡ true
      → req.body ≡ some body
      → decode_unsigned d.jwt body ≡ some claims
      → begin_request d req ≡ waiting claims at_check at_list
  unfolding begin_request
  begin_waiting req body claims post read decoded = rw (post, read, decoded) refl

  -- How a handler can begin: it turns the request away, counts it as failed, or starts the two
  -- goroutines.
  pub data Begun (r : Incoming) : RequestAt → Type 0 where
    turned_away :
        (response : Response)
        → arrived r.request ≡ false
        → (response.status ≡ status_bad_request) ⊎ (response.status ≡ status_method_not_allowed)
        → Begun r (reporting [] response)
    malformed :
        (response : Response)
        → arrived r.request ≡ true
        → response.status ≡ status_bad_request
        → ((claims : SetClaims) → ¬ (Carries r claims))
        → Begun r (reporting (inc_events result_failed ∷ []) response)
    started :
        (claims : SetClaims)
        → arrived r.request ≡ true
        → Carries r claims
        → Begun r (waiting claims at_check at_list)

  undecoded :
      (r : Incoming) (body : Text)
      → r.request.body ≡ some body
      → decode_unsigned d.jwt body ≡ none
      → (claims : SetClaims) → ¬ (Carries r claims)
  undecoded r body read bad claims (body', b, c) = cc

  pub begun : (r : Incoming) → Begun r (begin_request d r.request)
  unfolding begin_request
  begun r = elim (Bool-cases (text_eq r.request.method method_post)) [
    | inr other ↦ rw other (turned_away not_allowed (rw other refl) (inr refl))
    | inl post ↦ elim (Option-cases r.request.body) [
      | inl broken ↦
          simp (post, broken)
            (turned_away (http_error [] (codes "cannot read body") status_bad_request)
              (rw (post, broken) refl) (inl refl))
      | inr (body, read) ↦ elim (Option-cases (decode_unsigned d.jwt body)) [
        | inl bad ↦
            simp (post, read, bad)
              (malformed (http_error [] (codes "malformed SET") status_bad_request)
                (rw (post, read) refl) refl (undecoded r body read bad))
        | inr (claims, decoded) ↦
            subst (Begun r) (sym (begin_waiting r.request body claims post read decoded))
              (started claims (rw (post, read) refl) (body, read, decoded))
      ]
    ]
  ]

  not_event :
      (r : Incoming) → arrived r.request ≡ false → (claims : SetClaims) → ¬ (IsEvent r claims)
  not_event r a claims ((body, b, c), post) =
      let came : arrived r.request ≡ true = rw (post, b) refl in cc

  pub Fits-begun : (r : Incoming) {x : RequestAt} → Begun r x → Fits r x at_check
  Fits-begun r (turned_away response a s) = refused refl s (not_event r a)
  Fits-begun r (malformed response a s bad) =
      refused refl (inl s) (λ claims event. bad claims event.0)
  Fits-begun r (started claims a c) = (c, refl)

  status-report :
      (r : Incoming) (claims : SetClaims) (st : State d) (o : Outcome)
      → (conclude d claims (clocks_of r.now r.request.headers claims) st o).response.status
        ≡ status_of o
  unfolding conclude
  status-report r claims st (done b) = refl
  status-report r claims st (failed e) = refl

  pub Fits-wait :
      (r : Incoming) (st : State d) (claims : SetClaims) (a : MeshAt) (b : LabelAt)
      → Carries r claims
      → Fits r (wait d r st claims a b) a
  unfolding wait
  Fits-wait r st claims (mesh_returned o) (label_returned n errs) c =
      told claims o c refl (status-report r claims st o)
  Fits-wait r st claims (mesh_returned o) at_list c = (c, refl)
  Fits-wait r st claims (mesh_returned o) (at_pods ns sa pods n errs) c = (c, refl)
  Fits-wait r st claims at_check b c = (c, refl)
  Fits-wait r st claims (at_patch body) b c = (c, refl)
  Fits-wait r st claims (at_delete e) b c = (c, refl)
