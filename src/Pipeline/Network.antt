-- ===== src/Pipeline/Network.antt =====
-- A network between the translator and the actuator, which handles the requests of others at once.
use ebpf_ssf_broker.Base.{
  ℕ, ◌≡◌, refl, sym, ap, ◌∙◌, inl, inr, none, some, List, [], ◌++◌, append-nil, append_assoc,
  Bool-cases, Option-cases, Text,
}
use ebpf_ssf_broker.Translator.Post.Laws.{post_set-none_iff}
use ebpf_ssf_broker.Translator.Loop.Laws.{world-handle_message}
use ebpf_ssf_broker.Caep.Jwt.{Jwt}
use ebpf_ssf_broker.Translator.Loop.{handle_message, GetEventsResponse, Round}
use ebpf_ssf_broker.Translator.Post.{set_request, post_set, Transport}
use ebpf_ssf_broker.Actuator.Events.{Deps}
use ebpf_ssf_broker.Actuator.Registry.{Client}
use ebpf_ssf_broker.Actuator.Server.{just_started, serve_slices, Slice, answered, Incoming}
use ebpf_ssf_broker.Go.Clock.{Time}
use ebpf_ssf_broker.Go.Http.{status_accepted, Request, Response}

-- The process of the actuator behind a network, from its start on: the requests that it ever gets,
-- of the translator and of others, and the schedule that it has run so far. While the translator
-- waits for a response, the goroutines of all requests run, and resets come. Nothing is said of
-- where the other requests stand when the response comes, nor of what an unanswered request did.
pub record Network (d : Deps) (p : Client) (policies : d.policy_api.Store) (pods : d.pod_api.Store)
    (tr : Transport) : Type 1 where
  pub incoming : ℕ → Incoming
  pub trace : tr.World → List Slice
  pub responds :
      (w : tr.World) (url : Text) (req : Request) (resp : Response)
      → (tr.round_trip w url req).1 ≡ some resp
      → (es : List Slice) × (i : ℕ) × ((incoming i).request ≡ req)
        × (trace (tr.round_trip w url req).0 ≡ trace w ++ es)
        × ((serve_slices d p incoming
                (trace (tr.round_trip w url req).0)
                (just_started d p policies pods)).at
              i
            ≡ answered resp)
  pub loses :
      (w : tr.World) (url : Text) (req : Request)
      → (tr.round_trip w url req).1 ≡ none
      → (es : List Slice) × (trace (tr.round_trip w url req).0 ≡ trace w ++ es)

-- What it takes for postSet to return no error.
pub posted_accepted :
    (tr : Transport) (t1 t3 : Time) (w : tr.World) (url token : Text)
    → (post_set tr t3 w url token t1).error ≡ none
    → (resp : Response) × ((tr.round_trip w url (set_request token t1 t3)).1 ≡ some resp)
      × (resp.status ≡ status_accepted)
      × ((post_set tr t3 w url token t1).world ≡ (tr.round_trip w url (set_request token t1 t3)).0)
posted_accepted tr t1 t3 w url token h =
    let (ok, answer) = (post_set-none_iff tr t1 t3 w url token).0 h in
    let (resp, got, accepted) = answer in (resp, got, accepted, unfold post_set in rw ok refl)

module _ (d : Deps) (p : Client) (policies : d.policy_api.Store) (pods : d.pod_api.Store)
    (tr : Transport) (net : Network d p policies pods tr) (jwt : Jwt) (url : Text) where
  open net use {trace}

  -- Some slices that the process ran in between.
  abbrev pub IsLater : tr.World → tr.World → Type 0
  IsLater w w' = (es : List Slice) × (trace w' ≡ trace w ++ es)

  pub IsLater-refl : (w : tr.World) → IsLater w w
  IsLater-refl w = ([], sym (append-nil (trace w)))

  pub IsLater-trans : (u : tr.World) {v w : tr.World} → IsLater u v → IsLater v w → IsLater u w
  IsLater-trans u (es, e) (fs, k) =
      (es ++ fs, k ∙ ap (λ l. l ++ fs) e ∙ append_assoc (trace u) es fs)

  IsLater-round_trip : (w : tr.World) (req : Request) → IsLater w (tr.round_trip w url req).0
  IsLater-round_trip w req = elim (Option-cases (tr.round_trip w url req).1) [
    | inl lost ↦ net.loses w url req lost
    | inr (resp, got) ↦ let (es, _, _, on, _) = net.responds w url req resp got in (es, on)
  ]

  IsLater-post_set :
      (t1 t3 : Time) (w : tr.World) (token : Text) → IsLater w (post_set tr t3 w url token t1).world
  unfolding post_set
  IsLater-post_set t1 t3 w token = elim (Bool-cases (tr.accepts_url url)) [
    | inl ok ↦ rw ok (IsLater-round_trip w (set_request token t1 t3))
    | inr bad ↦ rw bad (IsLater-refl w)
  ]

  -- A message leaves what some slices leave.
  pub IsLater-handle_message :
      (r : Round) (w : tr.World) (res : GetEventsResponse)
      → IsLater w (handle_message jwt tr url r w res).0
  IsLater-handle_message r w res = elim (world-handle_message jwt tr url r w res) [
    | inl same ↦ rw same (IsLater-refl w)
    | inr (token, left) ↦ rw left (IsLater-post_set r.recv r.t3 w token)
  ]
