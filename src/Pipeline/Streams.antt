-- ===== src/Pipeline/Streams.antt =====
-- A whole stream of events, while the actuator handles the requests of others at once.
use ebpf_ssf_broker.Base.{
  ℕ, ◌≡◌, refl, sym, ap, ◌∙◌, subst, Bool, true, Option, some, List, [], ◌∷◌, ◌++◌, append_assoc,
  Text, contains,
}
use ebpf_ssf_broker.Actuator.Registry.{Client}
use ebpf_ssf_broker.Actuator.Server.{just_started, serve_slices, Slice, answered, Serving}
use ebpf_ssf_broker.Actuator.Server.Keeps.{serve_slices-append, answered-slices}
use ebpf_ssf_broker.Actuator.Server.Denies.{is_settled, requests_deny}
use ebpf_ssf_broker.Actuator.Server.Fits.{Carries}
use ebpf_ssf_broker.Actuator.Concurrent.Burst.{in_policy}
use ebpf_ssf_broker.Go.Http.{status_accepted, Request, Response}
use ebpf_ssf_broker.Pipeline.Network.{
  posted_accepted, IsLater, IsLater-refl, IsLater-trans, IsLater-handle_message, Network,
}
use ebpf_ssf_broker.Pipeline.{
  principal_of_pod, posted-after_post, flight, round_posted, principal_read,
}
use ebpf_ssf_broker.Actuator.Mesh.Laws.{principal_of, PolicyLaws}
use ebpf_ssf_broker.Actuator.Events.{Deps}
use ebpf_ssf_broker.Translator.Loop.{
  or_else, handle_message, receive, kprobe, GetEventsResponse, Received, message, end_of_stream,
  broken_stream, Round, posted,
}
use ebpf_ssf_broker.Translator.Post.{set_request, post_set, Transport}
use ebpf_ssf_broker.Translator.Build.Laws.{IsMinted}
use ebpf_ssf_broker.Translator.Build.{attribution, Pod, ProcessKprobe}
use ebpf_ssf_broker.Caep.Jwt.{JwtLaws}
use ebpf_ssf_broker.Caep.Set.{SetClaims}
use ebpf_ssf_broker.Go.Clock.{Time}
use ebpf_ssf_broker.Translator.Loop.Laws.{reports, world-after_post}

-- Messages that a stream has delivered.
abbrev pub messages : List (Round × GetEventsResponse) → List (Round × Received)
messages [] = []
messages ((r, res) ∷ ms) = (r, message res) ∷ messages ms

module _ (d : Deps) (p : Client) (policies : d.policy_api.Store) (pods : d.pod_api.Store)
    (tr : Transport) (net : Network d p policies pods tr) (url : Text) where
  open net use {incoming, trace}

  world-receive_append :
      (w : tr.World) (ms : List (Round × GetEventsResponse)) (rest : List (Round × Received))
      → (receive d.jwt tr url w (messages ms ++ rest)).0
        ≡ (receive d.jwt tr url (receive d.jwt tr url w (messages ms)).0 rest).0
  unfolding receive
  world-receive_append w [] rest = refl
  world-receive_append w ((r, res) ∷ ms) rest =
      world-receive_append (handle_message d.jwt tr url r w res).0 ms rest

  IsLater-receive :
      (w : tr.World) (ms : List (Round × Received))
      → IsLater d p policies pods tr net d.jwt url w (receive d.jwt tr url w ms).0
  unfolding receive
  IsLater-receive w [] = IsLater-refl d p policies pods tr net d.jwt url w
  IsLater-receive w ((r, end_of_stream) ∷ ms) = IsLater-refl d p policies pods tr net d.jwt url w
  IsLater-receive w ((r, broken_stream) ∷ ms) = IsLater-refl d p policies pods tr net d.jwt url w
  IsLater-receive w ((r, message res) ∷ ms) =
      IsLater-trans d p policies pods tr net d.jwt url w
        (IsLater-handle_message d p policies pods tr net d.jwt url r w res)
        (IsLater-receive (handle_message d.jwt tr url r w res).0 ms)

  -- The process of the actuator after a schedule, from its start.
  abbrev pub ran : List Slice → Serving d p
  ran es = serve_slices d p incoming es (just_started d p policies pods)

  -- Each request that has begun has returned from its goroutines, and none is answered by 500.
  abbrev pub IsSettled : List Slice → Type 0
  IsSettled es = (j : ℕ) → is_settled ((ran es).at j) ≡ true

  module _ (laws : PolicyLaws d.policy_api) where
    abbrev pub is_denied : List Slice → Text → Bool
    is_denied es q = contains (in_policy d laws (ran es).state.policies) q

    module _ (r : Round) (kp : Option ProcessKprobe) (time : Option Time) (pod : Pod)
        (found : attribution kp ≡ some pod) (jwt_laws : JwtLaws d.jwt)
        (carries : (c : SetClaims)
          → IsMinted pod (or_else time r.recv) r.jti c
          → jwt_laws.Carries c) where
      abbrev event_message : GetEventsResponse
      event_message = record { event = kprobe kp; time = time }

      -- The schedule that the process has run by the end of the stream.
      abbrev pub by_the_end :
          tr.World → List (Round × GetEventsResponse) → List (Round × Received) → List Slice
      by_the_end w ms later =
          trace (receive d.jwt tr url w (messages ms ++ (r, message event_message) ∷ later)).0

      -- The request that answered the POST of the event.
      answered_round :
          (w : tr.World) (j : Text) (u0 u1 u2 u3 : Time)
          → reports (handle_message d.jwt tr url r w event_message).1 ≡ posted j u0 u1 u2 u3 ∷ []
          → (i : ℕ) × (resp : Response) × (resp.status ≡ status_accepted)
            × ((ran (trace (handle_message d.jwt tr url r w event_message).0)).at i ≡ answered resp)
            × ((claims : SetClaims)
                → Carries d (incoming i) claims
                → principal_of claims.sub_id.uri ≡ principal_of_pod pod)
      answered_round w j u0 u1 u2 u3 h =
          let f = flight d r kp time pod found jwt_laws carries in
          let id = f.minted.registered.id in
          let t0 = or_else time r.recv in
          let sent = post_set tr r.t3 w url f.token r.recv in
          let round = round_posted d r kp time pod found jwt_laws carries f tr url w in
          let clean = posted-after_post d.jwt tr url r id j t0 u0 u1 u2 u3 sent (sym round.1 ∙ h) in
          let (resp, got, ok, left) = posted_accepted tr r.recv r.t3 w url f.token clean in
          let (_, i, own, _, at_end) =
            net.responds w url (set_request f.token r.recv r.t3) resp got in
          (
            i,
            resp,
            ok,
            subst (λ v. (ran (trace v)).at i ≡ answered resp)
                (sym (round.0 ∙ world-after_post d.jwt tr url r id t0 sent ∙ left)) at_end,
            λ claims (body, b, c).
                principal_read d r kp time pod found jwt_laws carries f body claims
                  (ap (λ (q : Request). q.body) (sym own) ∙ b) c,
          )

      -- An event that a stream delivers and whose SET is posted without an error leaves the
      -- workload denied, whatever the stream delivered before and delivers after, and whatever
      -- other requests and resets the actuator handles at once with it: when, with the slices that
      -- the process has run by the end of the stream and some more, each request that has begun has
      -- returned from its goroutines, and none is answered by 500, the principal of the pod is in
      -- the policy. The SET is one that JSON can carry.
      pub stream_denies :
          (w : tr.World) (ms : List (Round × GetEventsResponse)) (later : List (Round × Received))
          (more : List Slice) (j : Text) (u0 u1 u2 u3 : Time)
          → reports
              (handle_message d.jwt tr url r
                (receive d.jwt tr url w (messages ms)).0
                (record { event = kprobe kp; time = time })).1
            ≡ posted j u0 u1 u2 u3 ∷ []
          → IsSettled (by_the_end w ms later ++ more)
          → is_denied (by_the_end w ms later ++ more) (principal_of_pod pod) ≡ true
      stream_denies w ms later more j u0 u1 u2 u3 h settled =
          let w1 = (receive d.jwt tr url w (messages ms)).0 in
          let w2 = (handle_message d.jwt tr url r w1 event_message).0 in
          let w3 = (receive d.jwt tr url w2 later).0 in
          let (i, resp, ok, at_end, same) = answered_round w1 j u0 u1 u2 u3 h in
          let (es, on) = IsLater-receive w2 later in
          let shorter : by_the_end w ms later ≡ trace w3 =
            ap (λ v. trace v)
              (world-receive_append w ms ((r, message event_message) ∷ later)
                ∙ (unfold receive in refl)) in
          let kept : (ran (trace w3 ++ more)).at i ≡ answered resp =
            rw
              (
                on,
                append_assoc (trace w2) es more,
                serve_slices-append d p incoming (trace w2) (es ++ more)
                    (just_started d p policies pods),
              )
              (answered-slices d p incoming i resp (es ++ more) (ran (trace w2)) at_end) in
          let (claims, carried, named) =
            requests_deny d laws p incoming (by_the_end w ms later ++ more) policies pods i resp
              settled (rw shorter kept) ok in
          subst (λ q. is_denied (by_the_end w ms later ++ more) q ≡ true) (same claims carried)
            named
