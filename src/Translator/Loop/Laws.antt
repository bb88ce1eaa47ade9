-- ===== src/Translator/Loop/Laws.antt =====
-- cmd/translator/main.go: what the receive loop lets through, and what a message does to the world.
use ebpf_ssf_broker.Base.{
  ◌≡◌, refl, ◌⊎◌, inl, inr, Bool, true, false, Option, none, some, List, [], ◌∷◌, ◌++◌, arith,
  Bool-cases, Option-cases, keep, Text,
}
use ebpf_ssf_broker.Translator.Post.{post_set, Transport, Posted}
use ebpf_ssf_broker.Translator.Build.{build_set, ProcessKprobe}
use ebpf_ssf_broker.Caep.Jwt.{encode_unsigned, Jwt}
use ebpf_ssf_broker.Caep.Set.{SetClaims}
use ebpf_ssf_broker.Go.Clock.{Time}
use ebpf_ssf_broker.Translator.Loop.{
  kprobe, other_event, message, event_received, set_minted, posted, post_failed, slept, has_process,
  received_line, or_else, after_post, after_encode, after_build, handle_message, receive, Event,
  GetEventsResponse, Received, end_of_stream, broken_stream, Round, Action, encode_failed,
  no_attribution, open_failed, stream_opened, stream_ended,
}

-- The message is a kprobe event with a process.
abbrev pub is_relevant : Event → Bool
is_relevant other_event = false
is_relevant (kprobe kp) = has_process kp

abbrev pub matters : Round × Received → Bool
matters (r, message res) = is_relevant res.event
matters (r, end_of_stream) = true
matters (r, broken_stream) = true

-- The line says how the POST of a SET went.
abbrev pub is_report : Action → Bool
is_report (posted jti t0 t1 t2 t3) = true
is_report (post_failed jti e) = true
is_report (event_received binary function t0 t1) = false
is_report (set_minted jti sub token) = false
is_report encode_failed = false
is_report no_attribution = false
is_report open_failed = false
is_report stream_opened = false
is_report stream_ended = false
is_report (slept n) = false

abbrev pub reports : List Action → List Action
reports said = keep is_report said

pub reports-received_line :
    (kp : Option ProcessKprobe) (t0 t1 : Time) (said : List Action)
    → reports (received_line kp t0 t1 ++ said) ≡ reports said
reports-received_line none t0 t1 said = refl
reports-received_line (some kp) t0 t1 said = elim (Option-cases kp.process) [
  | inl missing ↦ rw missing refl
  | inr (p, there) ↦ rw there refl
]

pub event_cases : (e : Event) → (e ≡ other_event) ⊎ ((kp : Option ProcessKprobe) × (e ≡ kprobe kp))
event_cases other_event = inl refl
event_cases (kprobe kp) = inr (kp, refl)

module _ (jwt : Jwt) (tr : Transport) (url : Text) where
  irrelevant_message :
      (r : Round) (w : tr.World) (res : GetEventsResponse)
      → is_relevant res.event ≡ false
      → handle_message jwt tr url r w res ≡ (w, [])
  unfolding handle_message
  irrelevant_message r w res h = ground arith

  -- The receive loop does the same, posts and log lines alike, without the messages that are no
  -- kprobe event of a process.
  pub receive-keep :
      (w : tr.World) (ms : List (Round × Received))
      → receive jwt tr url w (keep matters ms) ≡ receive jwt tr url w ms
  unfolding receive
  receive-keep w [] = refl
  receive-keep w ((r, end_of_stream) ∷ ms) = refl
  receive-keep w ((r, broken_stream) ∷ ms) = refl
  receive-keep w ((r, message res) ∷ ms) = elim (Bool-cases (is_relevant res.event)) [
    | inl relevant ↦
        let w' = (handle_message jwt tr url r w res).0 in rw relevant (rw (receive-keep w' ms))
    | inr other ↦ rw (other, irrelevant_message r w res other) (receive-keep w ms)
  ]

  -- What a message does to the world: nothing, or what the POST of a token does.
  abbrev pub PostedWorld : Round → (w w' : tr.World) → Type 0
  PostedWorld r w w' =
      (w' ≡ w) ⊎ ((token : Text) × (w' ≡ (post_set tr r.t3 w url token r.recv).world))

  pub reports-after_post :
      (r : Round) (jti : Text) (t0 : Time) (p : Posted tr)
      → reports (after_post jwt tr url r jti t0 p).1 ≡ (after_post jwt tr url r jti t0 p).1
  unfolding after_post
  reports-after_post r jti t0 p = elim (Option-cases p.error) [
    | inl clean ↦ rw clean refl
    | inr (e, bad) ↦ rw bad refl
  ]

  pub world-after_post :
      (r : Round) (jti : Text) (t0 : Time) (p : Posted tr)
      → (after_post jwt tr url r jti t0 p).0 ≡ p.world
  unfolding after_post
  world-after_post r jti t0 p = ground arith

  world-after_encode :
      (r : Round) (w : tr.World) (t0 : Time) (c : SetClaims) (o : Option Text)
      → PostedWorld r w (after_encode jwt tr url r w t0 c o).0
  unfolding after_encode
  world-after_encode r w t0 c none = inl refl
  world-after_encode r w t0 c (some token) =
      inr (token, world-after_post r c.registered.id t0 (post_set tr r.t3 w url token r.recv))

  world-after_build :
      (r : Round) (w : tr.World) (t0 : Time) (o : Option SetClaims)
      → PostedWorld r w (after_build jwt tr url r w t0 o).0
  unfolding after_build
  world-after_build r w t0 none = inl refl
  world-after_build r w t0 (some c) = world-after_encode r w t0 c (encode_unsigned jwt c)

  pub world-handle_message :
      (r : Round) (w : tr.World) (res : GetEventsResponse)
      → PostedWorld r w (handle_message jwt tr url r w res).0
  unfolding handle_message
  world-handle_message r w res = elim (event_cases res.event) [
    | inl other ↦ rw other (inl refl)
    | inr (kp, e) ↦ elim (Bool-cases (has_process kp)) [
      | inl there ↦
          rw (e, there)
            (world-after_build r w (or_else res.time r.recv)
              (build_set jwt.numeric_date kp (or_else res.time r.recv) r.minted r.jti))
      | inr missing ↦ rw (e, missing) (inl refl)
    ]
  ]
