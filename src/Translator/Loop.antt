-- ===== src/Translator/Loop.antt =====
-- cmd/translator/main.go: the reconnect loop and the receive loop of main.
pub mod Laws
pub mod Reconnect
use ebpf_ssf_broker.Base.{
  ℕ, Bool, true, false, not, Option, none, some, List, [], ◌∷◌, ◌++◌, if◌then◌else◌, Text,
}
use ebpf_ssf_broker.Go.Clock.{Time}
use ebpf_ssf_broker.Caep.Set.{SetClaims}
use ebpf_ssf_broker.Caep.Jwt.{encode_unsigned, Jwt}
use ebpf_ssf_broker.Translator.Build.{build_set, ProcessKprobe}
use ebpf_ssf_broker.Translator.Post.{post_set, Transport, PostError, Posted}

-- res.Event of a GetEventsResponse: a kprobe event, whose pointer may be nil, or any other.
pub data Event : Type 0 where
  kprobe : Option ProcessKprobe → Event
  other_event : Event

pub record GetEventsResponse : Type 0 where
  pub event : Event
  pub time : Option Time

-- What stream.Recv returns.
pub data Received : Type 0 where
  message : GetEventsResponse → Received
  end_of_stream broken_stream : Received

-- What the clock and the uuid library return in one round: T1, the mint time, T2, T3, the jti.
pub record Round : Type 0 where
  pub recv : Time
  pub minted : Time
  pub t2 : Time
  pub t3 : Time
  pub jti : Text

-- What a round or a stream comes to: the log lines of the loops, and their sleeps.
pub data Action : Type 0 where
  event_received : (binary function : Text) (t0 t1 : Time) → Action
  set_minted : (jti sub token : Text) → Action
  posted : (jti : Text) (t0 t1 t2 t3 : Time) → Action
  post_failed : (jti : Text) → PostError → Action
  encode_failed no_attribution open_failed stream_opened stream_ended : Action
  slept : (seconds : ℕ) → Action

-- One pass of the outer loop: a stream that could not be opened, or one with what it delivered.
pub data Attempt : Type 0 where
  unopened : Attempt
  opened : List (Round × Received) → Attempt

-- The guard before the dereference: kp == nil || kp.Process == nil
abbrev pub has_process : Option ProcessKprobe → Bool
has_process none = false
has_process (some kp) = elim kp.process [ none ↦ false | some p ↦ true ]

-- The line about a kprobe event, where no pointer is nil.
abbrev pub received_line : Option ProcessKprobe → (t0 t1 : Time) → List Action
received_line none t0 t1 = []
received_line (some kp) t0 t1 = elim kp.process [
  | none ↦ []
  | some p ↦ event_received p.binary kp.function_name t0 t1 ∷ []
]

abbrev pub or_else : Option Time → Time → Time
or_else none t = t
or_else (some t0) t = t0

module _ (jwt : Jwt) (tr : Transport) (url : Text) where
  unfoldable pub after_post : Round → Text → Time → Posted tr → tr.World × List Action
  after_post r jti t0 p = elim p.error [
    | none ↦ (p.world, posted jti t0 r.recv r.t2 p.t3 ∷ [])
    | some e ↦ (p.world, post_failed jti e ∷ [])
  ]

  after_encode : Round → tr.World → Time → SetClaims → Option Text → tr.World × List Action
  unfolding after_post
  after_encode r w t0 c none = (w, encode_failed ∷ [])
  after_encode r w t0 c (some token) =
      let (w', said) = after_post r c.registered.id t0 (post_set tr r.t3 w url token r.recv) in
      (w', set_minted c.registered.id c.sub_id.uri token ∷ said)

  after_build : Round → tr.World → Time → Option SetClaims → tr.World × List Action
  unfolding after_encode
  after_build r w t0 none = (w, no_attribution ∷ [])
  after_build r w t0 (some c) = after_encode r w t0 c (encode_unsigned jwt c)

  -- The body of the receive loop for a message.
  unfoldable pub handle_message : Round → tr.World → GetEventsResponse → tr.World × List Action
  unfolding after_build
  handle_message r w res = elim res.event [
    | other_event ↦ (w, [])
    | kprobe kp ↦
        if not (has_process kp)
        then (w, [])
        else let t0 = or_else res.time r.recv in
          let (w', said) = after_build r w t0 (build_set jwt.numeric_date kp t0 r.minted r.jti) in
          (w', received_line kp t0 r.recv ++ said)
  ]

  -- The receive loop over what a stream has delivered so far.
  unfoldable pub receive : tr.World → List (Round × Received) → tr.World × List Action
  receive w [] = (w, [])
  receive w ((r, end_of_stream) ∷ rest) = (w, stream_ended ∷ [])
  receive w ((r, broken_stream) ∷ rest) = (w, stream_ended ∷ [])
  receive w ((r, message res) ∷ rest) =
      let (w', done) = handle_message r w res in
      let (w'', later) = receive w' rest in (w'', done ++ later)

  -- The outer loop, over the passes that the process makes until it is stopped.
  unfoldable pub reconnect : tr.World → List Attempt → tr.World × List Action
  reconnect w [] = (w, [])
  reconnect w (unopened ∷ rest) =
      let (w', later) = reconnect w rest in (w', open_failed ∷ slept 5 ∷ later)
  reconnect w (opened ms ∷ rest) =
      let (w', done) = receive w ms in
      let (w'', later) = reconnect w' rest in (w'', stream_opened ∷ done ++ slept 2 ∷ later)
