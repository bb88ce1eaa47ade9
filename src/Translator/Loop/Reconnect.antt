-- ===== src/Translator/Loop/Reconnect.antt =====
-- cmd/translator/main.go: the reconnect loop against the messages that its streams delivered.
use mathlib.Core.Path.{ap₂}
use ebpf_ssf_broker.Base.{
  ◌≡◌, refl, sym, ap, ◌∙◌, inl, inr, Bool, true, false, Option, none, some, List, [], ◌∷◌, ◌++◌,
  append_assoc, Bool-cases, Option-cases, keep, keep-append, Text,
}
use ebpf_ssf_broker.Translator.Loop.Laws.{event_cases}
use ebpf_ssf_broker.Translator.Loop.{
  message, event_received, set_minted, posted, post_failed, slept, unopened, has_process,
  received_line, or_else, after_post, after_encode, after_build, handle_message, receive, reconnect,
  GetEventsResponse, Received, end_of_stream, broken_stream, Round, Action, encode_failed,
  no_attribution, open_failed, stream_opened, stream_ended, Attempt, opened,
}
use ebpf_ssf_broker.Translator.Post.{post_set, Transport}
use ebpf_ssf_broker.Translator.Build.{build_set, ProcessKprobe}
use ebpf_ssf_broker.Caep.Jwt.{encode_unsigned, Jwt}
use ebpf_ssf_broker.Caep.Set.{SetClaims}
use ebpf_ssf_broker.Go.Clock.{Time}

-- The messages of a stream before its end.
abbrev pub delivered : List (Round × Received) → List (Round × GetEventsResponse)
delivered [] = []
delivered ((r, end_of_stream) ∷ ms) = []
delivered ((r, broken_stream) ∷ ms) = []
delivered ((r, message res) ∷ ms) = (r, res) ∷ delivered ms

abbrev pub all_delivered : List Attempt → List (Round × GetEventsResponse)
all_delivered [] = []
all_delivered (unopened ∷ ps) = all_delivered ps
all_delivered (opened ms ∷ ps) = delivered ms ++ all_delivered ps

-- The action is about an event, not about the stream.
abbrev pub is_about_event : Action → Bool
is_about_event (event_received binary function t0 t1) = true
is_about_event (set_minted jti sub token) = true
is_about_event (posted jti t0 t1 t2 t3) = true
is_about_event (post_failed jti e) = true
is_about_event encode_failed = true
is_about_event no_attribution = true
is_about_event open_failed = false
is_about_event stream_opened = false
is_about_event stream_ended = false
is_about_event (slept n) = false

module _ (jwt : Jwt) (tr : Transport) (url : Text) where
  -- Messages handled one after the other.
  unfoldable pub handle_all : tr.World → List (Round × GetEventsResponse) → tr.World × List Action
  handle_all w [] = (w, [])
  handle_all w ((r, res) ∷ ms) =
      let (w', done) = handle_message jwt tr url r w res in
      let (w'', later) = handle_all w' ms in (w'', done ++ later)

  keep-received_line :
      (kp : Option ProcessKprobe) (t0 t1 : Time)
      → keep is_about_event (received_line kp t0 t1) ≡ received_line kp t0 t1
  keep-received_line none t0 t1 = refl
  keep-received_line (some kp) t0 t1 = elim (Option-cases kp.process) [
    | inl missing ↦ rw missing refl
    | inr (p, there) ↦ rw there refl
  ]

  keep-after_encode :
      (r : Round) (w : tr.World) (t0 : Time) (c : SetClaims) (o : Option Text)
      → keep is_about_event (after_encode jwt tr url r w t0 c o).1
        ≡ (after_encode jwt tr url r w t0 c o).1
  unfolding after_encode
  keep-after_encode r w t0 c none = refl
  keep-after_encode r w t0 c (some token) =
      elim (Option-cases (post_set tr r.t3 w url token r.recv).error) [
        | inl clean ↦ unfold after_post in rw clean refl
        | inr (e, bad) ↦ unfold after_post in rw bad refl
      ]

  keep-after_build :
      (r : Round) (w : tr.World) (t0 : Time) (o : Option SetClaims)
      → keep is_about_event (after_build jwt tr url r w t0 o).1
        ≡ (after_build jwt tr url r w t0 o).1
  unfolding after_build
  keep-after_build r w t0 none = refl
  keep-after_build r w t0 (some c) = keep-after_encode r w t0 c (encode_unsigned jwt c)

  keep-handle_message :
      (r : Round) (w : tr.World) (res : GetEventsResponse)
      → keep is_about_event (handle_message jwt tr url r w res).1
        ≡ (handle_message jwt tr url r w res).1
  unfolding handle_message
  keep-handle_message r w res = elim (event_cases res.event) [
    | inl other ↦ rw other refl
    | inr (kp, e) ↦ elim (Bool-cases (has_process kp)) [
      | inl there ↦
          let t0 = or_else res.time r.recv in
          let built = build_set jwt.numeric_date kp t0 r.minted r.jti in
          rw (e, there)
            (keep-append is_about_event (received_line kp t0 r.recv)
                (after_build jwt tr url r w t0 built).1
              ∙ ap₂ (λ a b. a ++ b) (keep-received_line kp t0 r.recv)
                  (keep-after_build r w t0 built))
      | inr missing ↦ rw (e, missing) refl
    ]
  ]

  -- What a loop does to the world and about events, from the messages that it handles.
  abbrev Handles : tr.World → List (Round × GetEventsResponse) → tr.World × List Action → Type 0
  Handles w ms o = (o.0 ≡ (handle_all w ms).0) × (keep is_about_event o.1 ≡ (handle_all w ms).1)

  Handles-receive :
      (w : tr.World) (ms : List (Round × Received))
      → Handles w (delivered ms) (receive jwt tr url w ms)
  unfolding receive handle_all
  Handles-receive w [] = (refl, refl)
  Handles-receive w ((r, end_of_stream) ∷ ms) = (refl, refl)
  Handles-receive w ((r, broken_stream) ∷ ms) = (refl, refl)
  Handles-receive w ((r, message res) ∷ ms) =
      let (w', done) = handle_message jwt tr url r w res in
      let (same, kept) = Handles-receive w' ms in
      (
        same,
        keep-append is_about_event done (receive jwt tr url w' ms).1
            ∙ ap₂ (λ a b. a ++ b) (keep-handle_message r w res) kept,
      )

  handle_all-append :
      (w : tr.World) (ms ns : List (Round × GetEventsResponse))
      → handle_all w (ms ++ ns) ≡ (
        (handle_all (handle_all w ms).0 ns).0,
        (handle_all w ms).1 ++ (handle_all (handle_all w ms).0 ns).1,
      )
  unfolding handle_all
  handle_all-append w [] ns = refl
  handle_all-append w ((r, res) ∷ ms) ns =
      let (w', done) = handle_message jwt tr url r w res in
      rw (
        handle_all-append w' ms ns,
        append_assoc done (handle_all w' ms).1 (handle_all (handle_all w' ms).0 ns).1,
      )

  -- Streams that end, break or do not open lose nothing and repeat nothing: over all passes of the
  -- reconnect loop the world becomes, and the events come to, what the messages that were
  -- delivered before the ends of their streams make of them, handled one after the other.
  pub reconnect-handle_all :
      (w : tr.World) (ps : List Attempt)
      → ((reconnect jwt tr url w ps).0 ≡ (handle_all w (all_delivered ps)).0)
        × (keep is_about_event (reconnect jwt tr url w ps).1 ≡ (handle_all w (all_delivered ps)).1)
  unfolding reconnect
  reconnect-handle_all w [] = unfold handle_all in (refl, refl)
  reconnect-handle_all w (unopened ∷ ps) = reconnect-handle_all w ps
  reconnect-handle_all w (opened ms ∷ ps) =
      let w' = (receive jwt tr url w ms).0 in
      let (same, kept) = Handles-receive w ms in
      let (same_rest, kept_rest) = reconnect-handle_all w' ps in
      let joined = handle_all-append w (delivered ms) (all_delivered ps) in
      (
        same_rest ∙ ap (λ v. (handle_all v (all_delivered ps)).0) same ∙ sym (ap (λ o. o.0) joined),
        keep-append is_about_event (receive jwt tr url w ms).1
              (slept 2 ∷ (reconnect jwt tr url w' ps).1)
            ∙ ap₂ (λ a b. a ++ b) kept
                (kept_rest ∙ ap (λ v. (handle_all v (all_delivered ps)).1) same)
            ∙ sym (ap (λ o. o.1) joined),
      )
