-- ===== src/Examples/NetworkRuns.antt =====
-- A stream of events, while the actuator handles two requests at once in front of the sample cluster.
use mathlib.Core.Option.{some-injective}
use ebpf_ssf_broker.Base.{
  ℕ, zero, suc, ◌≡◌, refl, sym, ap, ◌∙◌, Bool, true, false, ◌&&◌, Option, none, some, List, [], ◌∷◌,
  ◌++◌, append-nil, arith, Text, text_eq, text_eq_iff, contains,
}
use ebpf_ssf_broker.Go.Http.{Fields, field, Request, Response}
use ebpf_ssf_broker.Go.Decimal.{format_int}
use ebpf_ssf_broker.Go.Clock.{wrap64, unix_nano}
use ebpf_ssf_broker.Caep.Set.{new_set}
use ebpf_ssf_broker.Caep.Jwt.{encode_unsigned}
use ebpf_ssf_broker.Actuator.Events.{bare_response}
use ebpf_ssf_broker.Actuator.Server.{just_started, serve_slices, Slice, answered, Serving}
use ebpf_ssf_broker.Translator.Build.{build_set}
use ebpf_ssf_broker.Translator.Post.{set_request, post_set, Transport}
use ebpf_ssf_broker.Translator.Loop.{
  after_post, handle_message, receive, other_event, GetEventsResponse, Received, message,
  end_of_stream, Round, posted,
}
use ebpf_ssf_broker.Translator.Loop.Laws.{reports}
use ebpf_ssf_broker.Actuator.Server.Denies.{is_settled}
use ebpf_ssf_broker.Pipeline.Network.{Network}
use ebpf_ssf_broker.Pipeline.Streams.{messages, stream_denies}
use ebpf_ssf_broker.Pipeline.{principal_of_pod}
use ebpf_ssf_broker.Examples.World.{
  sample_policy_laws, deps, at, fresh, event_pod, event_of, labels_a, sample_round, subject_a,
  request_for,
}
use ebpf_ssf_broker.Examples.Token.{write_token, sample_jwt, sample_jwt_laws}
use ebpf_ssf_broker.Examples.Counting.{sample_client}
use ebpf_ssf_broker.Examples.ServerRuns.{both, overlapping, answered_both, settled_both}
use ebpf_ssf_broker.Examples.PipelineRuns.{url, event_time, message_of_pod}

unfoldable pub fields_eq : Fields → Fields → Bool
fields_eq [] [] = true
fields_eq [] ((l, u) ∷ g) = false
fields_eq ((k, v) ∷ f) [] = false
fields_eq ((k, v) ∷ f) ((l, u) ∷ g) =
    let rest = fields_eq f g in text_eq k l && (text_eq v u && rest)

fields_eq_equal : (f g : Fields) → fields_eq f g ≡ true → f ≡ g
unfolding fields_eq
fields_eq_equal [] [] h = refl
fields_eq_equal [] ((l, u) ∷ g) h = cc
fields_eq_equal ((k, v) ∷ f) [] h = cc
fields_eq_equal ((k, v) ∷ f) ((l, u) ∷ g) h =
    ground (arith, text_eq_iff k l, text_eq_iff v u, fields_eq_equal f g)

abbrev body_eq : Option Text → Option Text → Bool
body_eq none none = true
body_eq none (some t) = false
body_eq (some s) none = false
body_eq (some s) (some t) = text_eq s t

body_eq_equal : (a b : Option Text) → body_eq a b ≡ true → a ≡ b
body_eq_equal none none h = refl
body_eq_equal none (some t) h = cc
body_eq_equal (some s) none h = cc
body_eq_equal (some s) (some t) h = ap some ((text_eq_iff s t).0 h)

abbrev same_request : Request → Request → Bool
same_request a b =
    text_eq a.method b.method && (fields_eq a.headers b.headers && body_eq a.body b.body)

pub same_request_equal : (a b : Request) → same_request a b ≡ true → a ≡ b
same_request_equal a b h =
    let m = (text_eq_iff a.method b.method).0 (ground (arith, h)) in
    let f = fields_eq_equal a.headers b.headers (ground (arith, h)) in
    let o = body_eq_equal a.body b.body (ground (arith, h)) in
    (λ i. record { method = m i; headers = f i; body = o i })

abbrev pub carried : Bool → ℕ → ℕ × Option Response
carried true n = (1, some (bare_response 202))
carried false n = (n, none)

-- A network that answers the event of the first pod, while another request for it is handled, and
-- loses all else.
abbrev pub sample_network : Transport
sample_network = record {
  World = ℕ;
  accepts_url = λ url. true;
  round_trip = λ n url req. carried (same_request req (request_for subject_a)) n;
}

abbrev pub run_so_far : ℕ → List Slice
run_so_far zero = []
run_so_far (suc n) = overlapping

abbrev pub after : List Slice → Serving deps sample_client
after es =
    serve_slices deps sample_client both es
      (just_started deps sample_client (fresh true).policies (fresh true).pods)

reached : (n : ℕ) → (es : List Slice) × (overlapping ≡ run_so_far n ++ es)
reached zero = (overlapping, refl)
reached (suc n) = ([], refl)

pub responds_on :
    (b : Bool) (n : ℕ) (req : Request) (resp : Response)
    → (b ≡ true → request_for subject_a ≡ req)
    → (carried b n).1 ≡ some resp
    → (es : List Slice) × (i : ℕ) × ((both i).request ≡ req)
      × (run_so_far (carried b n).0 ≡ run_so_far n ++ es)
      × ((after (run_so_far (carried b n).0)).at i ≡ answered resp)
responds_on true n req resp same got =
    let (es, on) = reached n in
    (es, 0, same refl, on, answered_both.0 ∙ ap answered (some-injective _ resp got))
responds_on false n req resp same got = absurd (cc)

pub loses_on :
    (b : Bool) (n : ℕ)
    → (carried b n).1 ≡ none
    → (es : List Slice) × (run_so_far (carried b n).0 ≡ run_so_far n ++ es)
loses_on true n lost = absurd (cc)
loses_on false n lost = ([], sym (append-nil (run_so_far n)))

unfoldable pub sampled :
    Network deps sample_client (fresh true).policies (fresh true).pods sample_network
sampled = record {
  incoming = both;
  trace = run_so_far;
  responds = λ n url req resp got.
      responds_on (same_request req (request_for subject_a)) n req resp
        (λ same. sym (same_request_equal req (request_for subject_a) same)) got;
  loses = λ n url req lost. loses_on (same_request req (request_for subject_a)) n lost;
}

-- A stream of which the first message is no kprobe event.
abbrev pub earlier : List (Round × GetEventsResponse)
earlier = (sample_round, record { event = other_event; time = none }) ∷ []

pub posted_later :
    reports
      (handle_message sample_jwt sample_network url sample_round
        (receive sample_jwt sample_network url 0 (messages earlier)).0
        (message_of_pod labels_a)).1
    ≡ posted sample_round.jti (at 50) sample_round.recv sample_round.t2 sample_round.t3 ∷ []
unfolding receive handle_message after_post build_set encode_unsigned post_set set_request text_eq
    fields_eq format_int unix_nano wrap64 new_set write_token field
posted_later = refl

abbrev pub stream_end : List (Round × Received)
stream_end = (sample_round, end_of_stream) ∷ []

-- The network when the stream has been received.
abbrev pub world_at_end : ℕ
world_at_end =
    (receive sample_jwt sample_network url 0
      (messages earlier ++ (sample_round, message (message_of_pod labels_a)) ∷ stream_end)).0

answered_by_then : world_at_end ≡ 1
unfolding receive handle_message build_set encode_unsigned text_eq post_set set_request fields_eq
    format_int unix_nano wrap64 write_token field
answered_by_then = refl

pub settled_then : (j : ℕ) → is_settled ((after (run_so_far world_at_end ++ [])).at j) ≡ true
settled_then = rw answered_by_then settled_both

stream_denies_example :
    contains
      (after (run_so_far world_at_end ++ [])).state.policies.entries
      (principal_of_pod (event_pod labels_a))
    ≡ true
unfolding sampled
stream_denies_example =
    stream_denies deps sample_client (fresh true).policies (fresh true).pods sample_network sampled
      url sample_policy_laws sample_round (event_of labels_a) event_time (event_pod labels_a) refl
      sample_jwt_laws (λ c m. tt) 0 earlier stream_end [] sample_round.jti (at 50) sample_round.recv
      sample_round.t2 sample_round.t3 posted_later settled_then
