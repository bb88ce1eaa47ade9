-- ===== src/Pipeline.antt =====
-- The two halves joined: the translator of cmd/translator posts to the actuator of cmd/actuator.
pub mod Denied
pub mod Stamps
pub mod Logs
pub mod Network
pub mod Streams
pub mod Unlabelled
pub mod Sidecar
pub mod Trial
use mathlib.Core.Option.{some-injective}
use ebpf_ssf_broker.Base.{
  ◌≡◌, refl, sym, ap, ◌∙◌, true, Option, none, some, [], ◌∷◌, ◌++◌, arith, Text, codes, text_eq,
}
use ebpf_ssf_broker.Translator.Loop.Laws.{reports, reports-received_line, reports-after_post}
use ebpf_ssf_broker.Actuator.WorkloadId.{scheme}
use ebpf_ssf_broker.Go.Strings.{trim_prefix, cut_prefix-append}
use ebpf_ssf_broker.Actuator.Events.{events_handler, Deps, Now, State}
use ebpf_ssf_broker.Translator.Post.{set_request, answer_error, post_set, Transport, Posted}
use ebpf_ssf_broker.Go.Clock.{Time}
use ebpf_ssf_broker.Go.Http.{field, status_accepted, Response}
use ebpf_ssf_broker.Caep.Set.{SubjectId, SetClaims}
use ebpf_ssf_broker.Caep.Jwt.{encode_unsigned, decode_unsigned, Jwt, SameEvent, JwtLaws}
use ebpf_ssf_broker.Actuator.Mesh.Laws.{principal_of, IsSpiffe}
use ebpf_ssf_broker.Translator.Build.{attribution, spiffe_uri, build_set, Pod, ProcessKprobe}
use ebpf_ssf_broker.Translator.Build.Laws.{build_set-Minted, IsMinted}
use ebpf_ssf_broker.Translator.Loop.{
  has_process, or_else, after_post, handle_message, kprobe, GetEventsResponse, Round, set_minted,
  posted,
}

-- A network that hands each request to the actuator and its response back.
abbrev pub direct : (d : Deps) → Now → Transport
direct d now = record {
  World = State d;
  accepts_url = λ url. true;
  round_trip = λ st url req. let h = events_handler d now req st in (h.state, some h.response);
}

abbrev pub app_of : Pod → Text
app_of pod = field pod.pod_labels (codes "app")

-- The principal that denies the workload of a pod.
abbrev pub principal_of_pod : Pod → Text
principal_of_pod pod = codes "example.org/ns/" ++ (pod.namespace ++ (codes "/sa/" ++ app_of pod))

pub principal_of-spiffe_uri :
    (ns app : Text)
    → principal_of (spiffe_uri ns app) ≡ codes "example.org/ns/" ++ (ns ++ (codes "/sa/" ++ app))
principal_of-spiffe_uri ns app =
    unfold trim_prefix in
    rw (cut_prefix-append scheme (codes "example.org/ns/" ++ (ns ++ (codes "/sa/" ++ app))))

pub spiffe_uri-IsSpiffe : (ns app : Text) → IsSpiffe (spiffe_uri ns app)
spiffe_uri-IsSpiffe ns app = rw principal_of-spiffe_uri (unfold text_eq in refl, refl)

has_process_of :
    (kp : Option ProcessKprobe) {pod : Pod} → attribution kp ≡ some pod → has_process kp ≡ true
has_process_of none h = cc
has_process_of (some kp) h = ground arith

pub posted-after_post :
    (jwt : Jwt) (tr : Transport) (url : Text) (r : Round) (jti j : Text) (t0 u0 u1 u2 u3 : Time)
    (p : Posted tr)
    → (after_post jwt tr url r jti t0 p).1 ≡ posted j u0 u1 u2 u3 ∷ []
    → p.error ≡ none
unfolding after_post
posted-after_post jwt tr url r jti j t0 u0 u1 u2 u3 p h = ground arith

pub clean-after_post :
    (jwt : Jwt) (tr : Transport) (url : Text) (r : Round) (jti : Text) (t0 : Time) (p : Posted tr)
    → p.error ≡ none
    → (after_post jwt tr url r jti t0 p).1 ≡ posted jti t0 r.recv r.t2 p.t3 ∷ []
unfolding after_post
clean-after_post jwt tr url r jti t0 p h = rw h

pub accepted_error :
    (resp : Response) → resp.status ≡ status_accepted → answer_error (some resp) ≡ none
accepted_error resp h = rw h

module _ (d : Deps) (r : Round) (kp : Option ProcessKprobe) (time : Option Time) (pod : Pod)
    (found : attribution kp ≡ some pod) (laws : JwtLaws d.jwt)
    (carries : (c : SetClaims) → IsMinted pod (or_else time r.recv) r.jti c → laws.Carries c) where
  abbrev pub t0 : Time
  t0 = or_else time r.recv

  -- The SET of the event, its token, and the SET that the actuator decodes.
  pub record Flight : Type 0 where
    pub minted : SetClaims
    pub is_minted : IsMinted pod t0 r.jti minted
    pub built : build_set d.jwt.numeric_date kp t0 r.minted r.jti ≡ some minted
    pub token : Text
    pub encoded : encode_unsigned d.jwt minted ≡ some token
    pub read : SetClaims
    pub decoded : decode_unsigned d.jwt token ≡ some read
    pub same : SameEvent read minted

  pub flight : Flight
  unfolding encode_unsigned decode_unsigned
  flight =
      let (c, bm) = build_set-Minted d.jwt.numeric_date kp t0 r.minted r.jti pod found in
      let (token, signed) = laws.signs c (carries c bm.1) in
      let (e, parsed, same) =
        laws.parses c token (carries c bm.1) bm.1.no_expiry bm.1.no_start signed in
      record {
        minted = c;
        is_minted = bm.1;
        built = bm.0;
        token = token;
        encoded = signed;
        read = e;
        decoded = parsed;
        same = same;
      }

  module _ (f : Flight) where
    open f use {minted, token, read}

    -- The round of the receive loop for the event, in terms of what postSet returns.
    pub round_posted :
        (tr : Transport) (url : Text) (w : tr.World)
        → let res : GetEventsResponse = record { event = kprobe kp; time = time } in
          let p = post_set tr r.t3 w url token r.recv in
          let (w', said) = after_post d.jwt tr url r minted.registered.id t0 p in
          ((handle_message d.jwt tr url r w res).0 ≡ w')
          × (reports (handle_message d.jwt tr url r w res).1 ≡ said)
    unfolding handle_message
    round_posted tr url w =
        let id = minted.registered.id in
        let p = post_set tr r.t3 w url token r.recv in
        let said = (after_post d.jwt tr url r id t0 p).1 in
        rw (has_process_of kp found, f.built, f.encoded)
          (
            refl,
            reports-received_line kp t0 r.recv (set_minted id minted.sub_id.uri token ∷ said)
                ∙ reports-after_post d.jwt tr url r id t0 p,
          )

    pub subject_read : read.sub_id.uri ≡ spiffe_uri pod.namespace (app_of pod)
    subject_read = ap (λ (i : SubjectId). i.uri) f.same.subjects ∙ f.is_minted.uri

    -- What the handler decodes is the SET of the event.
    pub principal_read :
        (body : Text) (claims : SetClaims)
        → (set_request token r.recv r.t3).body ≡ some body
        → decode_unsigned d.jwt body ≡ some claims
        → principal_of claims.sub_id.uri ≡ principal_of_pod pod
    unfolding set_request
    principal_read body claims b c =
        let same_body = some-injective token body b in
        let same_claims =
          some-injective read claims (sym f.decoded ∙ ap (decode_unsigned d.jwt) same_body ∙ c) in
        ap (λ (e : SetClaims). principal_of e.sub_id.uri) (sym same_claims)
        ∙ ap principal_of subject_read
        ∙ principal_of-spiffe_uri pod.namespace (app_of pod)
