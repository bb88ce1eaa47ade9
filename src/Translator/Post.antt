-- ===== src/Translator/Post.antt =====
-- cmd/translator/main.go: postSet.
pub mod Laws
use ebpf_ssf_broker.Base.{ℕ, Bool, not, Option, none, some, [], ◌==◌, if◌then◌else◌, Text, codes}
use ebpf_ssf_broker.Go.Clock.{zero_time, unix_nano, Time}
use ebpf_ssf_broker.Go.Decimal.{format_int}
use ebpf_ssf_broker.Go.Http.{set_field, method_post, status_accepted, Request, Response}

abbrev pub header_t1 : Text
header_t1 = codes "X-Zta-T1-Ns"

abbrev pub header_t3 : Text
header_t3 = codes "X-Zta-T3-Ns"

-- The network behind the HTTP client: whether a URL is accepted by http.NewRequestWithContext, and
-- client.Do, `none` for its error.
pub record Transport : Type 1 where
  pub World : Type 0
  pub accepts_url : Text → Bool
  pub round_trip : World → (url : Text) → Request → World × Option Response

pub data PostError : Type 0 where
  bad_request transport_error : PostError
  refused : (status : ℕ) → PostError

-- The request on the wire.
unfoldable pub set_request : (token : Text) (t1 t3 : Time) → Request
set_request token t1 t3 = record {
  method = method_post;
  headers =
      set_field
        (set_field (set_field [] (codes "Content-Type") (codes "application/secevent+jwt"))
          header_t1 (format_int (unix_nano t1)))
        header_t3 (format_int (unix_nano t3));
  body = some token;
}

abbrev pub answer_error : Option Response → Option PostError
answer_error none = some transport_error
answer_error (some resp) =
    if resp.status == status_accepted then none else some (refused resp.status)

module _ (tr : Transport) where
  -- The world after the call, the returned T3 and the returned error.
  pub record Posted : Type 0 where
    pub world : tr.World
    pub t3 : Time
    pub error : Option PostError

module _ (tr : Transport) where
  after_do : Time → tr.World × Option Response → Posted tr
  after_do t3 (w, answer) = record { world = w; t3 = t3; error = answer_error answer }

  -- postSet; `now` is what time.Now returns for T3.
  unfoldable pub post_set : (now : Time) → tr.World → (url token : Text) → (t1 : Time) → Posted tr
  unfolding after_do
  post_set now w url token t1 =
      if not (tr.accepts_url url)
      then record { world = w; t3 = zero_time; error = some bad_request }
      else after_do now (tr.round_trip w url (set_request token t1 now))
