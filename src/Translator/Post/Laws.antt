-- ===== src/Translator/Post/Laws.antt =====
-- cmd/translator/main.go: when postSet counts a SET as delivered.
use mathlib.Core.Option.{some-injective}
use ebpf_ssf_broker.Base.{
  ◌≡◌, refl, ap, ◌∙◌, ◌↔◌, inl, inr, true, none, some, arith, Bool-cases, Option-cases, Text,
}
use ebpf_ssf_broker.Translator.Post.{set_request, answer_error, post_set, Transport}
use ebpf_ssf_broker.Go.Clock.{Time}
use ebpf_ssf_broker.Go.Http.{status_accepted, Response}

accepted_iff :
    (resp : Response) → (answer_error (some resp) ≡ none) ↔ (resp.status ≡ status_accepted)
accepted_iff resp = (λ h. ground arith, λ h. rw h)

module _ (tr : Transport) (t1 t3 : Time) (w : tr.World) (url token : Text) where
  -- A response of the status 202 came back for the request with the token and the clocks.
  abbrev pub Delivered : Type 0
  Delivered =
      (tr.accepts_url url ≡ true)
      × ((resp : Response) × ((tr.round_trip w url (set_request token t1 t3)).1 ≡ some resp)
          × (resp.status ≡ status_accepted))

  -- postSet returns no error exactly if the URL makes a request, the request is answered, and the
  -- status of the answer is 202.
  pub post_set-none_iff : ((post_set tr t3 w url token t1).error ≡ none) ↔ Delivered
  unfolding post_set
  post_set-none_iff = elim (Bool-cases (tr.accepts_url url)) [
    | inr bad ↦ rw bad (λ h. cc, λ (p, _). cc)
    | inl ok ↦ elim (Option-cases (tr.round_trip w url (set_request token t1 t3)).1) [
      | inl lost ↦ rw (ok, lost) (λ h. cc, λ p. cc (p.1.1))
      | inr (resp, got) ↦
          rw (ok, got)
            (
              λ h. (refl, (resp, refl, (accepted_iff resp).0 h)),
              λ p.
                  (accepted_iff resp).1
                    (ap (λ (r : Response). r.status) (some-injective resp p.1.0 p.1.1) ∙ p.1.2),
            )
    ]
  ]
