-- ===== src/Caep/Jwt.antt =====
-- internal/caep/set.go: EncodeUnsigned and DecodeUnsigned, over the JWT library that they call.
use ebpf_ssf_broker.Base.{◌≡◌, Option, none, some, List, [], ◌∷◌, Text, codes}
use ebpf_ssf_broker.Go.Clock.{Time}
use ebpf_ssf_broker.Caep.Set.{SetClaims}

-- github.com/golang-jwt/jwt/v5. `parse` is Parser.ParseWithClaims of a parser for the given
-- methods, whose key function returns UnsafeAllowNoneSignatureType.
pub record Jwt : Type 0 where
  pub numeric_date : Time → Time
  pub signed_string : (method : Text) → SetClaims → Option Text
  pub parse : (methods : List Text) → Text → Option SetClaims

abbrev pub method_none : Text
method_none = codes "none"

module _ (jwt : Jwt) where
  -- c.EncodeUnsigned()
  unfoldable pub encode_unsigned : SetClaims → Option Text
  encode_unsigned c = jwt.signed_string method_none c

  -- DecodeUnsigned(raw)
  unfoldable pub decode_unsigned : Text → Option SetClaims
  decode_unsigned raw = jwt.parse (method_none ∷ []) raw

-- Two SETs that name the same token, subject and event.
pub record SameEvent (c d : SetClaims) : Type 0 where
  pub ids : c.registered.id ≡ d.registered.id
  pub subjects : c.sub_id ≡ d.sub_id
  pub events : c.events ≡ d.events

-- What the program relies on of the library: a token without expiry and start date, whose texts
-- JSON can carry, is parsed back by a parser that admits its method.
pub record JwtLaws (jwt : Jwt) : Type 1 where
  pub Carries : SetClaims → Type 0
  pub signs : (c : SetClaims) → Carries c → (t : Text) × (jwt.signed_string method_none c ≡ some t)
  pub parses :
      (c : SetClaims) (t : Text)
      → Carries c
      → c.registered.expires_at ≡ none
      → c.registered.not_before ≡ none
      → jwt.signed_string method_none c ≡ some t
      → (d : SetClaims) × (jwt.parse (method_none ∷ []) t ≡ some d) × SameEvent d c
