-- ===== src/Caep/Set.antt =====
-- internal/caep/set.go: the claims of a SET and NewSet.
use ebpf_ssf_broker.Base.{Option, none, some, List, [], ◌∷◌, Text}
use ebpf_ssf_broker.Base.Int.{ℤ}
use ebpf_ssf_broker.Go.Clock.{Time}

pub record SubjectId : Type 0 where
  pub format : Text
  pub uri : Text

pub record CaepEvent : Type 0 where
  pub event_time_stamp_ns : ℤ
  pub initiating_entity : Text

-- jwt.RegisteredClaims, with `none` for a date that is nil.
pub record RegisteredClaims : Type 0 where
  pub issuer : Text
  pub subject : Text
  pub audience : List Text
  pub expires_at : Option Time
  pub not_before : Option Time
  pub issued_at : Option Time
  pub id : Text

pub record SetClaims : Type 0 where
  pub registered : RegisteredClaims
  pub sub_id : SubjectId
  pub events : CaepEvent

-- NewSet; `numeric_date` is jwt.NewNumericDate.
unfoldable pub new_set :
    (Time → Time) → Text → Text → Text → Time → SubjectId → CaepEvent → SetClaims
new_set numeric_date iss aud jti iat subject event = record {
  registered = record {
    issuer = iss;
    subject = [];
    audience = aud ∷ [];
    expires_at = none;
    not_before = none;
    issued_at = some (numeric_date iat);
    id = jti;
  };
  sub_id = subject;
  events = event;
}
