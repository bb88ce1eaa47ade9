-- ===== src/Examples/Token.antt =====
-- A token format that carries a SET: each text behind its length.
use mathlib.Core.Option.{some-injective}
use ebpf_ssf_broker.Base.{
  ℕ, zero, suc, ◌≡◌, refl, subst, none, some, [], ◌∷◌, ◌++◌, if◌then◌else◌, length, Text, text_eq,
  contains,
}
use ebpf_ssf_broker.Base.Int.{pos_part, neg_part, ℤ, pos, negsuc}
use ebpf_ssf_broker.Caep.Set.{SetClaims}
use ebpf_ssf_broker.Caep.Jwt.{method_none, Jwt, SameEvent, JwtLaws}

split_at : ℕ → Text → Text × Text
split_at zero s = ([], s)
split_at (suc n) [] = ([], [])
split_at (suc n) (c ∷ s) = let (front, rest) = split_at n s in (c ∷ front, rest)

unframe : Text → Text × Text
unfolding split_at
unframe [] = ([], [])
unframe (n ∷ s) = split_at n s

abbrev frame : Text → Text → Text
frame s rest = length s ∷ s ++ rest

split_at-length : (s rest : Text) → split_at (length s) (s ++ rest) ≡ (s, rest)
unfolding split_at
split_at-length [] rest = refl
split_at-length (c ∷ s) rest = rw (split_at-length s rest)

unframe-frame : (s rest : Text) → unframe (frame s rest) ≡ (s, rest)
unfolding unframe
unframe-frame s rest = split_at-length s rest

abbrev stamp_of : Text → ℤ
stamp_of [] = pos 0
stamp_of (p ∷ []) = pos p
stamp_of (p ∷ zero ∷ s) = pos p
stamp_of (p ∷ suc n ∷ s) = negsuc n

abbrev parts_of : ℤ → Text
parts_of a = pos_part a ∷ neg_part a ∷ []

abbrev text_after_uri : SetClaims → Text
text_after_uri c = frame c.events.initiating_entity (parts_of c.events.event_time_stamp_ns)

abbrev text_after_format : SetClaims → Text
text_after_format c = frame c.sub_id.uri (text_after_uri c)

abbrev text_after_id : SetClaims → Text
text_after_id c = frame c.sub_id.format (text_after_format c)

unfoldable pub write_token : SetClaims → Text
write_token c = frame c.registered.id (text_after_id c)

abbrev claims_with : (id format uri entity : Text) → ℤ → SetClaims
claims_with id format uri entity ns = record {
  registered = record {
    issuer = [];
    subject = [];
    audience = [];
    expires_at = none;
    not_before = none;
    issued_at = none;
    id = id;
  };
  sub_id = record { format = format; uri = uri };
  events = record { event_time_stamp_ns = ns; initiating_entity = entity };
}

unfoldable pub read_token : Text → SetClaims
unfolding unframe
read_token t =
    let (id, t1) = unframe t in
    let (format, t2) = unframe t1 in
    let (uri, t3) = unframe t2 in
    let (entity, t4) = unframe t3 in claims_with id format uri entity (stamp_of t4)

stamp_of_parts : (a : ℤ) → stamp_of (pos_part a ∷ neg_part a ∷ []) ≡ a
stamp_of_parts (pos n) = refl
stamp_of_parts (negsuc n) = refl

read_token-write_token : (c : SetClaims) → SameEvent (read_token (write_token c)) c
unfolding read_token write_token
read_token-write_token c =
    rw
      (
        unframe-frame c.registered.id (text_after_id c),
        unframe-frame c.sub_id.format (text_after_format c),
        unframe-frame c.sub_id.uri (text_after_uri c),
        unframe-frame c.events.initiating_entity (parts_of c.events.event_time_stamp_ns),
        stamp_of_parts c.events.event_time_stamp_ns,
      )
      (record { ids = refl; subjects = refl; events = refl })

abbrev pub sample_jwt : Jwt
sample_jwt = record {
  numeric_date = λ t. t;
  signed_string = λ method c. if text_eq method method_none then some (write_token c) else none;
  parse = λ methods t. if contains methods method_none then some (read_token t) else none;
}

pub parsed :
    (c : SetClaims) (t : Text)
    → sample_jwt.signed_string method_none c ≡ some t
    → SameEvent (read_token t) c
unfolding text_eq
parsed c t s =
    subst (λ u. SameEvent (read_token u) c) (some-injective (write_token c) t s)
      (read_token-write_token c)

pub signed : (c : SetClaims) → sample_jwt.signed_string method_none c ≡ some (write_token c)
unfolding text_eq
signed c = refl

pub admitted : (t : Text) → sample_jwt.parse (method_none ∷ []) t ≡ some (read_token t)
unfolding contains text_eq
admitted t = refl

abbrev pub sample_jwt_laws : JwtLaws sample_jwt
sample_jwt_laws = record {
  Carries = λ c. Unit;
  signs = λ c h. (write_token c, signed c);
  parses = λ c t h e n s. (read_token t, admitted t, parsed c t s);
}
