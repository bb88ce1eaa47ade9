-- ===== src/Pipeline/Stamps.antt =====
-- The clocks of the translator, as the actuator takes them off the SET and the request.
use ebpf_ssf_broker.Base.{◌≡◌, refl, ◌∙◌, false, [], Text, codes, text_eq}
use ebpf_ssf_broker.Translator.Post.{header_t1, header_t3, set_request}
use ebpf_ssf_broker.Actuator.Events.{clocks_of, Now}
use ebpf_ssf_broker.Actuator.Spans.Laws.{header_time-format_int}
use ebpf_ssf_broker.Actuator.Spans.{ns_to_time, header_time}
use ebpf_ssf_broker.Caep.Set.{SetClaims}
use ebpf_ssf_broker.Go.Decimal.{format_int}
use ebpf_ssf_broker.Go.Http.{Fields, set_field, field-set_field_ne}
use ebpf_ssf_broker.Go.Clock.{unix_nano, wrap64-IsInt64, Time}

header_time-set_field_ne :
    (h : Fields) (k j v : Text)
    → text_eq k j ≡ false
    → header_time (set_field h k v) j ≡ header_time h j
unfolding header_time
header_time-set_field_ne h k j v e = rw (field-set_field_ne h k j v e)

module _ (token : Text) (t1 t3 : Time) where
  abbrev typed : Fields
  typed = set_field [] (codes "Content-Type") (codes "application/secevent+jwt")

  t1_arrives : header_time (set_request token t1 t3).headers header_t1 ≡ ns_to_time (unix_nano t1)
  unfolding set_request
  t1_arrives =
      header_time-set_field_ne (set_field typed header_t1 (format_int (unix_nano t1))) header_t3
        header_t1 (format_int (unix_nano t3)) (unfold text_eq in refl)
      ∙ header_time-format_int typed header_t1 (unix_nano t1)
          (unfold unix_nano in wrap64-IsInt64 t1.wall)

  t3_arrives : header_time (set_request token t1 t3).headers header_t3 ≡ ns_to_time (unix_nano t3)
  unfolding set_request
  t3_arrives =
      header_time-format_int (set_field typed header_t1 (format_int (unix_nano t1))) header_t3
        (unix_nano t3) (unfold unix_nano in wrap64-IsInt64 t3.wall)

-- The clocks of an event are those of the translator: T1 and T3 that postSet put into the headers,
-- and T0 that the SET carries, each through UnixNano, whose zero means that there is none. The
-- others are the handler's own.
pub clocks_of-set_request :
    (now : Now) (token : Text) (claims : SetClaims) (t0 t1 t3 : Time)
    → claims.events.event_time_stamp_ns ≡ unix_nano t0
    → clocks_of now (set_request token t1 t3).headers claims ≡ record {
      t0 = ns_to_time (unix_nano t0);
      t1 = ns_to_time (unix_nano t1);
      t3 = ns_to_time (unix_nano t3);
      t4 = now.t4;
      t5 = now.t5;
      t6 = now.t6;
    }
clocks_of-set_request now token claims t0 t1 t3 stamp =
    rw (stamp, t1_arrives token t1 t3, t3_arrives token t1 t3) refl
