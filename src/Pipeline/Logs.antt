-- ===== src/Pipeline/Logs.antt =====
-- The log lines of one event in the two processes.
use ebpf_ssf_broker.Base.{
  ◌≡◌, refl, sym, ap, ◌∙◌, inl, inr, false, none, some, Option-cases, Text, codes, text_eq,
}
use ebpf_ssf_broker.Base.Int.{eqb_ℤ, IsInt64, pos}
use ebpf_ssf_broker.Actuator.Spans.Attributes.{IsLogged-pipeline_spans}
use ebpf_ssf_broker.Pipeline.Stamps.{clocks_of-set_request}
use ebpf_ssf_broker.Actuator.Events.{clocks_of, Now}
use ebpf_ssf_broker.Caep.Set.{SetClaims}
use ebpf_ssf_broker.Translator.Post.{set_request}
use ebpf_ssf_broker.Translator.Log.{posted_attrs}
use ebpf_ssf_broker.Go.Log.{Attrs, attr}
use ebpf_ssf_broker.Go.Clock.{
  is_zero, unix, unix_nano, time_sub, microseconds, wrap64_id, is_zero-unix, Time,
}
use ebpf_ssf_broker.Actuator.Spans.{ns_to_time, pipeline_spans, Clocks}

-- A clock whose reading is an int64 other than zero.
abbrev pub IsStamp : Time → Type 0
IsStamp t = IsInt64 t.wall × (eqb_ℤ t.wall (pos 0) ≡ false)

-- It arrives in the other process as its wall clock.
stamp_arrives : (t : Time) → IsStamp t → ns_to_time (unix_nano t) ≡ unix t.wall
unfolding unix_nano ns_to_time
stamp_arrives t (fits, set_to) = rw (wrap64_id t.wall fits, set_to) refl

-- No step of the wall clock between the two times.
abbrev pub IsSteady : Time → Time → Type 0
IsSteady t u = time_sub t u ≡ time_sub (unix t.wall) (unix u.wall)

-- Without a monotonic reading on one side the difference is that of the wall clocks.
IsSteady-origin : (t u : Time) → u.mono ≡ none → IsSteady t u
unfolding time_sub
IsSteady-origin t u h = elim (Option-cases t.mono) [
  | inl bare ↦ rw (h, bare) refl
  | inr (m, full) ↦ rw (h, full) refl
]

module _ (now : Now) (token : Text) (claims : SetClaims) (t0 t1 t2 t3 : Time)
    (stamp : claims.events.event_time_stamp_ns ≡ unix_nano t0) where
  -- The line of the actuator for the event.
  abbrev pub line : Attrs
  line = pipeline_spans (clocks_of now (set_request token t1 t3).headers claims)

  -- The line of the translator.
  abbrev pub posted_line : Attrs
  posted_line = posted_attrs t0 t1 t2 t3

  -- The clocks of the translator are int64 readings other than zero, and T0 is one of Tetragon's,
  -- which has no monotonic reading.
  pub record IsStamped : Type 0 where
    pub stamp0 : IsStamp t0
    pub stamp1 : IsStamp t1
    pub stamp3 : IsStamp t3
    pub origin : t0.mono ≡ none

  known_stamp : (t : Time) → IsStamp t → is_zero (unix t.wall) ≡ false
  known_stamp t (fits, _) = is_zero-unix t.wall fits

  -- In the two log lines of an event T0, T1 and T3 are the same numbers, and so are the detect span
  -- and the translate span, if the wall clock was not stepped between T1 and T3. The clocks are
  -- int64 readings other than zero, and T0 is one of Tetragon's.
  pub posted_attrs-pipeline_spans :
      IsStamped
      → IsSteady t3 t1
      → (attr line (codes "t0_ns") ≡ attr posted_line (codes "t0_ns"))
        × (attr line (codes "t1_ns") ≡ attr posted_line (codes "t1_ns"))
        × (attr line (codes "t3_ns") ≡ attr posted_line (codes "t3_ns"))
        × (attr line (codes "detect_us") ≡ attr posted_line (codes "detect_us"))
        × (attr line (codes "translate_us") ≡ attr posted_line (codes "translate_us"))
  unfolding attr text_eq unix_nano
  posted_attrs-pipeline_spans given steady =
      let arrived = clocks_of-set_request now token claims t0 t1 t3 stamp in
      let c : Clocks = record {
        t0 = unix t0.wall;
        t1 = unix t1.wall;
        t3 = unix t3.wall;
        t4 = now.t4;
        t5 = now.t5;
        t6 = now.t6;
      } in
      let same : clocks_of now (set_request token t1 t3).headers claims ≡ c =
        arrived
        ∙ rw
            (
              stamp_arrives t0 given.stamp0,
              stamp_arrives t1 given.stamp1,
              stamp_arrives t3 given.stamp3,
            )
            refl in
      let logged =
        IsLogged-pipeline_spans c (known_stamp t0 given.stamp0) (known_stamp t1 given.stamp1)
          (known_stamp t3 given.stamp3) in
      rw same (
        logged.t0_ns,
        logged.t1_ns,
        logged.t3_ns,
        logged.detect_us
            ∙ ap (λ d. some (microseconds d)) (sym (IsSteady-origin t1 t0 given.origin)),
        logged.translate_us ∙ ap (λ d. some (microseconds d)) (sym steady),
      )
