-- ===== src/Actuator/Server/Totals.antt =====
-- cmd/actuator: the events counter, with any number of requests at once.
use ebpf_ssf_broker.Base.{
  ℕ, ◌+◌, ◌≡◌, refl, true, false, List, [], ◌∷◌, arith, if◌then◌else◌, All, text_eq, contains,
}
use ebpf_ssf_broker.Caep.Set.{SetClaims}
use ebpf_ssf_broker.Actuator.Mesh.{Outcome, done, failed}
use ebpf_ssf_broker.Actuator.Events.{
  result_revoked, result_deduped, result_failed, clocks_of, conclude, Deps, State,
}
use ebpf_ssf_broker.Actuator.Events.Laws.{arrived}
use ebpf_ssf_broker.Actuator.Spans.{MetricCall}
use ebpf_ssf_broker.Actuator.Spans.Counts.{incs, incs-observe_spans}
use ebpf_ssf_broker.Actuator.Goroutines.{
  MeshAt, at_check, at_patch, at_delete, mesh_returned, LabelAt, at_list, at_pods, label_returned,
}
use ebpf_ssf_broker.Actuator.Registry.{Client, Registered}
use ebpf_ssf_broker.Actuator.Registry.Performed.{
  events_of, events-registered, incs-perform, ClientLaws,
}
use ebpf_ssf_broker.Actuator.Server.Fits.{begun, Begun, turned_away, malformed, started}
use ebpf_ssf_broker.Actuator.Server.{
  slice, forget, arriving, waiting, reporting, answered, report, wait, advance, just_started,
  serve_slice, serve_slices, Part, handler_side, mesh_side, label_side, Slice, RequestAt, Incoming,
  Stepped, Serving,
}
use ebpf_ssf_broker.Actuator.Server.Total.{total, total-zero, total-update, Among}
use ebpf_ssf_broker.Metrics.Series.{or_zero}

-- The Incs of the three results among the calls.
abbrev counted_in : List MetricCall → ℕ
counted_in calls = incs result_revoked calls + incs result_deduped calls + incs result_failed calls

-- The counts that a request under way still owes.
abbrev pub to_count : RequestAt → ℕ
to_count arriving = 0
to_count (waiting claims a b) = 1
to_count (reporting calls response) = counted_in calls
to_count (answered response) = 0

-- A POST whose body was read, by a handler that has begun.
abbrev pub has_come : Incoming → RequestAt → ℕ
has_come r arriving = 0
has_come r (waiting claims a b) = if arrived r.request then 1 else 0
has_come r (reporting calls response) = if arrived r.request then 1 else 0
has_come r (answered response) = if arrived r.request then 1 else 0

module _ (d : Deps) (p : Client) (laws : ClientLaws p) where
  -- The sum of the three results.
  abbrev pub events_counted : Registered p → ℕ
  events_counted ms =
      or_zero (events_of p laws ms result_revoked)
      + or_zero (events_of p laws ms result_deduped)
      + or_zero (events_of p laws ms result_failed)

  module _ (r : Incoming) (st : State d) (ms : Registered p) where
    Settles : RequestAt → Stepped d p → Type 0
    Settles at t =
        events_counted t.metrics + to_count t.at + has_come r at
        ≡ events_counted ms + to_count at + has_come r t.at

    counts-begun : {x : RequestAt} → Begun d r x → to_count x ≡ has_come r x
    unfolding text_eq
    counts-begun (turned_away response a s) = rw a refl
    counts-begun (malformed response a s bad) = rw a refl
    counts-begun (started claims a c) = rw a refl

    counts-report :
        (claims : SetClaims) (o : Outcome)
        → (to_count (report d r claims st o) ≡ 1)
          × (has_come r (report d r claims st o) ≡ (if arrived r.request then 1 else 0))
    unfolding conclude text_eq
    counts-report claims (done true) =
        let c = clocks_of r.now r.request.headers claims in
        (
          omega (
            arith,
            incs-observe_spans result_revoked c,
            incs-observe_spans result_deduped c,
            incs-observe_spans result_failed c,
          ),
          refl,
        )
    counts-report claims (done false) = (refl, refl)
    counts-report claims (failed e) = (refl, refl)

    counts-wait :
        (claims : SetClaims) (a : MeshAt) (b : LabelAt)
        → (to_count (wait d r st claims a b) ≡ 1)
          × (has_come r (wait d r st claims a b) ≡ (if arrived r.request then 1 else 0))
    unfolding wait
    counts-wait claims (mesh_returned o) (label_returned n errs) = counts-report claims o
    counts-wait claims (mesh_returned o) at_list = (refl, refl)
    counts-wait claims (mesh_returned o) (at_pods ns sa pods n errs) = (refl, refl)
    counts-wait claims at_check b = (refl, refl)
    counts-wait claims (at_patch body) b = (refl, refl)
    counts-wait claims (at_delete e) b = (refl, refl)

    Settles-advance : (part : Part) (at : RequestAt) → Settles at (advance d p r part st ms at)
    unfolding advance Settles
    Settles-advance handler_side arriving = omega (arith, counts-begun (begun d r))
    Settles-advance handler_side (waiting claims a b) =
        let (one, same) = counts-wait claims a b in omega (arith, one, same)
    Settles-advance handler_side (reporting [] response) = refl
    Settles-advance handler_side (reporting (m ∷ calls) response) = omega (
      arith,
      incs-perform p laws m calls ms result_revoked,
      incs-perform p laws m calls ms result_deduped,
      incs-perform p laws m calls ms result_failed,
    )
    Settles-advance handler_side (answered response) = refl
    Settles-advance mesh_side arriving = refl
    Settles-advance mesh_side (waiting claims a b) = refl
    Settles-advance mesh_side (reporting calls response) = refl
    Settles-advance mesh_side (answered response) = refl
    Settles-advance label_side arriving = refl
    Settles-advance label_side (waiting claims a b) = refl
    Settles-advance label_side (reporting calls response) = refl
    Settles-advance label_side (answered response) = refl

  module _ (incoming : ℕ → Incoming) (n : ℕ) where
    abbrev pub left_to_count : Serving d p → ℕ
    left_to_count s = total n (λ j. to_count (s.at j))

    abbrev pub all_come : Serving d p → ℕ
    all_come s = total n (λ j. has_come (incoming j) (s.at j))

    abbrev IsCounted : Serving d p → Type 0
    IsCounted s = events_counted s.metrics + left_to_count s ≡ all_come s

    IsCounted-slice :
        (e : Slice) (s : Serving d p)
        → Among n e
        → IsCounted s
        → IsCounted (serve_slice d p incoming e s)
    unfolding serve_slice Settles
    IsCounted-slice (forget key) s ok c = c
    IsCounted-slice (slice i part) s ok c =
        let t = advance d p (incoming i) part s.state s.metrics (s.at i) in
        omega (
          arith,
          c,
          Settles-advance (incoming i) s.state s.metrics part (s.at i),
          total-update (λ j. to_count) s.at i t.at n ok,
          total-update (λ j. has_come (incoming j)) s.at i t.at n ok,
        )

    IsCounted-slices :
        (es : List Slice) (s : Serving d p)
        → All (Among n) es
        → IsCounted s
        → IsCounted (serve_slices d p incoming es s)
    unfolding serve_slices
    IsCounted-slices [] s ok c = c
    IsCounted-slices (e ∷ es) s ok c =
        IsCounted-slices es (serve_slice d p incoming e s) ok.1 (IsCounted-slice e s ok.0 c)

    -- At every point of every schedule of requests at once, resets among them: the sum of the three
    -- results of the events counter, and the counts that requests under way still owe, are together
    -- as many as the POSTs to /events whose handler has begun and whose body was read.
    pub results-serve_slices :
        (es : List Slice) (policies : d.policy_api.Store) (pods : d.pod_api.Store)
        → All (Among n) es
        → let s = serve_slices d p incoming es (just_started d p policies pods) in
          events_counted s.metrics + left_to_count s ≡ all_come s
    results-serve_slices es policies pods ok =
        IsCounted-slices es (just_started d p policies pods) ok (
          rw
            (
              events-registered p laws result_revoked (unfold contains text_eq in refl),
              events-registered p laws result_deduped (unfold contains text_eq in refl),
              events-registered p laws result_failed (unfold contains text_eq in refl),
            )
            (omega (arith, total-zero n)))
