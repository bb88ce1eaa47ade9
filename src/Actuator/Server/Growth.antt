-- ===== src/Actuator/Server/Growth.antt =====
-- cmd/actuator: the counter of revocations against the policy, with any number of requests at once.
use ebpf_ssf_broker.Base.{
  ℕ, suc, ◌+◌, ◌≡◌, refl, ap, inl, inr, true, false, List, [], ◌∷◌, arith, ◌==◌, Bool-cases, All,
  text_eq, contains,
}
use ebpf_ssf_broker.Actuator.Mesh.{Outcome, done, failed}
use ebpf_ssf_broker.Actuator.Mesh.Laws.{principal_of, PolicyLaws}
use ebpf_ssf_broker.Actuator.Events.{result_revoked, clocks_of, conclude, Deps, State}
use ebpf_ssf_broker.Actuator.Spans.Counts.{incs-observe_spans}
use ebpf_ssf_broker.Actuator.Goroutines.{
  MeshAt, at_check, at_patch, at_delete, mesh_returned, LabelAt, at_list, at_pods, label_returned,
}
use ebpf_ssf_broker.Actuator.Server.{
  slice, forget, arriving, waiting, reporting, answered, report, wait, advance, just_started,
  serve_slice, serve_slices, Part, handler_side, mesh_side, label_side, Slice, RequestAt, Incoming,
  Stepped, Serving,
}
use ebpf_ssf_broker.Actuator.Concurrent.View.{Refusals}
use ebpf_ssf_broker.Caep.Set.{SetClaims}
use ebpf_ssf_broker.Actuator.Registry.{Client, Registered}
use ebpf_ssf_broker.Actuator.Registry.Performed.{
  events_of, events-registered, incs-perform, ClientLaws,
}
use ebpf_ssf_broker.Metrics.Series.{or_zero}
use ebpf_ssf_broker.Actuator.Server.Fits.{begun, Begun, turned_away, malformed, started}
use ebpf_ssf_broker.Actuator.Server.Total.{total, total-zero, total-update, Among}
use ebpf_ssf_broker.Actuator.Server.Gains.{
  uncounted_call, uncounted, HasBody, IsAddressed, size, Gains-step,
}

module _ (d : Deps) (laws : PolicyLaws d.policy_api) (honest : Refusals d laws false) where
  module _ (p : Client) (client_laws : ClientLaws p) where
    abbrev pub revocations : Registered p → ℕ
    revocations ms = or_zero (events_of p client_laws ms result_revoked)

    module _ (r : Incoming) (st : State d) (ms : Registered p) where
      -- What a step of a request adds to the policy, it owes the counter or pays.
      abbrev Balances : RequestAt → Stepped d p → Type 0
      Balances at t =
          IsAddressed t.at
          × (size d laws t.state.policies + uncounted at + revocations ms
              ≡ size d laws st.policies + uncounted t.at + revocations t.metrics)

      uncounted-report :
          (claims : SetClaims) (o : Outcome)
          → uncounted (report d r claims st o) ≡ uncounted_call (mesh_returned o)
      unfolding conclude text_eq
      uncounted-report claims (done true) =
          ap suc (incs-observe_spans result_revoked (clocks_of r.now r.request.headers claims))
      uncounted-report claims (done false) = refl
      uncounted-report claims (failed e) = refl

      nothing_yet : {x : RequestAt} → Begun d r x → (uncounted x ≡ 0) × IsAddressed x
      unfolding text_eq
      nothing_yet (turned_away response a s) = (refl, tt)
      nothing_yet (malformed response a s bad) = (refl, tt)
      nothing_yet (started claims a c) = (refl, tt)

      Balances-wait :
          (claims : SetClaims) (a : MeshAt) (b : LabelAt)
          → HasBody (principal_of claims.sub_id.uri) a
          → IsAddressed (wait d r st claims a b)
            × (uncounted (wait d r st claims a b) ≡ uncounted_call a)
      unfolding wait
      Balances-wait claims (mesh_returned o) (label_returned n errs) h =
          (tt, uncounted-report claims o)
      Balances-wait claims (mesh_returned o) at_list h = (h, refl)
      Balances-wait claims (mesh_returned o) (at_pods ns sa pods n errs) h = (h, refl)
      Balances-wait claims at_check b h = (h, refl)
      Balances-wait claims (at_patch body) b h = (h, refl)
      Balances-wait claims (at_delete e) b h = (h, refl)

      Balances-advance :
          (part : Part) (at : RequestAt)
          → IsAddressed at
          → Balances at (advance d p r part st ms at)
      unfolding advance
      Balances-advance handler_side arriving h =
          let (none_yet, addressed) = nothing_yet (begun d r) in
          (addressed, omega (arith, none_yet))
      Balances-advance handler_side (waiting claims a b) h =
          let (addressed, same) = Balances-wait claims a b h in (addressed, rw same refl)
      Balances-advance handler_side (reporting [] response) h = (tt, refl)
      Balances-advance handler_side (reporting (m ∷ calls) response) h =
          (tt, omega (arith, incs-perform p client_laws m calls ms result_revoked))
      Balances-advance handler_side (answered response) h = (tt, refl)
      Balances-advance mesh_side arriving h = (tt, refl)
      Balances-advance mesh_side (waiting claims a b) h =
          let (addressed, gained) =
            Gains-step d laws honest claims.sub_id.uri a st.revoked st.policies h in
          (addressed, omega (arith, gained))
      Balances-advance mesh_side (reporting calls response) h = (tt, refl)
      Balances-advance mesh_side (answered response) h = (tt, refl)
      Balances-advance label_side arriving h = (tt, refl)
      Balances-advance label_side (waiting claims a b) h = (h, refl)
      Balances-advance label_side (reporting calls response) h = (tt, refl)
      Balances-advance label_side (answered response) h = (tt, refl)

    -- The slices are of the first n requests, or resets.
    module _ (incoming : ℕ → Incoming) (n : ℕ) where
      -- What all requests together have not counted yet.
      abbrev pub uncounted_all : Serving d p → ℕ
      uncounted_all s = total n (λ j. uncounted (s.at j))

      record IsBalanced (first : ℕ) (s : Serving d p) : Type 0 where
        addressed : (j : ℕ) → IsAddressed (s.at j)
        balanced : size d laws s.state.policies ≡ first + revocations s.metrics + uncounted_all s

      IsBalanced-slice :
          (first : ℕ) (e : Slice) (s : Serving d p)
          → Among n e
          → IsBalanced first s
          → IsBalanced first (serve_slice d p incoming e s)
      unfolding serve_slice
      IsBalanced-slice first (forget key) s ok b = record {
        addressed = b.addressed;
        balanced = b.balanced;
      }
      IsBalanced-slice first (slice i part) s ok b =
          let t = advance d p (incoming i) part s.state s.metrics (s.at i) in
          let (addressed, local) =
            Balances-advance (incoming i) s.state s.metrics part (s.at i) (b.addressed i) in
          record {
            addressed = λ j. elim (Bool-cases (j == i)) [
              | inl same ↦ rw same addressed
              | inr other ↦ rw other (b.addressed j)
            ];
            balanced =
                omega (arith, local, b.balanced, total-update (λ j. uncounted) s.at i t.at n ok);
          }

      IsBalanced-slices :
          (first : ℕ) (es : List Slice) (s : Serving d p)
          → All (Among n) es
          → IsBalanced first s
          → IsBalanced first (serve_slices d p incoming es s)
      unfolding serve_slices
      IsBalanced-slices first [] s ok b = b
      IsBalanced-slices first (e ∷ es) s ok b =
          IsBalanced-slices first es (serve_slice d p incoming e s) ok.1
            (IsBalanced-slice first e s ok.0 b)

      -- In front of an API server whose errors have no effect, and while nobody else writes the
      -- policy, at every point of every schedule of requests at once, resets among them: the
      -- principals that the policy has gained since the start are as many as the counter shows
      -- revocations, and those revocations that requests under way have made and will count.
      pub revocations-serve_slices :
          (es : List Slice) (policies : d.policy_api.Store) (pods : d.pod_api.Store)
          → All (Among n) es
          → size d laws
              (serve_slices d p incoming es (just_started d p policies pods)).state.policies
            ≡ size d laws policies
              + revocations (serve_slices d p incoming es (just_started d p policies pods)).metrics
              + uncounted_all (serve_slices d p incoming es (just_started d p policies pods))
      revocations-serve_slices es policies pods ok =
          let none_yet =
            events-registered p client_laws result_revoked (unfold contains text_eq in refl) in
          (IsBalanced-slices (size d laws policies) es (just_started d p policies pods) ok (record {
            addressed = λ j. tt;
            balanced = rw none_yet (omega (arith, total-zero n));
          })).balanced
