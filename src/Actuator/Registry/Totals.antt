-- ===== src/Actuator/Registry/Totals.antt =====
-- cmd/actuator: the metrics over the life of the process.
use ebpf_ssf_broker.Base.{
  ℕ, suc, ◌+◌, ◌≡◌, refl, Option, some, List, [], ◌∷◌, arith, if◌then◌else◌, Text, text_eq,
  contains,
}
use ebpf_ssf_broker.Actuator.Registry.Added.{incs-Tally}
use ebpf_ssf_broker.Actuator.Registry.{registered, serve_input, serve_inputs, Client, Process}
use ebpf_ssf_broker.Actuator.Registry.Performed.{
  events_of, events-registered, events-perform_all, ClientLaws,
}
use ebpf_ssf_broker.Actuator.Spans.Counts.{incs}
use ebpf_ssf_broker.Actuator.Registry.Tally.{tally}
use ebpf_ssf_broker.Actuator.Events.{
  result_revoked, result_deduped, result_failed, events_handler, Deps, State,
}
use ebpf_ssf_broker.Actuator.Events.Laws.{arrived}
use ebpf_ssf_broker.Actuator.History.{Input, event, reset_dedupe}

-- The requests that the events counter counts.
abbrev pub arrivals : List Input → ℕ
arrivals [] = 0
arrivals (event now req ∷ is) = let rest = arrivals is in if arrived req then suc rest else rest
arrivals (reset_dedupe req ∷ is) = arrivals is

module _ (d : Deps) (p : Client) (laws : ClientLaws p) where
  abbrev results : Process d p → Text → Option ℕ
  results t result = events_of p laws t.metrics result

  -- The three series are there, with these values.
  pub record Shows (t : Process d p) (revoked deduped failed : ℕ) : Type 0 where
    pub shows_revoked : results t result_revoked ≡ some revoked
    pub shows_deduped : results t result_deduped ≡ some deduped
    pub shows_failed : results t result_failed ≡ some failed

  Shows-start : (st : State d) → Shows (record { state = st; metrics = registered p }) 0 0 0
  Shows-start st = record {
    shows_revoked = events-registered p laws result_revoked (unfold contains text_eq in refl);
    shows_deduped = events-registered p laws result_deduped (unfold contains text_eq in refl);
    shows_failed = events-registered p laws result_failed (unfold contains text_eq in refl);
  }

  Shows-input :
      (i : Input) (t : Process d p) (r u f : ℕ)
      → Shows t r u f
      → (r' : ℕ) × (u' : ℕ) × (f' : ℕ) × Shows (serve_input d p t i) r' u' f'
        × (r' + u' + f' ≡ r + u + f + arrivals (i ∷ []))
  unfolding serve_input
  Shows-input (reset_dedupe req) t r u f now = (
    r,
    u,
    f,
    record {
      shows_revoked = now.shows_revoked;
      shows_deduped = now.shows_deduped;
      shows_failed = now.shows_failed;
    },
    omega arith,
  )
  Shows-input (event at req) t r u f now =
      let ms = (events_handler d at req t.state).metrics in
      (
        r + incs result_revoked ms,
        u + incs result_deduped ms,
        f + incs result_failed ms,
        record {
          shows_revoked = events-perform_all p laws ms t.metrics result_revoked r now.shows_revoked;
          shows_deduped = events-perform_all p laws ms t.metrics result_deduped u now.shows_deduped;
          shows_failed = events-perform_all p laws ms t.metrics result_failed f now.shows_failed;
        },
        ground (arith, incs-Tally (tally d at req t.state)),
      )

  arrivals-cons :
      (i : Input) (is : List Input) → arrivals (i ∷ is) ≡ arrivals (i ∷ []) + arrivals is
  arrivals-cons (event now req) is = ground arith
  arrivals-cons (reset_dedupe req) is = omega arith

  Shows-inputs :
      (is : List Input) (t : Process d p) (r u f : ℕ)
      → Shows t r u f
      → (r' : ℕ) × (u' : ℕ) × (f' : ℕ) × Shows (serve_inputs d p t is) r' u' f'
        × (r' + u' + f' ≡ r + u + f + arrivals is)
  unfolding serve_inputs
  Shows-inputs [] t r u f now = (r, u, f, now, omega arith)
  Shows-inputs (i ∷ is) t r u f now =
      let (r', u', f', after, one) = Shows-input i t r u f now in
      let (r'', u'', f'', end, rest) = Shows-inputs is (serve_input d p t i) r' u' f' after in
      (r'', u'', f'', end, omega (arith, one, rest, arrivals-cons i is))

  -- From the start of the process, and after any requests, the scrape shows the three results of
  -- the events counter, each with a value, and their sum is the number of POSTs to /events whose
  -- body was read.
  pub results-serve_inputs :
      (st : State d) (is : List Input)
      → (r : ℕ) × (u : ℕ) × (f : ℕ) × Shows
          (serve_inputs d p (record { state = st; metrics = registered p }) is)
          r
          u
          f
        × (r + u + f ≡ arrivals is)
  results-serve_inputs st is =
      let start : Process d p = record { state = st; metrics = registered p } in
      let (r, u, f, shown, total) = Shows-inputs is start 0 0 0 (Shows-start st) in
      (r, u, f, shown, omega (arith, total))
