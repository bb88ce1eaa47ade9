-- ===== src/Prober/Loop/Cadence.antt =====
-- cmd/service-a/main.go: when the loop sends its probes.
use native.Mathlib.Nat.{suc-mul}
use ebpf_ssf_broker.Base.{
  ℕ, ◌+◌, ◌*◌, ◌≤◌, ◌<◌, ◌≡◌, refl, ◌∙◌, ◌⊎◌, inl, inr, Option, List, [], ◌∷◌, arith, length, All,
  Text, codes,
}
use ebpf_ssf_broker.Base.Int.{pos_part, ℤ}
use ebpf_ssf_broker.Prober.Laws.{probe_interval_lem}
use ebpf_ssf_broker.Go.Http.{Fields, field}
use ebpf_ssf_broker.Go.Ticker.{
  new_ticker, IsAhead-new_ticker, receive_tick_lem, receive_tick_early, IsAhead,
}
use ebpf_ssf_broker.Metrics.Series.{CounterApi}
use ebpf_ssf_broker.Prober.Loop.{config, one_pass, passes, entered, Pass, Prober}

module _ (counters : CounterApi) where
  -- The loop waits for a tick that is at most one interval away.
  record IsTicking (s : Prober counters) (interval : ℕ) : Type 0 where
    pub ahead : IsAhead s.tick s.now
    pub steady : s.tick.period ≡ interval

  module _ (interval : ℕ) where
    IsTicking-one_pass :
        (p : Pass) (s : Prober counters)
        → IsTicking s interval
        → IsTicking (one_pass counters p s) interval
          × (s.now + p.took ≤ (one_pass counters p s).now)
          × ((one_pass counters p s).now ≤ s.now + p.took
              ⊎ (one_pass counters p s).now ≤ s.now + interval)
          × (s.tick.next + interval ≤ (one_pass counters p s).tick.next)
    unfolding one_pass
    IsTicking-one_pass p s now =
        let (ahead, least, most, further, same) =
          receive_tick_lem s.tick s.now (s.now + p.took) now.ahead (omega arith) in
        let steady = now.steady in
        (
          record { ahead = ahead; steady = same ∙ steady },
          least,
          elim most [ inl soon ↦ inl soon | inr late ↦ inr (omega (arith, late, steady)) ],
          omega (arith, further, steady),
        )

    IsTicking-passes :
        (ps : List Pass) (s : Prober counters)
        → IsTicking s interval
        → IsTicking (passes counters ps s) interval
          × (s.tick.next + length ps * interval ≤ (passes counters ps s).tick.next)
    unfolding passes
    IsTicking-passes [] s now = (now, omega arith)
    IsTicking-passes (p ∷ ps) s now =
        let (after, _, _, one) = IsTicking-one_pass p s now in
        let (end, rest) = IsTicking-passes ps (one_pass counters p s) after in
        (end, omega (arith, one, rest, suc-mul (length ps) interval))

    -- While no call takes an interval, each pass ends on the ticker's grid.
    on_grid :
        (ps : List Pass) (s : Prober counters)
        → IsTicking s interval
        → s.tick.next ≡ s.now + interval
        → All (λ p. p.took < interval) ps
        → (passes counters ps s).now ≡ s.now + length ps * interval
    unfolding passes one_pass
    on_grid [] s now grid quick = omega arith
    on_grid (p ∷ ps) s now grid quick =
        let fits = quick.0 in
        let (after, _, _, _) = IsTicking-one_pass p s now in
        let early = receive_tick_early s.tick (s.now + p.took) (omega (arith, fits)) in
        let steady = now.steady in
        let rest =
          on_grid ps (one_pass counters p s) after (rw early (omega (arith, steady))) quick.1 in
        let ends : (one_pass counters p s).now ≡ s.tick.next = rw early refl in
        omega (arith, rest, ends, grid, suc-mul (length ps) interval)

  IsTicking-entered :
      (now interval : ℕ) → 0 < interval → IsTicking (entered counters now interval) interval
  IsTicking-entered now interval h = record {
    ahead = IsAhead-new_ticker now interval h;
    steady = unfold new_ticker in refl;
  }

  module _ (now : ℕ) (parse_duration : Text → Option ℤ) (env : Fields) (ps : List Pass) where
    -- The interval that main passes to time.NewTicker.
    abbrev pub interval_of : ℕ
    interval_of = pos_part (config parse_duration env).interval

    positive : 0 < interval_of
    unfolding config
    positive =
        let raw = field env (codes "PROBE_INTERVAL") in
        let one = (probe_interval_lem parse_duration raw).0 in ground arith

    abbrev pub reached : Prober counters
    reached = passes counters ps (entered counters now interval_of)

    ticking : IsTicking (entered counters now interval_of) interval_of
    ticking = IsTicking-entered now interval_of positive

    -- Whatever PROBE_INTERVAL holds, while no call takes an interval, each probe starts exactly as
    -- many intervals behind the first one as probes were sent in front of it.
    pub cadence : All (λ p. p.took < interval_of) ps → reached.now ≡ now + length ps * interval_of
    cadence quick =
        on_grid interval_of ps (entered counters now interval_of) ticking
          (unfold new_ticker in refl) quick

    -- Whatever PROBE_INTERVAL holds, and however long the calls take, a probe never starts before as
    -- many intervals have passed since the first one as probes were sent in front of it. The next
    -- probe starts no earlier than the call of the last one returns, and no later than that return
    -- or one interval behind the start of the last, whichever is later.
    pub next_probe_in :
        (p : Pass)
        → (now + length ps * interval_of ≤ reached.now)
          × (reached.now + p.took ≤ (one_pass counters p reached).now)
          × ((one_pass counters p reached).now ≤ reached.now + p.took
              ⊎ (one_pass counters p reached).now ≤ reached.now + interval_of)
    next_probe_in p =
        let (end, next) =
          IsTicking-passes interval_of ps (entered counters now interval_of) ticking in
        let (_, least, most, _) = IsTicking-one_pass interval_of p reached end in
        let soon = end.ahead.soon in
        let steady = end.steady in
        let first : (new_ticker now interval_of).next ≡ now + interval_of =
          unfold new_ticker in refl in
        (omega (arith, next, first, soon, steady), least, most)
