-- ===== src/Go/Ticker.antt =====
-- Package time: a Ticker, on a clock that counts nanoseconds. Its channel has room for one tick.
use native.Mathlib.Nat.{mul-suc, div-add-mod, mod-lt}
use ebpf_ssf_broker.Base.{
  ℕ, suc, ◌+◌, ◌-◌, ◌*◌, ◌/◌, ◌≤◌, ◌<◌, ◌≡◌, refl, ◌⊎◌, inl, inr, false, arith, leb, if◌then◌else◌,
  Bool-cases,
}

pub record Ticker : Type 0 where
  pub period : ℕ
  -- when the next tick fires that nobody has received
  pub next : ℕ

-- time.NewTicker(period), called at `now`; it panics unless the period is positive.
unfoldable pub new_ticker : (now period : ℕ) → Ticker
new_ticker now period = record { period = period; next = now + period }

-- The first time of the ticker's grid behind `now`, where `next` is on it and has passed.
unfoldable pub after_drops : Ticker → ℕ → ℕ
after_drops t now = t.next + t.period * suc ((now - t.next) / t.period)

-- <-tick.C at `now`: the ticker afterwards, and when the receive returns. A tick that fired waits
-- in the channel; those that fired behind it were dropped. Without one, the receive waits.
unfoldable pub receive_tick : Ticker → ℕ → Ticker × ℕ
unfolding after_drops
receive_tick t now =
    if leb t.next now
    then (record t { next = after_drops t now }, now)
    else (record t { next = t.next + t.period }, t.next)

-- The next tick is at most a period away, and still to come.
pub record IsAhead (t : Ticker) (now : ℕ) : Type 0 where
  pub positive : 0 < t.period
  pub later : now < t.next
  pub soon : t.next ≤ now + t.period

pub IsAhead-new_ticker : (now period : ℕ) → 0 < period → IsAhead (new_ticker now period) now
unfolding new_ticker
IsAhead-new_ticker now period h = record { positive = h; later = omega arith; soon = omega arith }

-- The time behind the dropped ticks is the next of the grid.
after_drops_lem :
    (t : Ticker) (now : ℕ)
    → 0 < t.period
    → t.next ≤ now
    → (now < after_drops t now)
      × (after_drops t now ≤ now + t.period)
      × (t.next + t.period ≤ after_drops t now)
unfolding after_drops
after_drops_lem t now h k =
    let q = (now - t.next) / t.period in
    let parts = div-add-mod (now - t.next) t.period in
    let rest = mod-lt (now - t.next) h in
    let one_more = mul-suc t.period q in
    (
      omega (arith, parts, rest, one_more),
      omega (arith, parts, rest, one_more),
      omega (arith, one_more),
    )

-- A receive, by whether a tick waits.
pub receive_tick_lem :
    (t : Ticker) (since now : ℕ)
    → IsAhead t since
    → since ≤ now
    → IsAhead (receive_tick t now).0 (receive_tick t now).1
      × (now ≤ (receive_tick t now).1)
      × ((receive_tick t now).1 ≤ now ⊎ (receive_tick t now).1 ≤ since + t.period)
      × (t.next + t.period ≤ (receive_tick t now).0.next)
      × ((receive_tick t now).0.period ≡ t.period)
unfolding receive_tick
receive_tick_lem t since now ahead h = elim (Bool-cases (leb t.next now)) [
  | inl waits ↦
      let fired : t.next ≤ now = ground arith in
      let (later, soon, further) = after_drops_lem t now ahead.positive fired in
      rw waits (
        record { positive = ahead.positive; later = later; soon = soon },
        omega arith,
        inl (omega arith),
        further,
        refl,
      )
  | inr early ↦
      let pending : now < t.next = ground arith in
      let positive = ahead.positive in
      let soon = ahead.soon in
      rw early (
        record { positive = positive; later = omega arith; soon = omega arith },
        omega arith,
        inr soon,
        omega arith,
        refl,
      )
]

-- Without a tick in the channel the receive returns on the grid.
pub receive_tick_early :
    (t : Ticker) (now : ℕ)
    → now < t.next
    → receive_tick t now ≡ (record t { next = t.next + t.period }, t.next)
unfolding receive_tick
receive_tick_early t now h = let early : leb t.next now ≡ false = ground arith in rw early refl
