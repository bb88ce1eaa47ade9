-- ===== src/Metrics.antt =====
-- internal/metrics/metrics.go: the histogram buckets and the metrics listener.
pub mod Series
use ebpf_ssf_broker.Base.{
  ℕ, Option, none, some, List, [], ◌∷◌, if◌then◌else◌, Text, codes, text_eq, is_empty,
}

-- Buckets, in microseconds.
abbrev pub buckets : List ℕ
buckets =
    100 ∷ 250 ∷ 500 ∷ 1000 ∷ 1500 ∷ 2000 ∷ 3000 ∷ 4000 ∷ 6000 ∷ 8000 ∷ 10000 ∷ 12500 ∷ 15000 ∷ 17500
    ∷ 20000 ∷ 22500 ∷ 25000 ∷ 27500 ∷ 30000 ∷ 40000 ∷ 50000 ∷ 75000 ∷ 100000 ∷ 250000 ∷ 500000
    ∷ 1000000 ∷ 2500000 ∷ 5000000 ∷ []

-- A route, and what a mux holds for it: a pattern and a handler.
abbrev pub Route {ℓ} : Type ℓ → Type ℓ
Route H = Text × H

-- A listener that was started: its address and the handlers of its mux.
pub record Listener {ℓ} (H : Type ℓ) : Type ℓ where
  pub addr : Text
  pub mux : List (Route H)

abbrev pub metrics_path : Text
metrics_path = codes "/metrics"

module _ {ℓ} {H : Type ℓ} where
  -- Serve; `promhttp` is the handler of /metrics, `none` says that no listener was started.
  unfoldable pub serve : H → Text → List (Route H) → Option (Listener H)
  serve promhttp addr routes =
      if is_empty addr
      then none
      else some (record { addr = addr; mux = (metrics_path, promhttp) ∷ routes })

  -- The handler that a mux calls for a path that is one of its patterns.
  unfoldable pub route_of : List (Route H) → Text → Option H
  route_of [] path = none
  route_of ((pattern_path, h) ∷ mux) path =
      if text_eq pattern_path path then some h else route_of mux path
