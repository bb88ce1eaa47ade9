-- ===== src/Actuator/Main/Laws.antt =====
-- cmd/actuator/main.go: the metrics listener under every environment.
use ebpf_ssf_broker.Base.{
  ◌≡◌, refl, Bool, true, false, Option, none, some, List, [], ◌∷◌, arith, Text, text_eq, is_empty,
}
use ebpf_ssf_broker.Go.Http.{Fields}
use ebpf_ssf_broker.Metrics.{metrics_path, serve, route_of, Listener}
use ebpf_ssf_broker.Actuator.Main.{
  getenv, reset_dedupe_path, metrics_addr_key, default_metrics_addr, control_listener, listener,
  exit, listen_and_serve, main, Effect,
}

pub getenv_filled :
    (env : Fields) (key fallback : Text)
    → is_empty fallback ≡ false
    → is_empty (getenv env key fallback) ≡ false
unfolding getenv
getenv_filled env key fallback h = ground arith

-- Under every environment, an empty METRICS_ADDR included, main starts the listener, and its mux
-- answers /metrics by the metrics handler and /admin/reset-dedupe by the reset handler.
pub control_listener_lem {ℓ} :
    {H : Type ℓ} (promhttp reset : H) (env : Fields)
    → (l : Listener H) × (control_listener promhttp reset env ≡ some l)
      × (route_of l.mux metrics_path ≡ some promhttp)
      × (route_of l.mux reset_dedupe_path ≡ some reset)
unfolding control_listener serve
control_listener_lem promhttp reset env = (
  record {
    addr = getenv env metrics_addr_key default_metrics_addr;
    mux = (metrics_path, promhttp) ∷ (reset_dedupe_path, reset) ∷ [];
  },
  rw (getenv_filled env metrics_addr_key default_metrics_addr refl),
  unfold route_of text_eq in refl,
  unfold route_of text_eq in refl,
)

-- What main serves: its effects hold a mux with a route.
abbrev pub serves {ℓ} : {H : Type ℓ} → List (Effect H) → Text → Option H
serves [] path = none
serves (listener l ∷ es) path = serves es path
serves (exit code ∷ es) path = none
serves (listen_and_serve addr mux ∷ es) path = route_of mux path

abbrev pub exits {ℓ} : {H : Type ℓ} → List (Effect H) → Bool
exits [] = false
exits (listener l ∷ es) = exits es
exits (exit code ∷ es) = true
exits (listen_and_serve addr mux ∷ es) = false

module _ {ℓ κ} {H : Type ℓ} {Config Client : Type κ} (promhttp reset : H)
    (events : Client → (namespace policy_name : Text) → H) (env : Fields)
    (in_cluster : Option Config) (new_client : Config → Option Client) where
  abbrev started : List (Effect H)
  started = main promhttp reset events env in_cluster new_client

  -- The listener was started first, and answers /metrics and the reset.
  pub record Controls : Type (ℓ ⊔ κ) where
    pub control : Listener H
    pub later : List (Effect H)
    pub first : started ≡ listener (some control) ∷ later
    pub scraped : route_of control.mux metrics_path ≡ some promhttp
    pub resets : route_of control.mux reset_dedupe_path ≡ some reset
