-- ===== src/Actuator/Main.antt =====
-- cmd/actuator/main.go: getenv, and main from its environment to what it serves.
pub mod Laws
use ebpf_ssf_broker.Base.{
  ℕ, not, Option, none, some, List, [], ◌∷◌, if◌then◌else◌, Text, codes, is_empty,
}
use ebpf_ssf_broker.Go.Http.{Fields, field}
use ebpf_ssf_broker.Metrics.{Route, serve, Listener}

-- getenv over the environment, in which a missing variable reads as "".
unfoldable pub getenv : Fields → (key fallback : Text) → Text
getenv env key fallback = let v = field env key in if not (is_empty v) then v else fallback

abbrev pub reset_dedupe_path : Text
reset_dedupe_path = codes "/admin/reset-dedupe"

abbrev pub metrics_addr_key : Text
metrics_addr_key = codes "METRICS_ADDR"

abbrev pub default_metrics_addr : Text
default_metrics_addr = codes ":9091"

-- The call of metrics.Serve in main.
unfoldable pub control_listener {ℓ} :
    {H : Type ℓ} → (promhttp reset : H) → Fields → Option (Listener H)
control_listener promhttp reset env =
    serve promhttp (getenv env metrics_addr_key default_metrics_addr)
      ((reset_dedupe_path, reset) ∷ [])

-- The namespace and the name of the policy that main passes to eventsHandler.
abbrev pub policy_of_env : Fields → Text × Text
policy_of_env env = (
  getenv env (codes "POLICY_NAMESPACE") (codes "zta-ssf"),
  getenv env (codes "POLICY_NAME") (codes "revoked-identities"),
)

-- What main does to the outside: the metrics listener that it starts or not, its exit, and the
-- address and the routes that it serves at last.
pub data Effect {ℓ} (H : Type ℓ) : Type ℓ where
  listener : Option (Listener H) → Effect H
  exit : (code : ℕ) → Effect H
  listen_and_serve : (addr : Text) → List (Route H) → Effect H

abbrev pub events_path : Text
events_path = codes "/events"

module _ {ℓ κ} {H : Type ℓ} {Client : Type κ} (events : Client → (namespace policy_name : Text) → H)
    (env : Fields) where
  with_client : Option Client → List (Effect H)
  with_client none = exit 1 ∷ []
  with_client (some client) =
      let (namespace, policy_name) = policy_of_env env in
      listen_and_serve (field env (codes "LISTEN_ADDR"))
        ((events_path, events client namespace policy_name) ∷ [])
      ∷ []

module _ {ℓ κ} {H : Type ℓ} {Config Client : Type κ}
    (events : Client → (namespace policy_name : Text) → H) (env : Fields) where
  with_config : (Config → Option Client) → Option Config → List (Effect H)
  unfolding with_client
  with_config new_client none = exit 1 ∷ []
  with_config new_client (some cfg) = with_client events env (new_client cfg)

module _ {ℓ κ} {H : Type ℓ} {Config Client : Type κ} (promhttp reset : H)
    (events : Client → (namespace policy_name : Text) → H) (env : Fields) where
  -- main, where `in_cluster` is what rest.InClusterConfig returns and `new_client` is
  -- dynamic.NewForConfig, `none` for their errors.
  unfoldable pub main : (in_cluster : Option Config) → (Config → Option Client) → List (Effect H)
  unfolding with_config
  main in_cluster new_client =
      listener (control_listener promhttp reset env) ∷ with_config events env new_client in_cluster
