-- ===== src/Actuator/History.antt =====
-- cmd/actuator: what the process is sent over its life, one request after the other: events at
-- /events, and resets on the metrics listener.
pub mod Durable
pub mod Keys
pub mod Answers
use ebpf_ssf_broker.Base.{List, [], ◌∷◌}
use ebpf_ssf_broker.Actuator.Reset.{reset_dedupe_handler}
use ebpf_ssf_broker.Actuator.Events.{events_handler, Deps, Now, State}
use ebpf_ssf_broker.Go.Http.{Request}

pub data Input : Type 0 where
  event : Now → Request → Input
  reset_dedupe : Request → Input

module _ (d : Deps) where
  -- The handlers of main share the one dedupe set.
  unfoldable pub handle : State d → Input → State d
  handle st (event now req) = (events_handler d now req st).state
  handle st (reset_dedupe req) = record st { revoked = (reset_dedupe_handler req st.revoked).0 }

  unfoldable pub history : State d → List Input → State d
  history st [] = st
  history st (i ∷ is) = history (handle st i) is
