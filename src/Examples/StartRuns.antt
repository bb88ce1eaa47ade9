-- ===== src/Examples/StartRuns.antt =====
-- The main of the actuator, with handlers by their names.
use ebpf_ssf_broker.Base.{ℕ, ◌∷◌, ◌++◌, Text}

abbrev events_name : ℕ → Text → Text → Text
events_name client namespace policy_name = namespace ++ b'/' ∷ policy_name
