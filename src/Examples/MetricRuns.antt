-- ===== src/Examples/MetricRuns.antt =====
-- The metrics of the actuator after some requests.
use ebpf_ssf_broker.Base.{refl, true, List, [], ◌∷◌, All, codes}
use ebpf_ssf_broker.Examples.Counting.{sample_client, sample_client_laws}
use ebpf_ssf_broker.Examples.World.{deps, at, clock_now, fresh, subject_a, request_for}
use ebpf_ssf_broker.Actuator.History.{Input, event, reset_dedupe}
use ebpf_ssf_broker.Actuator.Registry.{registered, serve_inputs, Process}
use ebpf_ssf_broker.Actuator.Registry.Added.{IsTimed}
use ebpf_ssf_broker.Actuator.Registry.Observed.{Matches-serve_inputs, Matches}
use ebpf_ssf_broker.Translator.Post.{set_request}
use ebpf_ssf_broker.Go.Clock.{is_zero}

-- An event, the same again, a reset, and an event that no longer is a SET.
abbrev requests : List Input
requests =
    event clock_now (request_for subject_a)
    ∷ event clock_now (request_for subject_a)
    ∷ reset_dedupe (request_for subject_a)
    ∷ event clock_now (set_request (codes "no token") (at 100) (at 300))
    ∷ []

abbrev served : Process deps sample_client
served =
    serve_inputs deps sample_client
      (record { state = fresh true; metrics = registered sample_client }) requests

timed : All IsTimed requests
unfolding is_zero
timed = ((refl, refl), ((refl, refl), (tt, ((refl, refl), tt))))

Matches-serve_inputs_example : Matches deps sample_client sample_client_laws served
Matches-serve_inputs_example =
    Matches-serve_inputs deps sample_client sample_client_laws (fresh true) requests timed
