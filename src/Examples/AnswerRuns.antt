-- ===== src/Examples/AnswerRuns.antt =====
-- A life of the actuator from two dedupe sets that hold the same keys in another order.
use mathlib.Core.Quot
use ebpf_ssf_broker.Base.{
  ◌≡◌, refl, true, List, [], ◌∷◌, arith, Text, codes, text_eq, contains, contains-cons,
}
use ebpf_ssf_broker.Actuator.Dedupe.Keys.{SameKeys}
use ebpf_ssf_broker.Actuator.Events.{State}
use ebpf_ssf_broker.Actuator.History.{history, Input, event, reset_dedupe}
use ebpf_ssf_broker.Actuator.History.Keys.{answers, view}
use ebpf_ssf_broker.Actuator.History.Answers.{answers-view}
use ebpf_ssf_broker.Examples.World.{deps, clock_now, fresh, subject_a, principal_a, request_for}

abbrev principal_b : Text
principal_b = codes "example.org/ns/demo/sa/service-b"

abbrev from_keys : List Text → State deps
from_keys keys = record (fresh true) { revoked = keys }

swapped : (p q : Text) → SameKeys (p ∷ q ∷ []) (q ∷ p ∷ [])
swapped p q r = ground (
  arith,
  contains-cons (q ∷ []) p r,
  contains-cons [] q r,
  contains-cons (p ∷ []) q r,
  contains-cons [] p r,
)

abbrev life : List Input
life =
    event clock_now (request_for subject_a)
    ∷ reset_dedupe (request_for subject_a)
    ∷ event clock_now (request_for subject_a)
    ∷ []

answers-view_example :
    (answers deps (from_keys (principal_a ∷ principal_b ∷ [])) life
      ≡ answers deps (from_keys (principal_b ∷ principal_a ∷ [])) life)
    × (view deps (history deps (from_keys (principal_a ∷ principal_b ∷ [])) life)
        ≡ view deps (history deps (from_keys (principal_b ∷ principal_a ∷ [])) life))
unfolding contains text_eq
answers-view_example =
    answers-view deps (from_keys (principal_a ∷ principal_b ∷ []))
      (from_keys (principal_b ∷ principal_a ∷ [])) life (refl, (refl, tt)) (refl, (refl, tt))
      (λ i. record {
        keys =
            Quot.sound {a = principal_a ∷ principal_b ∷ []} {b = principal_b ∷ principal_a ∷ []}
              (swapped principal_a principal_b) i;
        policies = (fresh true).policies;
        pods = (fresh true).pods;
      })
