-- ===== src/Examples/RaceRuns.antt =====
-- Schedules of concurrent calls, and of the goroutines of one request.
use ebpf_ssf_broker.Base.{
  ℕ, ◌≤◌, ◌≡◌, refl, ◌⊎◌, inl, inr, Bool, true, false, List, [], ◌∷◌, arith, ◌==◌, Bool-cases, Text,
  text_eq, contains,
}
use ebpf_ssf_broker.Examples.World.{deps, fresh, subject_a, principal_a}
use ebpf_ssf_broker.Actuator.Goroutines.Join.{turns_of_label, interleave-joined, Joined}
use ebpf_ssf_broker.Actuator.Goroutines.LabelSide.{label_left}
use ebpf_ssf_broker.Actuator.Goroutines.{
  interleave, mesh_started, label_started, Turn, mesh_turn, label_turn, at_list,
}
use ebpf_ssf_broker.Actuator.Race.Alone.{duplicate_undenied}
use ebpf_ssf_broker.Actuator.Race.Acknowledged.{has_failed, answered_covered}
use ebpf_ssf_broker.Actuator.Race.Settled.{InFlight, held_settled}
use ebpf_ssf_broker.Actuator.Race.{
  update, start, patching, duplicate, gave_up, Shared, stored, held, System, act, Reach, begin,
  next,
}
use ebpf_ssf_broker.Actuator.Events.{mesh_part, joined}
use ebpf_ssf_broker.Actuator.Labels.{remove_spire_label}
use ebpf_ssf_broker.Actuator.WorkloadId.{parse_workload_id}
use ebpf_ssf_broker.Actuator.Dedupe.{load_or_store}
use ebpf_ssf_broker.Go.Http.{has_key}
use ebpf_ssf_broker.Go.Strings.{cut_prefix, split}

-- Every call is for the first pod.
abbrev for_a : ℕ → Text
for_a i = principal_a

-- The shared state after LoadOrStore, and after the PATCH.
abbrev held_a : List Text → Shared
held_a appended = record { revoked = principal_a ∷ []; appended = appended }

abbrev in_flight : System
in_flight = record { shared = held_a []; pc = update start.pc 0 patching }

stored_a : load_or_store [] principal_a ≡ (principal_a ∷ [], false)
unfolding load_or_store contains
stored_a = refl

Reach-flight : (faulty : Bool) → Reach for_a faulty in_flight
Reach-flight faulty = next begin (act 0 refl (stored stored_a))

holds_a : contains (principal_a ∷ []) principal_a ≡ true
unfolding contains text_eq
holds_a = refl

held_settled_example :
    (contains in_flight.shared.appended principal_a ≡ true) ⊎ InFlight for_a in_flight principal_a
held_settled_example = held_settled for_a true in_flight principal_a (Reach-flight true) holds_a

-- A second event arrives while the first is in flight.
abbrev repeated_a : System
repeated_a = record { shared = held_a []; pc = update in_flight.pc 1 duplicate }

known_a : load_or_store (principal_a ∷ []) principal_a ≡ (principal_a ∷ [], true)
unfolding load_or_store contains text_eq
known_a = refl

Reach-repeated : Reach for_a true repeated_a
Reach-repeated = next (Reach-flight true) (act 1 refl (held known_a))

none_failed : (j : ℕ) → has_failed (repeated_a.pc j) ≡ false
none_failed j = elim (Bool-cases (j == 1)) [
  | inl second ↦ rw second refl
  | inr other ↦
      rw other (elim (Bool-cases (j == 0)) [ inl first ↦ rw first refl | inr rest ↦ rw rest refl ])
]

answered_covered_example :
    (contains repeated_a.shared.appended principal_a ≡ true) ⊎ InFlight for_a repeated_a principal_a
answered_covered_example = answered_covered for_a true repeated_a 1 Reach-repeated none_failed refl

duplicate_undenied_example :
    (s : System) × Reach for_a false s
    × (s.pc 0 ≡ gave_up)
    × (s.pc 1 ≡ duplicate)
    × (contains s.shared.appended principal_a ≡ false)
    × (contains s.shared.revoked principal_a ≡ false)
duplicate_undenied_example = duplicate_undenied principal_a

-- A schedule of the two goroutines of a request, for two pods with the label.
abbrev turns : List Turn
turns = label_turn ∷ mesh_turn ∷ label_turn ∷ mesh_turn ∷ mesh_turn ∷ label_turn ∷ label_turn ∷ []

enough : label_left deps subject_a at_list (fresh false).pods ≤ turns_of_label turns
unfolding label_left parse_workload_id cut_prefix split text_eq has_key
enough = omega arith

interleave-joined_example :
    Joined deps subject_a
      (joined deps (fresh false) subject_a)
      (mesh_part deps (fresh false) subject_a).outcome
      (remove_spire_label deps.pod_api (fresh false).pods subject_a).patched
      (remove_spire_label deps.pod_api (fresh false).pods subject_a).errors
      (interleave deps subject_a turns
        (mesh_started deps (fresh false))
        (label_started deps (fresh false))).0
      (interleave deps subject_a turns
        (mesh_started deps (fresh false))
        (label_started deps (fresh false))).1
interleave-joined_example =
    interleave-joined deps (fresh false) subject_a turns (omega arith) enough
