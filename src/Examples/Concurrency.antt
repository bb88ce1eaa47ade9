-- ===== src/Examples/Concurrency.antt =====
-- Calls of revokeInMesh that overlap, in front of the sample API server.
use ebpf_ssf_broker.Base.{
  ℕ, ◌≤◌, ◌≡◌, refl, ap, ◌⊎◌, inl, inr, Bool, true, false, List, [], ◌∷◌, ◌++◌, arith, ◌==◌, ==_iff,
  Bool-cases, Text, codes, text_eq, contains,
}
use ebpf_ssf_broker.Actuator.Concurrent.Settles.{AcceptsAll, burst_revokes}
use ebpf_ssf_broker.Examples.Token.{sample_jwt}
use ebpf_ssf_broker.Actuator.Events.{Deps}
use ebpf_ssf_broker.Actuator.Concurrent.View.{All-Allowed, any_refusals}
use ebpf_ssf_broker.Examples.World.{
  accepted_by, refused_by, sample_policy_laws, sample_pods_api, deps, fresh, subject_a, principal_a,
  honest_server,
}
use ebpf_ssf_broker.Examples.Cluster.{patch_policy, patch_policy_body, Server}
use ebpf_ssf_broker.Actuator.Concurrent.{run, at_start, turns_of, Sched, turn, forget}
use ebpf_ssf_broker.Actuator.Concurrent.Refines.{run-refines, IsSeen}
use ebpf_ssf_broker.Actuator.Concurrent.Burst.{burst_adds_once}
use ebpf_ssf_broker.Actuator.Mesh.{PolicyApi}
use ebpf_ssf_broker.Actuator.Race.Invariant.{NoDup}
use ebpf_ssf_broker.Go.Strings.{cut_prefix, trim_prefix}
use ebpf_ssf_broker.Actuator.Mesh.Laws.{principal_of, IsSpiffe, PolicyLaws}

-- Every event is for the first pod.
abbrev events_a : ℕ → Text
events_a i = subject_a

-- The second call begins while the first one is at its PATCH.
abbrev overlap : List Sched
overlap = turn 0 ∷ turn 1 ∷ turn 0 ∷ []

-- The first PATCH is refused, the key dropped, then a third call revokes; a reset follows.
abbrev retried : List Sched
retried = turn 0 ∷ turn 0 ∷ turn 1 ∷ turn 0 ∷ turn 2 ∷ turn 2 ∷ forget principal_a ∷ []

abbrev server : Bool → Server
server up = (fresh up).policies

run-refines_example :
    (a : List Text) × IsSeen deps sample_policy_laws true
      (any_refusals deps sample_policy_laws)
      []
      events_a
      (run deps events_a retried (at_start deps (server false)))
      a
run-refines_example =
    run-refines deps sample_policy_laws true (any_refusals deps sample_policy_laws) [] events_a
      retried (server false) (All-Allowed retried) refl

burst_adds_once_example :
    (a : List Text) × ((run deps events_a overlap (at_start deps (server true))).policies.entries
      ≡ (server true).entries ++ a)
    × NoDup a
burst_adds_once_example =
    burst_adds_once deps sample_policy_laws events_a overlap (server true) honest_server
      (tt, (tt, (tt, tt)))

-- A server without outages.
abbrev pub up : Server → Server
up s = record s { outages = 0 }

abbrev pub up_policies : PolicyApi
up_policies = record { Store = Server; patch = λ s ns name body. patch_policy (up s) body }

abbrev pub up_deps : Deps
up_deps = record {
  jwt = sample_jwt;
  policy_api = up_policies;
  pod_api = sample_pods_api;
  namespace = codes "zta-ssf";
  policy_name = codes "revoked-identities";
}

abbrev pub up_laws : PolicyLaws up_policies
up_laws = record {
  principals = λ s namespace name. s.entries;
  accepts = λ s namespace name p body h ok. accepted_by (up s) p body h ok;
  refuses = λ s namespace name p body h error. refused_by (up s) p body h error;
}

pub accepts_all : AcceptsAll up_deps
accepts_all s p body h = ap (λ o. o.1) (patch_policy_body (up s) p body h)

-- Two calls that take turns.
abbrev in_turns : List Sched
in_turns = turn 0 ∷ turn 1 ∷ turn 0 ∷ turn 1 ∷ turn 0 ∷ turn 1 ∷ []

three_or_none : (j : ℕ) → (turns_of j in_turns ≡ 0) ⊎ (3 ≤ turns_of j in_turns)
three_or_none j = elim (Bool-cases (j == 0)) [
  | inl first ↦ rw ((==_iff j 0).0 first) (inr (omega arith))
  | inr later ↦ elim (Bool-cases (j == 1)) [
    | inl second ↦ rw ((==_iff j 1).0 second) (inr (omega arith))
    | inr rest ↦ rw (later, rest) (inl refl)
  ]
]

pub IsSpiffe-subject : IsSpiffe subject_a
unfolding text_eq trim_prefix cut_prefix
IsSpiffe-subject = (refl, refl)

burst_revokes_example :
    (contains
        (run up_deps events_a in_turns (at_start up_deps (server false))).policies.entries
        (principal_of subject_a)
      ≡ true)
    × ((a : List Text) × ((run up_deps events_a in_turns
            (at_start up_deps (server false))).policies.entries
          ≡ (server false).entries ++ a)
        × NoDup a)
burst_revokes_example =
    burst_revokes up_deps accepts_all up_laws events_a in_turns (server false) 1
      (tt, (tt, (tt, (tt, (tt, (tt, tt)))))) three_or_none (omega arith) IsSpiffe-subject
