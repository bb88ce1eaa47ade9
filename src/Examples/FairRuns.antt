-- ===== src/Examples/FairRuns.antt =====
-- The goroutines of two requests by turns, with a reset between.
use ebpf_ssf_broker.Base.{
  ℕ, ◌+◌, ◌*◌, ◌%◌, ◌<◌, ◌≡◌, refl, sym, subst, ◌⊎◌, inl, inr, false, arith, ◌==◌, if◌then◌else◌,
  ==_iff, Bool-cases, text_eq, contains,
}
use ebpf_ssf_broker.Caep.Jwt.{decode_unsigned}
use ebpf_ssf_broker.Caep.Set.{new_set, SetClaims}
use ebpf_ssf_broker.Examples.Token.{write_token, read_token}
use ebpf_ssf_broker.Translator.Post.{set_request}
use ebpf_ssf_broker.Actuator.Server.Fits.{IsEvent}
use ebpf_ssf_broker.Actuator.Server.Revokes.{IsLeftOut, IsRevoked, all-IsRevoked}
use ebpf_ssf_broker.Examples.Concurrency.{up_deps, up_laws, accepts_all, IsSpiffe-subject}
use ebpf_ssf_broker.Go.Http.{Response}
use ebpf_ssf_broker.Actuator.Server.{
  just_started, serve_slices, Part, handler_side, mesh_side, label_side, Slice, slice, forget,
  answered, Incoming,
}
use ebpf_ssf_broker.Actuator.Server.Fair.{prefix, IsFair, fair-IsAnswered}
use ebpf_ssf_broker.Examples.World.{
  deps, clock_now, fresh, subject_a, principal_a, token_for, request_for,
}
use ebpf_ssf_broker.Examples.Counting.{sample_client}
use ebpf_ssf_broker.Actuator.Mesh.Laws.{IsSpiffe}

abbrev pick : ℕ → Slice
pick n =
    if n == 0
    then slice 0 handler_side
    else if n == 1
    then slice 0 mesh_side
    else if n == 2
    then slice 0 label_side
    else if n == 3
    then slice 1 handler_side
    else if n == 4
    then slice 1 mesh_side
    else if n == 5
    then slice 1 label_side
    else forget principal_a

round_robin : ℕ → Slice
round_robin n = pick (n % 7)

IsFair-round_robin : IsFair 0 round_robin
unfolding round_robin
IsFair-round_robin handler_side k =
    let e : (7 * k) % 7 ≡ 0 = omega arith in (7 * k, omega arith, rw e refl)
IsFair-round_robin mesh_side k =
    let e : (7 * k + 1) % 7 ≡ 1 = omega arith in (7 * k + 1, omega arith, rw e refl)
IsFair-round_robin label_side k =
    let e : (7 * k + 2) % 7 ≡ 2 = omega arith in (7 * k + 2, omega arith, rw e refl)

abbrev both : ℕ → Incoming
both i = record { now = clock_now; request = request_for subject_a }

fair-IsAnswered_example :
    (n : ℕ) × (response : Response) × ((serve_slices deps sample_client both
          (prefix round_robin n)
          (just_started deps sample_client (fresh false).policies (fresh false).pods)).at
        0
      ≡ answered response)
fair-IsAnswered_example =
    fair-IsAnswered deps sample_client both 0 round_robin
      (just_started deps sample_client (fresh false).policies (fresh false).pods) IsFair-round_robin

IsFair-second : IsFair 1 round_robin
unfolding round_robin
IsFair-second handler_side k =
    let e : (7 * k + 3) % 7 ≡ 3 = omega arith in (7 * k + 3, omega arith, rw e refl)
IsFair-second mesh_side k =
    let e : (7 * k + 4) % 7 ≡ 4 = omega arith in (7 * k + 4, omega arith, rw e refl)
IsFair-second label_side k =
    let e : (7 * k + 5) % 7 ≡ 5 = omega arith in (7 * k + 5, omega arith, rw e refl)

two_only : (m j : ℕ) (part : Part) → pick m ≡ slice j part → j < 2
two_only m j part h = ground arith

IsFair-or_out : (j : ℕ) → IsFair j round_robin ⊎ IsLeftOut up_deps sample_client both j round_robin
unfolding round_robin
IsFair-or_out j = elim (Bool-cases (j == 0)) [
  | inl first ↦
      inl (subst (λ k. IsFair k round_robin) (sym ((==_iff j 0).0 first)) IsFair-round_robin)
  | inr later ↦ elim (Bool-cases (j == 1)) [
    | inl second ↦
        inl (subst (λ k. IsFair k round_robin) (sym ((==_iff j 1).0 second)) IsFair-second)
    | inr rest ↦ inr (λ part n h. let few = two_only (n % 7) j part h in ground arith)
  ]
]

-- The SET as it is read.
abbrev read_a : SetClaims
read_a = read_token (token_for subject_a)

both_events : IsEvent up_deps (both 1) read_a
unfolding decode_unsigned set_request text_eq contains
both_events = ((token_for subject_a, refl, refl), refl)

IsSpiffe-read : IsSpiffe read_a.sub_id.uri
unfolding new_set read_token write_token
IsSpiffe-read = IsSpiffe-subject

all-IsRevoked_example :
    (n : ℕ) × IsRevoked up_deps accepts_all up_laws sample_client both 1 read_a both_events
      IsSpiffe-read
      (serve_slices up_deps sample_client both
        (prefix round_robin n)
        (just_started up_deps sample_client (fresh false).policies (fresh false).pods))
all-IsRevoked_example =
    all-IsRevoked up_deps accepts_all up_laws sample_client both 1 read_a both_events IsSpiffe-read
      round_robin (fresh false).policies (fresh false).pods IsFair-second IsFair-or_out
