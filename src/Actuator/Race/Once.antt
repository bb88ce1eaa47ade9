-- ===== src/Actuator/Race/Once.antt =====
-- cmd/actuator: what concurrent calls append without faults.
use ebpf_ssf_broker.Base.{ℕ, ◌≡◌, false, ◌∷◌, arith, Text, contains}
use ebpf_ssf_broker.Actuator.Dedupe.{Revoked, load_or_store}
use ebpf_ssf_broker.Actuator.Race.{
  stored, held, accepted, rejected, lost, dropped, update, act, reset, begin, next, Pc, failing,
  duplicate, Shared, Move, System, Step, Reach,
}
use ebpf_ssf_broker.Actuator.Race.Invariant.{
  NoDup, Inv-start, Inv-quiet, Inv-stored, Inv-accepted, Inv-dropped, Inv,
}

-- What LoadOrStore answers, by whether it held the key.
stored_new :
    (m m' : Revoked) (p : Text)
    → load_or_store m p ≡ (m', false)
    → (contains m p ≡ false) × (m' ≡ p ∷ m)
unfolding load_or_store
stored_new m m' p h = ground arith

Inv-Move :
    (subject : ℕ → Text) (s : System) (i : ℕ) {c c' : Pc} {s' : Shared}
    → Inv subject s
    → s.pc i ≡ c
    → Move false (subject i) s.shared c s' c'
    → Inv subject (record { shared = s'; pc = update s.pc i c' })
Inv-Move subject s i inv e (stored {m} h) =
    let (new, added) = stored_new s.shared.revoked m (subject i) h in
    rw added (Inv-stored subject s inv i new)
Inv-Move subject s i inv e (held h) = Inv-quiet subject s inv i duplicate (λ b. cc)
Inv-Move subject s i inv e accepted = Inv-accepted subject s inv i (rw e)
Inv-Move subject s i inv e rejected = Inv-quiet subject s inv i failing (λ b. rw e)
Inv-Move subject s i inv e (lost f) = cc
Inv-Move subject s i inv e dropped = Inv-dropped subject s inv i (rw e)

Inv-Step :
    {subject : ℕ → Text} {s t : System} → Inv subject s → Step subject false s t → Inv subject t
Inv-Step {subject} {s} inv (act i e mv) = Inv-Move subject s i inv e mv
Inv-Step inv (reset key f) = cc

Inv-Reach : {subject : ℕ → Text} {s : System} → Reach subject false s → Inv subject s
Inv-Reach {subject} begin = Inv-start subject
Inv-Reach (next r st) = Inv-Step (Inv-Reach r) st

-- However many events arrive at once, for whatever subjects, and however their calls interleave,
-- no principal is appended to the policy twice, as long as no answer is lost and nobody resets.
pub appended_once :
    (subject : ℕ → Text) (s : System) → Reach subject false s → NoDup s.shared.appended
appended_once subject s r = (Inv-Reach r).nodup
