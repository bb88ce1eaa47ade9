-- ===== src/Actuator/Race/Settled.antt =====
-- cmd/actuator: what the dedupe set says about the policy, with every fault.
use ebpf_ssf_broker.Base.{
  ℕ, ◌≡◌, refl, sym, ap, ◌∙◌, ◌⊎◌, inl, inr, Bool, true, false, List, [], ◌∷◌, ◌++◌, arith, ◌==◌,
  ==_iff, Bool-cases, Text, text_eq_iff, contains, contains-append, contains-cons,
}
use ebpf_ssf_broker.Actuator.Race.{
  stored, held, accepted, rejected, lost, dropped, update, act, reset, begin, next, busy, Pc,
  patching, failing, patched, duplicate, gave_up, Shared, Move, System, Step, Reach,
}
use ebpf_ssf_broker.Actuator.Dedupe.{Revoked, load_or_store, delete, contains-delete}

-- Some call for the principal is between LoadOrStore and its return.
abbrev pub InFlight : (ℕ → Text) → System → Text → Type 0
InFlight subject s q = (i : ℕ) × (subject i ≡ q) × (busy (s.pc i) ≡ true)

abbrev pub Covered : (ℕ → Text) → System → Text → Type 0
Covered subject s q = (contains s.shared.appended q ≡ true) ⊎ InFlight subject s q

-- A key of the dedupe set is appended or in flight.
IsSettled : (ℕ → Text) → System → Type 0
IsSettled subject s = (q : Text) → contains s.shared.revoked q ≡ true → Covered subject s q

module _ (subject : ℕ → Text) (s : System) (i : ℕ) (s' : Shared) (c : Pc) where
  abbrev pub stepped : System
  stepped = record { shared = s'; pc = update s.pc i c }

  own-Covered : (q : Text) → busy c ≡ true → subject i ≡ q → Covered subject stepped q
  own-Covered q b e = inr (i, e, ground (arith, b))

  -- A principal that was in flight still is, or it is that of the call that stepped.
  flight_after :
      (q : Text)
      → InFlight subject s q
      → InFlight subject stepped q ⊎ ((subject i ≡ q) × (busy (s.pc i) ≡ true))
  flight_after q (j, e, b) = elim (Bool-cases (j == i)) [
    | inl same ↦ let k = (==_iff j i).0 same in inr (ap subject (sym k) ∙ e, rw k at b)
    | inr other ↦ inl (j, e, rw other b)
  ]

  -- The cover of a principal goes over to the next state if the step covers its own.
  pub Covered-after :
      (q : Text)
      → (contains s.shared.appended q ≡ true → contains s'.appended q ≡ true)
      → (subject i ≡ q → busy (s.pc i) ≡ true → Covered subject stepped q)
      → Covered subject s q
      → Covered subject stepped q
  Covered-after q grows own (inl a) = inl (grows a)
  Covered-after q grows own (inr f) = elim (flight_after q f) [
    | inl g ↦ inr g
    | inr (e, b) ↦ own e b
  ]

contains-load_or_store :
    (m m' : Revoked) (p q : Text) (b : Bool)
    → load_or_store m p ≡ (m', b)
    → contains m' q ≡ true
    → (contains m q ≡ true) ⊎ ((b ≡ false) × (p ≡ q))
unfolding load_or_store
contains-load_or_store m m' p q b h k = ground (arith, contains-cons m p q, text_eq_iff p q)

pub append_grows :
    (ps : List Text) (p q : Text) → contains ps q ≡ true → contains (ps ++ p ∷ []) q ≡ true
append_grows ps p q h = ground (arith, contains-append ps p q)

pub append_own : (ps : List Text) (p q : Text) → p ≡ q → contains (ps ++ p ∷ []) q ≡ true
append_own ps p q e = ground (arith, contains-append ps p q, text_eq_iff p q)

IsSettled-Move :
    {faulty : Bool} (subject : ℕ → Text) (s : System) (i : ℕ) {c c' : Pc} {s' : Shared}
    → IsSettled subject s
    → s.pc i ≡ c
    → Move faulty (subject i) s.shared c s' c'
    → IsSettled subject (record { shared = s'; pc = update s.pc i c' })
unfolding IsSettled
IsSettled-Move subject s i settled e (stored {m} h) q k =
    let s' : Shared = record { revoked = m; appended = s.shared.appended } in
    let own = own-Covered subject s i s' patching q refl in
    elim (contains-load_or_store s.shared.revoked m (subject i) q false h k) [
      | inl old ↦ Covered-after subject s i s' patching q (λ a. a) (λ eq _. own eq) (settled q old)
      | inr (_, eq) ↦ own eq
    ]
IsSettled-Move subject s i settled e (held h) q k =
    Covered-after subject s i s.shared duplicate q (λ a. a) (λ _ b. cc (e, b)) (settled q k)
IsSettled-Move subject s i settled e accepted q k =
    let s' : Shared = record {
      revoked = s.shared.revoked;
      appended = s.shared.appended ++ subject i ∷ [];
    } in
    Covered-after subject s i s' patched q (append_grows s.shared.appended (subject i) q)
      (λ eq _. inl (append_own s.shared.appended (subject i) q eq)) (settled q k)
IsSettled-Move subject s i settled e rejected q k =
    Covered-after subject s i s.shared failing q (λ a. a)
      (λ eq _. own-Covered subject s i s.shared failing q refl eq) (settled q k)
IsSettled-Move subject s i settled e (lost f) q k =
    let s' : Shared = record {
      revoked = s.shared.revoked;
      appended = s.shared.appended ++ subject i ∷ [];
    } in
    Covered-after subject s i s' failing q (append_grows s.shared.appended (subject i) q)
      (λ eq _. inl (append_own s.shared.appended (subject i) q eq)) (settled q k)
IsSettled-Move subject s i settled e dropped q k =
    let left = contains-delete s.shared.revoked (subject i) q in
    let s' : Shared = record {
      revoked = delete s.shared.revoked (subject i);
      appended = s.shared.appended;
    } in
    Covered-after subject s i s' gave_up q (λ a. a)
      (λ eq _. ground (arith, left, text_eq_iff (subject i) q)) (settled q (ground (arith, left)))

IsSettled-Step :
    {subject : ℕ → Text} {faulty : Bool} {s t : System}
    → IsSettled subject s
    → Step subject faulty s t
    → IsSettled subject t
IsSettled-Step {subject} {s = s} settled (act i e mv) = IsSettled-Move subject s i settled e mv
IsSettled-Step {subject} {s = s} settled (reset key f) =
    unfold IsSettled in λ q k. settled q (ground (arith, contains-delete s.shared.revoked key q))

IsSettled-Reach :
    {subject : ℕ → Text} {faulty : Bool} {s : System} → Reach subject faulty s → IsSettled subject s
IsSettled-Reach begin = unfold IsSettled in λ q k. unfold contains in cc
IsSettled-Reach (next r st) = IsSettled-Step (IsSettled-Reach r) st

-- Under every schedule, lost answers and resets included, a principal in the dedupe set was
-- appended to the policy or has a call in flight for it.
pub held_settled :
    (subject : ℕ → Text) (faulty : Bool) (s : System) (q : Text)
    → Reach subject faulty s
    → contains s.shared.revoked q ≡ true
    → (contains s.shared.appended q ≡ true) ⊎ InFlight subject s q
unfolding IsSettled
held_settled subject faulty s q r = IsSettled-Reach r q
