-- ===== src/Actuator/Race/Acknowledged.antt =====
-- cmd/actuator: the answers of concurrent calls while no PATCH has failed.
use ebpf_ssf_broker.Base.{
  ℕ, ◌≡◌, refl, sym, subst, ◌⊎◌, inl, inr, Bool, true, false, [], ◌∷◌, ◌++◌, arith, ◌==◌, ==_iff,
  Bool-cases, Text, contains,
}
use ebpf_ssf_broker.Actuator.Race.Settled.{
  InFlight, Covered, stepped, Covered-after, append_grows, append_own, held_settled,
}
use ebpf_ssf_broker.Actuator.Race.{
  stored, held, accepted, rejected, lost, dropped, update, act, reset, begin, next, busy, Pc, entry,
  patching, failing, patched, duplicate, gave_up, Shared, Move, System, Reach,
}
use ebpf_ssf_broker.Actuator.Dedupe.{Revoked, load_or_store, delete}

-- The call returned without an error.
abbrev pub has_answered : Pc → Bool
has_answered patched = true
has_answered duplicate = true
has_answered entry = false
has_answered patching = false
has_answered failing = false
has_answered gave_up = false

-- The PATCH of the call was answered by an error.
abbrev pub has_failed : Pc → Bool
has_failed failing = true
has_failed gave_up = true
has_failed entry = false
has_failed patching = false
has_failed patched = false
has_failed duplicate = false

abbrev NoneFailed : System → Type 0
NoneFailed s = (j : ℕ) → has_failed (s.pc j) ≡ false

abbrev Acknowledges : (ℕ → Text) → System → Type 0
Acknowledges subject s = (j : ℕ) → has_answered (s.pc j) ≡ true → Covered subject s (subject j)

module _ (subject : ℕ → Text) (s : System) (i : ℕ) (s' : Shared) (c : Pc) where
  abbrev after : System
  after = stepped subject s i s' c

  failed_own : NoneFailed after → has_failed c ≡ false
  failed_own fine = let k = fine i in ground (arith, k)

  failed_before : has_failed (s.pc i) ≡ false → NoneFailed after → NoneFailed s
  failed_before own fine j = elim (Bool-cases (j == i)) [
    | inl same ↦ rw ((==_iff j i).0 same) own
    | inr other ↦ let k = fine j in rw other at k
  ]

  acknowledged_after :
      ((q : Text) → contains s.shared.appended q ≡ true → contains s'.appended q ≡ true)
      → ((q : Text) → subject i ≡ q → busy (s.pc i) ≡ true → Covered subject after q)
      → (has_answered c ≡ true → Covered subject after (subject i))
      → Acknowledges subject s
      → Acknowledges subject after
  acknowledged_after grows own mine acks j a = elim (Bool-cases (j == i)) [
    | inl same ↦
        subst (λ n. Covered subject after (subject n)) (sym ((==_iff j i).0 same))
          (mine (rw same at a))
    | inr other ↦
        Covered-after subject s i s' c (subject j) (grows (subject j)) (own (subject j))
          (acks j (rw other at a))
  ]

held_before : (m m' : Revoked) (p : Text) → load_or_store m p ≡ (m', true) → contains m p ≡ true
unfolding load_or_store
held_before m m' p h = ground arith

acknowledged-Move :
    {faulty : Bool} (subject : ℕ → Text) (s : System) (i : ℕ) {c c' : Pc} {s' : Shared}
    → Reach subject faulty s
    → s.pc i ≡ c
    → Move faulty (subject i) s.shared c s' c'
    → NoneFailed (record { shared = s'; pc = update s.pc i c' })
    → (NoneFailed s → Acknowledges subject s)
    → Acknowledges subject (record { shared = s'; pc = update s.pc i c' })
acknowledged-Move subject s i r e (stored {m} h) fine acks =
    let s' : Shared = record s.shared { revoked = m } in
    let before = failed_before subject s i s' patching (rw e refl) fine in
    acknowledged_after subject s i s' patching (λ q a. a) (λ q _ b. cc (e, b)) (λ a. cc)
      (acks before)
acknowledged-Move {faulty} subject s i r e (held {m} h) fine acks =
    let before = failed_before subject s i s.shared duplicate (rw e refl) fine in
    let known =
      held_settled subject faulty s (subject i) r (held_before s.shared.revoked m (subject i) h) in
    acknowledged_after subject s i s.shared duplicate (λ q a. a) (λ q _ b. cc (e, b))
      (λ a.
        Covered-after subject s i s.shared duplicate (subject i) (λ x. x) (λ _ b. cc (e, b)) known)
      (acks before)
acknowledged-Move subject s i r e accepted fine acks =
    let s' : Shared = record s.shared { appended = s.shared.appended ++ subject i ∷ [] } in
    let before = failed_before subject s i s' patched (rw e refl) fine in
    acknowledged_after subject s i s' patched (append_grows s.shared.appended (subject i))
      (λ q eq _. inl (append_own s.shared.appended (subject i) q eq))
      (λ a. inl (append_own s.shared.appended (subject i) (subject i) refl)) (acks before)
acknowledged-Move subject s i r e rejected fine acks =
    let k = failed_own subject s i s.shared failing fine in cc
acknowledged-Move subject s i r e (lost f) fine acks =
    let s' : Shared = record s.shared { appended = s.shared.appended ++ subject i ∷ [] } in
    let k = failed_own subject s i s' failing fine in cc
acknowledged-Move subject s i r e dropped fine acks =
    let s' : Shared = record s.shared { revoked = delete s.shared.revoked (subject i) } in
    let k = failed_own subject s i s' gave_up fine in cc

acknowledged-Reach :
    {subject : ℕ → Text} {faulty : Bool} {s : System}
    → Reach subject faulty s
    → NoneFailed s
    → Acknowledges subject s
acknowledged-Reach begin fine = λ j a. cc
acknowledged-Reach {subject} (next {s} r (act i e mv)) fine =
    acknowledged-Move subject s i r e mv fine (λ before. acknowledged-Reach r before)
acknowledged-Reach (next r (reset key f)) fine = acknowledged-Reach r fine

-- Under every schedule, resets included, in which no PATCH has been answered by an error so far,
-- each call that returned without an error, as a duplicate too, has its principal in what was
-- appended to the policy, or a call for this principal is still in flight.
pub answered_covered :
    (subject : ℕ → Text) (faulty : Bool) (s : System) (i : ℕ)
    → Reach subject faulty s
    → ((j : ℕ) → has_failed (s.pc j) ≡ false)
    → has_answered (s.pc i) ≡ true
    → (contains s.shared.appended (subject i) ≡ true) ⊎ InFlight subject s (subject i)
answered_covered subject faulty s i r fine a = acknowledged-Reach r fine i a
