-- ===== src/Actuator/Race/Invariant.antt =====
-- cmd/actuator: the invariant of the steps without faults.
use ebpf_ssf_broker.Base.{
  ℕ, ◌≡◌, refl, sym, ap, ◌∙◌, ◌≢◌, ◌⊎◌, inl, inr, true, false, List, [], ◌∷◌, ◌++◌, arith, ◌==◌,
  ==_iff, Bool-cases, Text, text_eq, text_eq_iff, text_eq_ne, contains, contains-append,
  contains-cons, contains_self,
}
use ebpf_ssf_broker.Actuator.Race.{update, start, busy, Pc, patching, patched, gave_up, System}
use ebpf_ssf_broker.Actuator.Dedupe.{delete, contains-delete}

abbrev pub NoDup : List Text → Type 0
NoDup [] = Unit
NoDup (p ∷ ps) = (contains ps p ≡ false) × NoDup ps

NoDup-append : (ps : List Text) (p : Text) → NoDup ps → contains ps p ≡ false → NoDup (ps ++ p ∷ [])
NoDup-append [] p h k = (unfold contains in refl, tt)
NoDup-append (q ∷ ps) p h k = (
  ground (arith, contains-append ps p q, contains-cons ps q p, text_eq_iff p q, text_eq_iff q p),
  NoDup-append ps p h.1 (ground (arith, contains-cons ps q p)),
)

pub record Inv (subject : ℕ → Text) (s : System) : Type 0 where
  pub nodup : NoDup s.shared.appended
  pub within : (q : Text) → contains s.shared.appended q ≡ true → contains s.shared.revoked q ≡ true
  pub stored : (i : ℕ) → busy (s.pc i) ≡ true → contains s.shared.revoked (subject i) ≡ true
  pub waiting : (i : ℕ) → busy (s.pc i) ≡ true → contains s.shared.appended (subject i) ≡ false
  pub unique :
      (i j : ℕ) → busy (s.pc i) ≡ true → busy (s.pc j) ≡ true → subject i ≡ subject j → i ≡ j

module _ (subject : ℕ → Text) where
  pub Inv-start : Inv subject start
  Inv-start = record {
    nodup = tt;
    within = λ q h. unfold contains in ground arith;
    stored = λ i h. cc;
    waiting = λ i h. cc;
    unique = λ i j h. cc;
  }

-- A call that is busy after an update is the updated one, or another that was busy before.
busy_cases :
    (f : ℕ → Pc) (i : ℕ) (c : Pc) (j : ℕ)
    → busy (update f i c j) ≡ true
    → ((j ≡ i) × (busy c ≡ true)) ⊎ ((j ≢ i) × (busy (f j) ≡ true))
busy_cases f i c j h = elim (Bool-cases (j == i)) [
  | inl same ↦ inl ((==_iff j i).0 same, rw same at h)
  | inr other ↦ inr (ground arith, rw other at h)
]

text_eq_sound : (p q : Text) → text_eq p q ≡ true → p ≡ q
text_eq_sound p q = (text_eq_iff p q).0

module _ (subject : ℕ → Text) (s : System) (inv : Inv subject s) (i : ℕ) where
  -- A step of call `i` that leaves the shared state alone, and does not make it busy.
  pub Inv-quiet :
      (c : Pc)
      → (busy c ≡ true → busy (s.pc i) ≡ true)
      → Inv subject (record s { pc = update s.pc i c })
  Inv-quiet c h = record {
    nodup = inv.nodup;
    within = inv.within;
    stored = λ j k. inv.stored j (was_busy j k);
    waiting = λ j k. inv.waiting j (was_busy j k);
    unique = λ j k hj hk. inv.unique j k (was_busy j hj) (was_busy k hk);
  }
    where
      was_busy : (j : ℕ) → busy (update s.pc i c j) ≡ true → busy (s.pc j) ≡ true
      was_busy j k = elim (busy_cases s.pc i c j k) [
        | inl (same, b) ↦ rw same (h b)
        | inr (differs, b) ↦ b
      ]

  module _ (new : contains s.shared.revoked (subject i) ≡ false) where
    not_appended : contains s.shared.appended (subject i) ≡ false
    not_appended = ground (arith, inv.within (subject i))

    others_differ : (j : ℕ) → busy (s.pc j) ≡ true → subject j ≡ subject i → ⊥
    others_differ j b e = cc (inv.stored j b, ap (λ q. contains s.shared.revoked q) e, new)

    -- LoadOrStore of a new key.
    pub Inv-stored : Inv subject (record {
      shared = record { revoked = subject i ∷ s.shared.revoked; appended = s.shared.appended };
      pc = update s.pc i patching;
    })
    Inv-stored = record {
      nodup = inv.nodup;
      within = λ q h. ground (arith, inv.within q h, contains-cons s.shared.revoked (subject i) q);
      stored = λ j k. elim (busy_cases s.pc i patching j k) [
        | inl (same, b) ↦ rw same (contains_self s.shared.revoked (subject i))
        | inr (differs, b) ↦
            ground (arith, inv.stored j b, contains-cons s.shared.revoked (subject i) (subject j))
      ];
      waiting = λ j k. elim (busy_cases s.pc i patching j k) [
        | inl (same, b) ↦ rw same not_appended
        | inr (differs, b) ↦ inv.waiting j b
      ];
      unique = λ j k hj hk e. elim (busy_cases s.pc i patching j hj) [
        | inl (same, b) ↦ elim (busy_cases s.pc i patching k hk) [
          | inl (same', b') ↦ same ∙ sym same'
          | inr (differs, b') ↦ absurd (others_differ k b' (sym e ∙ ap subject same))
        ]
        | inr (differs, b) ↦ elim (busy_cases s.pc i patching k hk) [
          | inl (same', b') ↦ absurd (others_differ j b (e ∙ ap subject same'))
          | inr (differs', b') ↦ inv.unique j k b b' e
        ]
      ];
    }

  module _ (waits : busy (s.pc i) ≡ true) where
    still_busy :
        (c : Pc) (j : ℕ)
        → busy c ≡ false
        → busy (update s.pc i c j) ≡ true
        → (busy (s.pc j) ≡ true) × (text_eq (subject i) (subject j) ≡ false)
    still_busy c j idle k = elim (busy_cases s.pc i c j k) [
      | inl (same, b) ↦ cc
      | inr (differs, b) ↦
          (b, text_eq_ne (subject i) (subject j) (λ e. differs (sym (inv.unique i j waits b e))))
    ]

    -- An accepted PATCH.
    pub Inv-accepted : Inv subject (record {
      shared = record {
        revoked = s.shared.revoked;
        appended = s.shared.appended ++ subject i ∷ [];
      };
      pc = update s.pc i patched;
    })
    Inv-accepted = record {
      nodup = NoDup-append s.shared.appended (subject i) inv.nodup (inv.waiting i waits);
      within = λ q h. ground (
        arith,
        inv.within q,
        inv.stored i waits,
        contains-append s.shared.appended (subject i) q,
        text_eq_sound (subject i) q,
      );
      stored = λ j k. inv.stored j (still_busy patched j refl k).0;
      waiting = λ j k. ground (
        arith,
        inv.waiting j (still_busy patched j refl k).0,
        (still_busy patched j refl k).1,
        contains-append s.shared.appended (subject i) (subject j),
      );
      unique = λ j k hj hk.
          inv.unique j k (still_busy patched j refl hj).0 (still_busy patched k refl hk).0;
    }

    -- The Delete after a PATCH that was refused.
    pub Inv-dropped : Inv subject (record {
      shared = record {
        revoked = delete s.shared.revoked (subject i);
        appended = s.shared.appended;
      };
      pc = update s.pc i gave_up;
    })
    Inv-dropped = record {
      nodup = inv.nodup;
      within = λ q h. ground (
        arith,
        inv.within q h,
        inv.waiting i waits,
        contains-delete s.shared.revoked (subject i) q,
        text_eq_sound (subject i) q,
      );
      stored = λ j k. ground (
        arith,
        inv.stored j (still_busy gave_up j refl k).0,
        (still_busy gave_up j refl k).1,
        contains-delete s.shared.revoked (subject i) (subject j),
      );
      waiting = λ j k. inv.waiting j (still_busy gave_up j refl k).0;
      unique = λ j k hj hk.
          inv.unique j k (still_busy gave_up j refl hj).0 (still_busy gave_up k refl hk).0;
    }
