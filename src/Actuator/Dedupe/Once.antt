-- ===== src/Actuator/Dedupe/Once.antt =====
-- cmd/actuator: the dedupe set holds each key once, so two that hold the same keys are as long.
use ebpf_ssf_broker.Base.{
  suc, ◌≡◌, refl, sym, ap, ◌∙◌, subst, inl, inr, true, false, [], ◌∷◌, arith, Bool-cases, length,
  Text, text_eq, text_eq_iff, contains, contains-cons, contains_self,
}
use ebpf_ssf_broker.Actuator.Dedupe.{
  Revoked, load_or_store, delete, contains-delete, delete_missing,
}
use ebpf_ssf_broker.Actuator.Dedupe.Keys.{SameKeys}
use ebpf_ssf_broker.Actuator.Race.Invariant.{NoDup}

pub NoDup-delete : (m : Revoked) (p : Text) → NoDup m → NoDup (delete m p)
unfolding delete
NoDup-delete [] p h = tt
NoDup-delete (q ∷ m) p h = elim (Bool-cases (text_eq q p)) [
  | inl same ↦ rw same (NoDup-delete m p h.1)
  | inr other ↦ rw other (ground (arith, contains-delete m p q), NoDup-delete m p h.1)
]

pub NoDup-load_or_store : (m : Revoked) (p : Text) → NoDup m → NoDup (load_or_store m p).0
unfolding load_or_store
NoDup-load_or_store m p h = elim (Bool-cases (contains m p)) [
  | inl held ↦ rw held h
  | inr new ↦ rw new (new, h)
]

length-delete :
    (n : Revoked) (p : Text) → NoDup n → contains n p ≡ true → length n ≡ suc (length (delete n p))
unfolding delete contains
length-delete [] p h k = absurd (ground arith)
length-delete (q ∷ n) p h k = elim (Bool-cases (text_eq q p)) [
  | inl same ↦ rw same (
      ap (λ l. suc (length l))
        (sym
          (delete_missing n p (subst (λ x. contains n x ≡ false) ((text_eq_iff q p).0 same) h.0))))
  | inr other ↦ rw other (ap suc (length-delete n p h.1 (ground arith)))
]

pub length-same : (m n : Revoked) → NoDup m → NoDup n → SameKeys m n → length m ≡ length n
length-same [] [] h k same = refl
length-same [] (q ∷ n) h k same =
    let held = contains_self n q in absurd (unfold contains in ground (arith, same q))
length-same (p ∷ m) n h k same =
    let held = sym (same p) ∙ contains_self m p in
    ap suc (length-same m (delete n p) h.1 (NoDup-delete n p k) rest)
    ∙ sym (length-delete n p k held)
  where
    rest : SameKeys m (delete n p)
    rest q =
        ground (arith, contains-delete n p q, same q, contains-cons m p q, text_eq_iff p q, h.0)
