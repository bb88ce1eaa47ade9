-- ===== src/Actuator/Server/Total.antt =====
-- The sum of a weight over the first requests of a process, and what a step of one of them does to
-- it.
use ebpf_ssf_broker.Base.{
  ℕ, zero, suc, ◌+◌, ◌≤◌, ◌<◌, ◌≡◌, refl, ap, inl, inr, arith, ◌==◌, ==_iff, Bool-cases,
}
use ebpf_ssf_broker.Actuator.Server.{slice, forget, Slice}
use ebpf_ssf_broker.Actuator.Race.{update}

-- w 0 + … + w (n - 1)
abbrev pub total : ℕ → (ℕ → ℕ) → ℕ
total zero w = 0
total (suc n) w = w n + total n w

pub total-zero : (n : ℕ) → total n (λ j. 0) ≡ 0
total-zero zero = refl
total-zero (suc n) = omega (arith, total-zero n)

module _ {ℓ} {A : Type ℓ} (w : ℕ → A → ℕ) (f : ℕ → A) (i : ℕ) (x : A) where
  total_above : (n : ℕ) → n ≤ i → total n (λ j. w j (update f i x j)) ≡ total n (λ j. w j (f j))
  total_above zero h = refl
  total_above (suc n) h = ground (arith, total_above n)

  pub total-update :
      (n : ℕ)
      → i < n
      → total n (λ j. w j (update f i x j)) + w i (f i) ≡ total n (λ j. w j (f j)) + w i x
  total-update zero h = absurd (omega arith)
  total-update (suc n) h = elim (Bool-cases (n == i)) [
    | inl last ↦
        let same = ap (λ k. w k (f k)) ((==_iff n i).0 last) in
        let moved = ap (λ k. w k x) ((==_iff n i).0 last) in
        rw last (omega (arith, total_above n (ground arith), same, moved))
    | inr below ↦ rw below (omega (arith, total-update n (ground arith)))
  ]

-- The slice is of one of the first n requests, or a reset.
abbrev pub Among : ℕ → Slice → Type 0
Among n (slice i part) = i < n
Among n (forget key) = Unit
