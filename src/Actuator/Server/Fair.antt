-- ===== src/Actuator/Server/Fair.antt =====
-- cmd/actuator: every request is answered, if its goroutines keep getting turns.
use ebpf_ssf_broker.Base.{
  ℕ, zero, suc, ◌≤◌, ◌<◌, ◌≡◌, refl, sym, ap, ◌∙◌, subst, ◌⊎◌, inl, inr, List, [], ◌∷◌, arith, ◌==◌,
  ==_iff, Bool-cases,
}
use ebpf_ssf_broker.Actuator.Events.{Deps}
use ebpf_ssf_broker.Actuator.Registry.{Client}
use ebpf_ssf_broker.Actuator.Server.{
  slice, forget, answered, advance, serve_slice, serve_slices, Part, Slice, RequestAt, Incoming,
  Serving,
}
use ebpf_ssf_broker.Actuator.Server.Nearer.{
  stage, steps_left, needed, IsNearer, advances, needed-IsNearer,
}
use ebpf_ssf_broker.Go.Http.{Response}

-- The first slices of an endless schedule.
abbrev pub prefix : (ℕ → Slice) → ℕ → List Slice
prefix f zero = []
prefix f (suc n) = f 0 ∷ prefix (λ j. f (suc j)) n

-- Each goroutine of the request gets a turn again and again.
abbrev pub IsFair : ℕ → (ℕ → Slice) → Type 0
IsFair i f = (part : Part) (k : ℕ) → (n : ℕ) × (k ≤ n) × (f n ≡ slice i part)

pub IsFair-later : (i : ℕ) (f : ℕ → Slice) → IsFair i f → IsFair i (λ j. f (suc j))
IsFair-later i f fair part k = let (n, le, e) = fair part (suc k) in earlier n le e
  where
    earlier :
        (n : ℕ) → suc k ≤ n → f n ≡ slice i part → (m : ℕ) × (k ≤ m) × (f (suc m) ≡ slice i part)
    earlier zero le e = absurd (omega arith)
    earlier (suc n) le e = (n, omega arith, e)

-- At most this stage, and in it fewer steps than that.
abbrev Within : ℕ → ℕ → RequestAt → Type 0
Within st m x = (stage x < st) ⊎ ((stage x ≡ st) × (steps_left x < m))

Within-nearer : (st m : ℕ) (x y : RequestAt) → IsNearer y x → Within st (suc m) x → Within st m y
Within-nearer st m x y (inl h) (inl k) = inl (omega arith)
Within-nearer st m x y (inl h) (inr (e, k)) = inl (omega arith)
Within-nearer st m x y (inr (e, h)) (inl k) = inl (omega arith)
Within-nearer st m x y (inr (e, h)) (inr (e', k)) = inr (omega arith, omega arith)

Within-lower : (st : ℕ) (x : RequestAt) → Within (suc st) 0 x → Within st (suc (steps_left x)) x
Within-lower st x (inr (e, h)) = absurd (omega arith)
Within-lower st x (inl h) = elim (Bool-cases (stage x == st)) [
  | inl same ↦ inr ((==_iff (stage x) st).0 same, omega arith)
  | inr other ↦ inl (ground arith)
]

module _ (d : Deps) (p : Client) (incoming : ℕ → Incoming) (i : ℕ) where
  -- Any slice leaves the request where it stands, or brings it nearer to its answer.
  slice_advances :
      (e : Slice) (s : Serving d p)
      → ((serve_slice d p incoming e s).at i ≡ s.at i)
        ⊎ IsNearer ((serve_slice d p incoming e s).at i) (s.at i)
  unfolding serve_slice
  slice_advances (forget key) s = inl refl
  slice_advances (slice j part) s = elim (Bool-cases (i == j)) [
    | inl same ↦
        let k = (==_iff i j).0 same in
        rw same (rw k (advances d p (incoming j) s.state s.metrics part (s.at j)))
    | inr other ↦ rw other (inl refl)
  ]

  own_slice :
      (part : Part) (s : Serving d p)
      → (serve_slice d p incoming (slice i part) s).at i
        ≡ (advance d p (incoming i) part s.state s.metrics (s.at i)).at
  unfolding serve_slice
  own_slice part s = rw ((==_iff i i).1 refl) refl

  -- The request is answered after some slices of the schedule.
  abbrev pub IsAnswered : (ℕ → Slice) → Serving d p → Type 0
  IsAnswered f s =
      (n : ℕ) × (response : Response) × ((serve_slices d p incoming (prefix f n) s).at i
        ≡ answered response)

  IsAnswered-later :
      (f : ℕ → Slice) (s : Serving d p)
      → IsAnswered (λ j. f (suc j)) (serve_slice d p incoming (f 0) s)
      → IsAnswered f s
  unfolding serve_slices
  IsAnswered-later f s (n, response, e) = (suc n, response, e)

  -- By induction on the stage, the steps left in it, and the slices up to the turn that is needed.
  IsAnswered-Within :
      (st m w : ℕ) (f : ℕ → Slice) (s : Serving d p)
      → IsFair i f
      → Within st m (s.at i)
      → f w ≡ slice i (needed (s.at i))
      → IsAnswered f s
  IsAnswered-Within zero zero w f s fair (inl h) turn = absurd (omega arith)
  IsAnswered-Within zero zero w f s fair (inr (e, h)) turn = absurd (omega arith)
  IsAnswered-Within (suc st) zero w f s fair within turn =
      IsAnswered-Within st (suc (steps_left (s.at i))) w f s fair (Within-lower st (s.at i) within)
        turn
  IsAnswered-Within st (suc m) zero f s fair within turn =
      let s' = serve_slice d p incoming (f 0) s in
      let fair' = IsFair-later i f fair in
      let (w, _, turn') = fair' (needed (s'.at i)) 0 in
      let moved =
        ap (λ e. (serve_slice d p incoming e s).at i) turn ∙ own_slice (needed (s.at i)) s in
      elim (needed-IsNearer d p (incoming i) s.state s.metrics (s.at i)) [
        | inl (response, e) ↦ (0, response, unfold serve_slices in e)
        | inr near ↦ IsAnswered-later f s (
            IsAnswered-Within st m w (λ j. f (suc j)) s' fair'
              (Within-nearer st m (s.at i) (s'.at i)
                (subst (λ x. IsNearer x (s.at i)) (sym moved) near) within)
              turn')
      ]
  IsAnswered-Within st (suc m) (suc w) f s fair within turn =
      let s' = serve_slice d p incoming (f 0) s in
      let fair' = IsFair-later i f fair in
      let (w', _, turn') = fair' (needed (s'.at i)) 0 in
      elim (slice_advances (f 0) s) [
        | inl same ↦ IsAnswered-later f s (
            IsAnswered-Within st (suc m) w (λ j. f (suc j)) s' fair'
              (subst (Within st (suc m)) (sym same) within)
              (turn ∙ ap (λ x. slice i (needed x)) (sym same)))
        | inr near ↦ IsAnswered-later f s (
            IsAnswered-Within st m w' (λ j. f (suc j)) s' fair'
              (Within-nearer st m (s.at i) (s'.at i) near within) turn')
      ]

  -- A request is answered under every schedule in which each of its three goroutines gets a turn
  -- again and again, from every point at which it stands, whatever other requests and resets come
  -- between, and whatever the API server answers.
  pub fair-IsAnswered : (f : ℕ → Slice) (s : Serving d p) → IsFair i f → IsAnswered f s
  fair-IsAnswered f s fair =
      let (w, _, turn) = fair (needed (s.at i)) 0 in
      IsAnswered-Within (stage (s.at i)) (suc (steps_left (s.at i))) w f s fair
        (inr (refl, omega arith)) turn
