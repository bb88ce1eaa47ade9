-- ===== src/Actuator/Race.antt =====
-- cmd/actuator: concurrent calls of revokeInMesh. net/http runs each request in a goroutine of its
-- own, and all share the sync.Map; LoadOrStore, the PATCH and Delete are the atomic steps.
pub mod Invariant
pub mod Once
pub mod Settled
pub mod Acknowledged
pub mod Alone
use ebpf_ssf_broker.Base.{ℕ, ◌≡◌, Bool, true, false, List, [], ◌∷◌, ◌++◌, ◌==◌, if◌then◌else◌, Text}
use ebpf_ssf_broker.Actuator.Dedupe.{Revoked, load_or_store, delete}

-- Where a call stands: before LoadOrStore, before the PATCH, before the Delete that follows an
-- error, or returned with (true, nil), (false, nil) or an error.
pub data Pc : Type 0 where
  entry patching failing patched duplicate gave_up : Pc

-- The shared state, with the principals that PATCHes appended since the start.
pub record Shared : Type 0 where
  pub revoked : Revoked
  pub appended : List Text

-- One atomic step of a call for the principal `p`. The step `lost`, a PATCH that was applied while
-- its caller saw an error, is a fault.
pub data Move (faulty : Bool) (p : Text) (s : Shared) : Pc → Shared → Pc → Type 0 where
  stored :
      {m : Revoked}
      → load_or_store s.revoked p ≡ (m, false)
      → Move faulty p s entry (record s { revoked = m }) patching
  held : {m : Revoked} → load_or_store s.revoked p ≡ (m, true) → Move faulty p s entry s duplicate
  accepted : Move faulty p s patching (record s { appended = s.appended ++ p ∷ [] }) patched
  rejected : Move faulty p s patching s failing
  lost :
      faulty ≡ true
      → Move faulty p s patching (record s { appended = s.appended ++ p ∷ [] }) failing
  dropped : Move faulty p s failing (record s { revoked = delete s.revoked p }) gave_up

-- Any number of calls, each for its subject.
pub record System : Type 0 where
  pub shared : Shared
  pub pc : ℕ → Pc

abbrev pub update {ℓ} : {A : Type ℓ} → (ℕ → A) → ℕ → A → ℕ → A
update f i c j = if j == i then c else f j

-- A step of one call, or, as a fault, the reset handler's Delete of a key.
pub data Step (subject : ℕ → Text) (faulty : Bool) (s : System) : System → Type 0 where
  act :
      (i : ℕ) {s' : Shared} {c c' : Pc}
      → s.pc i ≡ c
      → Move faulty (subject i) s.shared c s' c'
      → Step subject faulty s (record { shared = s'; pc = update s.pc i c' })
  reset :
      (key : Text)
      → faulty ≡ true
      → Step subject faulty s (record s {
        shared = record { revoked = delete s.shared.revoked key; appended = s.shared.appended };
      })

abbrev pub start : System
start = record { shared = record { revoked = []; appended = [] }; pc = λ i. entry }

pub data Reach (subject : ℕ → Text) (faulty : Bool) : System → Type 0 where
  begin : Reach subject faulty start
  next : {s t : System} → Reach subject faulty s → Step subject faulty s t → Reach subject faulty t

-- The call is between LoadOrStore and its return.
abbrev pub busy : Pc → Bool
busy patching = true
busy failing = true
busy entry = false
busy patched = false
busy duplicate = false
busy gave_up = false
