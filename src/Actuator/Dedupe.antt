-- ===== src/Actuator/Dedupe.antt =====
-- cmd/actuator: the sync.Map of revoked principals, by the operations that the program calls.
pub mod Keys
pub mod Once
use ebpf_ssf_broker.Base.{
  ◌≡◌, refl, Bool, true, false, List, [], ◌∷◌, arith, if◌then◌else◌, Text, text_eq, text_eq_iff,
  text_eq_refl, contains,
}

-- The keys of the map, each once.
abbrev pub Revoked : Type 0
Revoked = List Text

-- m.LoadOrStore(p, struct{}{}): the map after it, and whether the key was there.
unfoldable pub load_or_store : Revoked → Text → Revoked × Bool
load_or_store m p = if contains m p then (m, true) else (p ∷ m, false)

-- m.Delete(p)
unfoldable pub delete : Revoked → Text → Revoked
delete [] p = []
delete (q ∷ m) p = let rest = delete m p in if text_eq q p then rest else q ∷ rest

pub contains-delete :
    (m : Revoked) (p q : Text)
    → contains (delete m p) q ≡ (if text_eq p q then false else contains m q)
unfolding contains delete
contains-delete [] p q = ground arith
contains-delete (r ∷ m) p q =
    ground (arith, contains-delete m p q, text_eq_iff r p, text_eq_iff r q, text_eq_iff p q)

pub delete_missing : (m : Revoked) (p : Text) → contains m p ≡ false → delete m p ≡ m
unfolding contains delete
delete_missing [] p h = refl
delete_missing (q ∷ m) p h = ground (arith, delete_missing m p)

-- Taking out a key that was just added.
pub delete_added : (m : Revoked) (p : Text) → contains m p ≡ false → delete (p ∷ m) p ≡ m
unfolding delete
delete_added m p h = rw (text_eq_refl p) (delete_missing m p h)
