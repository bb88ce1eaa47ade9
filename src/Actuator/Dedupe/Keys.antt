-- ===== src/Actuator/Dedupe/Keys.antt =====
-- cmd/actuator: the sync.Map of revoked principals as the set of its keys. A program cannot see in
-- what order a map holds them.
use mathlib.Core.Quot
use mathlib.Core.Quot.{Quot, Quot-set}
use std.Path.{fun_ext}
use ebpf_ssf_broker.Base.{
  ◌≡◌, refl, ap, Bool, true, false, ◌∷◌, arith, if◌then◌else◌, Text, text_eq_iff, contains,
  contains-cons,
}
use ebpf_ssf_broker.Actuator.Dedupe.{Revoked, load_or_store, delete, contains-delete}

-- Two maps hold the same keys.
abbrev pub SameKeys : Revoked → Revoked → Type 0
SameKeys m n = (p : Text) → contains m p ≡ contains n p

abbrev pub KeySet : Type 0
KeySet = Quot SameKeys

Bool-IsSet : IsSet Bool
Bool-IsSet = hlevel

pub holds : Text → KeySet → Bool
unfolding Bool-IsSet
holds p = Quot.lift Bool-IsSet (λ m. contains m p) (λ m n h. h p)

pub SameKeys-cons : (p : Text) (m n : Revoked) → SameKeys m n → SameKeys (p ∷ m) (p ∷ n)
SameKeys-cons p m n h q = ground (arith, contains-cons m p q, contains-cons n p q, h q)

pub SameKeys-delete : (p : Text) (m n : Revoked) → SameKeys m n → SameKeys (delete m p) (delete n p)
SameKeys-delete p m n h q = rw (contains-delete m p q, contains-delete n p q, h q) refl

pub insert : Text → KeySet → KeySet
insert p = Quot.lift Quot-set (λ m. Quot.mk (p ∷ m)) (λ m n h. Quot.sound (SameKeys-cons p m n h))

pub remove : Text → KeySet → KeySet
remove p =
    Quot.lift Quot-set (λ m. Quot.mk (delete m p)) (λ m n h. Quot.sound (SameKeys-delete p m n h))

at_prop : (k l : KeySet) → IsProp (((p : Text) → holds p k ≡ holds p l) → k ≡ l)
at_prop k l x y = fun_ext (λ h. Quot-set k l (x h) (y h))

fun_prop : (k : KeySet) → IsProp ((l : KeySet) → ((p : Text) → holds p k ≡ holds p l) → k ≡ l)
fun_prop k x y = fun_ext (λ l. at_prop k l (x l) (y l))

-- A set is known by what it holds.
pub holds-ext : (k l : KeySet) → ((p : Text) → holds p k ≡ holds p l) → k ≡ l
unfolding holds
holds-ext =
    Quot.ind (λ k. fun_prop k) (λ m. Quot.ind (λ l. at_prop (Quot.mk m) l) (λ n h. Quot.sound h))

pub same_keys : (m n : Revoked) → ◌≡◌ {A = KeySet} (Quot.mk m) (Quot.mk n) → SameKeys m n
unfolding holds
same_keys m n e p = ap (holds p) e

-- LoadOrStore and Delete are the operations of a set: the one says whether the key was there and
-- inserts it, the other takes it out.
pub load_or_store-keys :
    (m : Revoked) (p : Text)
    → (◌≡◌ {A = KeySet} (Quot.mk (load_or_store m p).0) (insert p (Quot.mk m)))
      × ((load_or_store m p).1 ≡ holds p (Quot.mk m))
unfolding load_or_store insert holds
load_or_store-keys m p = by_test (contains m p) refl
  where
    absorbed : contains m p ≡ true → SameKeys m (p ∷ m)
    absorbed h q = ground (arith, contains-cons m p q, text_eq_iff p q)

    stored : Bool → Revoked × Bool
    stored b = if b then (m, true) else (p ∷ m, false)

    by_test :
        (b : Bool)
        → contains m p ≡ b
        → (◌≡◌ {A = KeySet} (Quot.mk (stored b).0) (Quot.mk (p ∷ m))) × ((stored b).1 ≡ b)
    by_test true held = (Quot.sound (absorbed held), refl)
    by_test false new = (refl, refl)

pub delete-keys :
    (m : Revoked) (p : Text) → ◌≡◌ {A = KeySet} (Quot.mk (delete m p)) (remove p (Quot.mk m))
unfolding remove
delete-keys m p = refl
