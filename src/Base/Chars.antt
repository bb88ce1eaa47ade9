-- ===== src/Base/Chars.antt =====
-- Go strings: sequences of bytes. A literal is written by its code points, which are its bytes
-- where it is ASCII.
use Prim.Native.Nat.{ℕ}
use Prim.Native.Char.{code}
use Prim.Native.String.{String}
use mathlib.Core.Path.{◌≡◌, refl, subst}
use mathlib.Core.Logic.{◌≢◌, ◌↔◌, inl, inr}
use mathlib.Core.Bool.{Bool, true, false, ◌&&◌, ◌||◌}
use mathlib.Core.List.{List, [], ◌∷◌, ◌++◌}
use native.Mathlib.Omega.{arith}
use ebpf_ssf_broker.Base.Tests.{◌==◌, Bool-cases}
use ebpf_ssf_broker.Base.Lists.{All}

abbrev pub Text : Type 0
Text = List ℕ

abbrev pub codes : String → Text
codes String.[] = []
codes (String.◌∷◌ c s) = code c ∷ codes s

-- s == t
unfoldable pub text_eq : Text → Text → Bool
text_eq [] [] = true
text_eq [] (d ∷ t) = false
text_eq (c ∷ s) [] = false
text_eq (c ∷ s) (d ∷ t) = c == d && text_eq s t

pub text_eq_iff : (s t : Text) → (text_eq s t ≡ true) ↔ (s ≡ t)
unfolding text_eq
text_eq_iff [] [] = ground arith
text_eq_iff [] (d ∷ t) = ground arith
text_eq_iff (c ∷ s) [] = ground arith
text_eq_iff (c ∷ s) (d ∷ t) = ground (arith, text_eq_iff s t)

pub text_eq_refl : (s : Text) → text_eq s s ≡ true
text_eq_refl s = (text_eq_iff s s).1 refl

pub text_eq_ne : (s t : Text) → s ≢ t → text_eq s t ≡ false
text_eq_ne s t h = ground (arith, text_eq_iff s t)

-- s == ""
abbrev pub is_empty : Text → Bool
is_empty [] = true
is_empty (c ∷ s) = false

-- No byte of the text is `b`.
abbrev pub Lacks : ℕ → Text → Type 0
Lacks b = All (λ c. c ≢ b)

-- The text is in the list.
unfoldable pub contains : List Text → Text → Bool
contains [] p = false
contains (q ∷ m) p = text_eq q p || contains m p

pub contains-append :
    (m : List Text) (p q : Text) → contains (m ++ p ∷ []) q ≡ (contains m q || text_eq p q)
unfolding contains
contains-append [] p q = ground arith
contains-append (r ∷ m) p q = ground (arith, contains-append m p q)

pub contains-cons :
    (m : List Text) (p q : Text) → contains (p ∷ m) q ≡ (text_eq p q || contains m q)
unfolding contains
contains-cons m p q = refl

pub contains_self : (m : List Text) (p : Text) → contains (p ∷ m) p ≡ true
unfolding contains
contains_self m p = rw (text_eq_refl p)

pub All-contains {κ} :
    (P : Text → Type κ) (m : List Text) (q : Text) → All P m → contains m q ≡ true → P q
unfolding contains
All-contains P [] q ps h = absurd (ground arith)
All-contains P (r ∷ m) q ps h = elim (Bool-cases (text_eq r q)) [
  | inl same ↦ subst P ((text_eq_iff r q).0 same) ps.0
  | inr other ↦ All-contains P m q ps.1 (ground arith)
]
