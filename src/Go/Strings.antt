-- ===== src/Go/Strings.antt =====
-- Package strings: TrimPrefix, CutPrefix and Split at one byte.
use ebpf_ssf_broker.Base.{
  ℕ, ◌≡◌, refl, ◌≢◌, inl, inr, Option, none, some, List, [], ◌∷◌, ◌++◌, arith, ◌==◌, if◌then◌else◌,
  Bool-cases, All, Text, Lacks,
}

-- strings.CutPrefix(s, prefix): what is behind the prefix.
unfoldable pub cut_prefix : Text → Text → Option Text
cut_prefix s [] = some s
cut_prefix [] (d ∷ p) = none
cut_prefix (c ∷ s) (d ∷ p) = if c == d then cut_prefix s p else none

abbrev pub or_whole : Text → Option Text → Text
or_whole s none = s
or_whole s (some rest) = rest

-- strings.TrimPrefix(s, prefix)
unfoldable pub trim_prefix : Text → Text → Text
trim_prefix s p = or_whole s (cut_prefix s p)

pub cut_prefix-append : (p s : Text) → cut_prefix (p ++ s) p ≡ some s
unfolding cut_prefix
cut_prefix-append [] s = refl
cut_prefix-append (d ∷ p) s = ground (arith, cut_prefix-append p s)

pub cut_prefix_sound : (s p : Text) {rest : Text} → cut_prefix s p ≡ some rest → s ≡ p ++ rest
unfolding cut_prefix
cut_prefix_sound s [] h = cc
cut_prefix_sound [] (d ∷ p) h = cc
cut_prefix_sound (c ∷ s) (d ∷ p) {rest} h = ground (arith, cut_prefix_sound s p {rest = rest})

-- Put a byte in front of the first part.
abbrev push : ℕ → List Text → List Text
push c [] = (c ∷ []) ∷ []
push c (p ∷ ps) = (c ∷ p) ∷ ps

-- strings.Split(s, sep) at a separator of one byte.
unfoldable pub split : Text → ℕ → List Text
split [] sep = [] ∷ []
split (c ∷ s) sep = let parts = split s sep in if c == sep then [] ∷ parts else push c parts

abbrev glue : ℕ → List Text → Text
glue sep [] = []
glue sep (p ∷ ps) = sep ∷ p ++ glue sep ps

-- strings.Join of the parts
abbrev pub join : List Text → ℕ → Text
join [] sep = []
join (p ∷ ps) sep = p ++ glue sep ps

push-ne-nil : (c : ℕ) (ps : List Text) → push c ps ≢ []
push-ne-nil c [] = λ e. cc
push-ne-nil c (p ∷ ps) = λ e. cc

split-ne-nil : (s : Text) (sep : ℕ) → split s sep ≢ []
unfolding split
split-ne-nil [] sep = λ e. cc
split-ne-nil (c ∷ s) sep = ground (arith, push-ne-nil c (split s sep))

join-push : (c : ℕ) (ps : List Text) (sep : ℕ) → ps ≢ [] → join (push c ps) sep ≡ c ∷ join ps sep
join-push c [] sep h = absurd (h refl)
join-push c (p ∷ ps) sep h = refl

join-nil_cons : (ps : List Text) (sep : ℕ) → ps ≢ [] → join ([] ∷ ps) sep ≡ sep ∷ join ps sep
join-nil_cons [] sep h = absurd (h refl)
join-nil_cons (p ∷ ps) sep h = refl

pub join-split : (s : Text) (sep : ℕ) → join (split s sep) sep ≡ s
unfolding split
join-split [] sep = refl
join-split (c ∷ s) sep = ground (
  arith,
  split-ne-nil s sep,
  join-push c (split s sep) sep,
  join-nil_cons (split s sep) sep,
  join-split s sep,
)

push-Lacks :
    (c sep : ℕ) (ps : List Text) → c ≢ sep → All (Lacks sep) ps → All (Lacks sep) (push c ps)
push-Lacks c sep [] h a = ((h, tt), tt)
push-Lacks c sep (p ∷ ps) h a = ((h, a.0), a.1)

-- No part of a split holds the separator.
pub split-Lacks : (s : Text) (sep : ℕ) → All (Lacks sep) (split s sep)
unfolding split
split-Lacks [] sep = (tt, tt)
split-Lacks (c ∷ s) sep = elim (Bool-cases (c == sep)) [
  | inl e ↦ rw e (tt, split-Lacks s sep)
  | inr e ↦ rw e (push-Lacks c sep (split s sep) (ground arith) (split-Lacks s sep))
]

pub split_lacking : (p : Text) (sep : ℕ) → Lacks sep p → split p sep ≡ p ∷ []
unfolding split
split_lacking [] sep h = refl
split_lacking (c ∷ p) sep h = ground (arith, split_lacking p sep h.1)

-- A part without the separator, the separator, and the rest.
pub split-append : (p s : Text) (sep : ℕ) → Lacks sep p → split (p ++ sep ∷ s) sep ≡ p ∷ split s sep
unfolding split
split-append [] s sep h = ground arith
split-append (c ∷ p) s sep h = ground (arith, split-append p s sep h.1)
