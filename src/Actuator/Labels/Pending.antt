-- ===== src/Actuator/Labels/Pending.antt =====
-- The pods that still need the patch, and the names that the loop of removeSpireLabel patches.
use ebpf_ssf_broker.Base.{
  ◌≡◌, sym, subst, inl, inr, Bool, true, false, ◌&&◌, List, [], ◌∷◌, map, arith, if◌then◌else◌,
  Bool-cases, keep, All, Text, text_eq_iff, contains, contains-cons, contains_self,
}
use ebpf_ssf_broker.Actuator.Labels.Laws.{pod_runs_as, is_managed, strip}
use ebpf_ssf_broker.Actuator.Labels.{spire_managed_label, PodObject}
use ebpf_ssf_broker.Go.Http.{has_key-without_self}

unfoldable pub names : List PodObject → List Text
names = map (λ p. p.name)

-- The pod runs as the service account and carries the label.
abbrev pub needs_strip : Text → PodObject → Bool
needs_strip sa pod = pod_runs_as sa pod && is_managed pod

-- Every pod that still needs the patch has one of the names.
abbrev pub Pending : Text → List Text → List PodObject → Type 0
Pending sa ns = All (λ p. needs_strip sa p ≡ true → contains ns p.name ≡ true)

pub Pending-weaken :
    (sa n : Text) (ns : List Text) (ps : List PodObject) → Pending sa ns ps → Pending sa (n ∷ ns) ps
Pending-weaken sa n ns [] h = tt
Pending-weaken sa n ns (p ∷ ps) h =
    (λ k. ground (arith, contains-cons ns n p.name, h.0 k), Pending-weaken sa n ns ps h.1)

needs_strip-strip :
    (sa n : Text) (ns : List Text) (p : PodObject)
    → (needs_strip sa p ≡ true → contains (n ∷ ns) p.name ≡ true)
    → needs_strip sa (strip n p) ≡ true
    → contains ns (strip n p).name ≡ true
needs_strip-strip sa n ns p h k = ground (
  arith,
  has_key-without_self p.labels spire_managed_label,
  contains-cons ns n p.name,
  text_eq_iff n p.name,
  text_eq_iff p.name n,
)

pub Pending-strip :
    (sa n : Text) (ns : List Text) (ps : List PodObject)
    → Pending sa (n ∷ ns) ps
    → Pending sa ns (map (strip n) ps)
Pending-strip sa n ns [] h = tt
Pending-strip sa n ns (p ∷ ps) h = (needs_strip-strip sa n ns p h.0, Pending-strip sa n ns ps h.1)

-- The names that the loop patches, from a list behind the label selector.
unfoldable pub targets : Text → List PodObject → List Text
unfolding names
targets sa ps = names (keep (pod_runs_as sa) (keep is_managed ps))

targets-cons :
    (sa : Text) (p : PodObject) (ps : List PodObject)
    → targets sa (p ∷ ps) ≡ (if needs_strip sa p then p.name ∷ targets sa ps else targets sa ps)
unfolding targets
targets-cons sa p ps = elim (Bool-cases (is_managed p)) [
  | inr bare ↦ rw bare (elim (Bool-cases (pod_runs_as sa p)) [ inl e ↦ rw e | inr e ↦ rw e ])
  | inl managed ↦ rw managed (elim (Bool-cases (pod_runs_as sa p)) [ inl e ↦ rw e | inr e ↦ rw e ])
]

Pending-cons :
    (sa : Text) (ns : List Text) (p : PodObject) (ps : List PodObject)
    → Pending sa ns ps
    → Pending sa (if needs_strip sa p then p.name ∷ ns else ns) (p ∷ ps)
Pending-cons sa ns p ps h = elim (Bool-cases (needs_strip sa p)) [
  | inl needs ↦
      subst (λ b. Pending sa (if b then p.name ∷ ns else ns) (p ∷ ps)) (sym needs)
        (λ _. contains_self ns p.name, Pending-weaken sa p.name ns ps h)
  | inr other ↦
      subst (λ b. Pending sa (if b then p.name ∷ ns else ns) (p ∷ ps)) (sym other)
        (λ k. cc (other, k), h)
]

-- At the start the pods that a list shows are the ones that need the patch.
pub Pending-targets : (sa : Text) (ps : List PodObject) → Pending sa (targets sa ps) ps
Pending-targets sa [] = tt
Pending-targets sa (p ∷ ps) =
    subst (λ ns. Pending sa ns (p ∷ ps)) (sym (targets-cons sa p ps))
      (Pending-cons sa (targets sa ps) p ps (Pending-targets sa ps))

-- At the end no name is left.
pub Pending-nil :
    (sa : Text) (ps : List PodObject) → Pending sa [] ps → All (λ p. needs_strip sa p ≡ false) ps
Pending-nil sa [] h = tt
Pending-nil sa (p ∷ ps) h = (unfold contains in ground arith, Pending-nil sa ps h.1)
