-- ===== src/Actuator/WorkloadId/Laws.antt =====
-- cmd/actuator/labels.go: parseWorkloadID against the naming convention.
use ebpf_ssf_broker.Base.{
  ◌≡◌, refl, sym, ap, ◌∙◌, subst, ◌↔◌, false, Option, none, some, List, [], ◌∷◌, ◌++◌, append-nil,
  arith, All, Text, codes, text_eq, text_eq_iff, is_empty, Lacks,
}
use ebpf_ssf_broker.Go.Strings.{
  cut_prefix, cut_prefix-append, cut_prefix_sound, split, join-split, split-Lacks, split_lacking,
  split-append,
}
use ebpf_ssf_broker.Actuator.WorkloadId.{
  scheme, bad, workload, parse_segments, parse_path, parse_workload_id, empty_segment,
}

-- spiffe://<td>/ns/<ns>/sa/<sa>
abbrev pub workload_id : (td ns sa : Text) → Text
workload_id td ns sa = scheme ++ (td ++ (codes "/ns/" ++ (ns ++ (codes "/sa/" ++ sa))))

-- A segment of a path: not empty, and without a slash.
pub record IsSegment (s : Text) : Type 0 where
  pub filled : is_empty s ≡ false
  pub whole : Lacks b'/' s

split-workload_path :
    (td ns sa : Text)
    → Lacks b'/' td
    → Lacks b'/' ns
    → Lacks b'/' sa
    → split (td ++ (codes "/ns/" ++ (ns ++ (codes "/sa/" ++ sa)))) b'/'
      ≡ td ∷ codes "ns" ∷ ns ∷ codes "sa" ∷ sa ∷ []
split-workload_path td ns sa a b c = rw (
  split-append td (codes "ns/" ++ (ns ++ (codes "/sa/" ++ sa))) b'/' a,
  split-append (codes "ns") (ns ++ (codes "/sa/" ++ sa)) b'/' (omega arith),
  split-append ns (codes "sa/" ++ sa) b'/' b,
  split-append (codes "sa") sa b'/' (omega arith),
  split_lacking sa b'/' c,
)

parse-segments :
    (id path : Text)
    → cut_prefix id scheme ≡ some path
    → parse_workload_id id ≡ parse_segments id (split path b'/')
unfolding parse_workload_id
parse-segments id path h = rw h

parse_complete :
    (td ns sa : Text)
    → IsSegment td
    → IsSegment ns
    → IsSegment sa
    → parse_workload_id (workload_id td ns sa) ≡ workload ns sa
parse_complete td ns sa t n s =
    parse-segments (workload_id td ns sa) _ (cut_prefix-append scheme _)
    ∙ rw (split-workload_path td ns sa t.whole n.whole s.whole)
        (unfold parse_segments text_eq in ground arith)

-- An ID that ends behind /sa/ names no service account.
pub parse_unnamed :
    (td ns : Text)
    → IsSegment td
    → IsSegment ns
    → parse_workload_id (workload_id td ns []) ≡ bad (empty_segment (workload_id td ns []))
parse_unnamed td ns t n =
    parse-segments (workload_id td ns []) _ (cut_prefix-append scheme _)
    ∙ rw (split-workload_path td ns [] t.whole n.whole tt)
        (unfold parse_segments text_eq in ground arith)

segments_sound :
    (subject : Text) (l : List Text) (ns sa : Text)
    → parse_segments subject l ≡ workload ns sa
    → (td : Text) × (l ≡ td ∷ codes "ns" ∷ ns ∷ codes "sa" ∷ sa ∷ [])
      × (is_empty td ≡ false)
      × (is_empty ns ≡ false)
      × (is_empty sa ≡ false)
unfolding parse_segments
segments_sound subject [] ns sa h = cc
segments_sound subject (a ∷ []) ns sa h = cc
segments_sound subject (a ∷ b ∷ []) ns sa h = cc
segments_sound subject (a ∷ b ∷ c ∷ []) ns sa h = cc
segments_sound subject (a ∷ b ∷ c ∷ d ∷ []) ns sa h = cc
segments_sound subject (a ∷ b ∷ c ∷ d ∷ e ∷ f ∷ l) ns sa h = cc
segments_sound subject (a ∷ b ∷ c ∷ d ∷ e ∷ []) ns sa h =
    let eq_ns = text_eq_iff b (codes "ns") in
    let eq_sa = text_eq_iff d (codes "sa") in
    (
      a,
      ground (arith, eq_ns, eq_sa),
      ground (arith, eq_ns, eq_sa),
      ground (arith, eq_ns, eq_sa),
      ground (arith, eq_ns, eq_sa),
    )

-- What a text is whose split at the slashes is such a list.
path_of_split :
    (path td ns sa : Text)
    → split path b'/' ≡ td ∷ codes "ns" ∷ ns ∷ codes "sa" ∷ sa ∷ []
    → path ≡ td ++ (codes "/ns/" ++ (ns ++ (codes "/sa/" ++ sa)))
path_of_split path td ns sa e = sym (join-split path b'/') ∙ rw (e, append-nil sa)

path_sound :
    (id : Text) (o : Option Text) (ns sa : Text)
    → cut_prefix id scheme ≡ o
    → parse_path id o ≡ workload ns sa
    → (td : Text) × (id ≡ workload_id td ns sa) × IsSegment td × IsSegment ns × IsSegment sa
unfolding parse_path
path_sound id none ns sa c h = cc
path_sound id (some path) ns sa c h =
    let (td, e, ft, fn, fs) = segments_sound id (split path b'/') ns sa h in
    let whole = subst (All (Lacks b'/')) e (split-Lacks path b'/') in
    (
      td,
      cut_prefix_sound id scheme c ∙ ap (λ p. scheme ++ p) (path_of_split path td ns sa e),
      record { filled = ft; whole = whole.0 },
      record { filled = fn; whole = whole.1.1.0 },
      record { filled = fs; whole = whole.1.1.1.1.0 },
    )

-- The naming convention, read back: an ID parses to a namespace and a service account exactly if
-- it is spiffe://<td>/ns/<namespace>/sa/<service account> for some trust domain, with all three
-- segments non-empty and free of slashes.
pub parse_workload_id_iff :
    (id ns sa : Text)
    → (parse_workload_id id ≡ workload ns sa)
      ↔ ((td : Text) × (id ≡ workload_id td ns sa) × IsSegment td × IsSegment ns × IsSegment sa)
parse_workload_id_iff id ns sa = (
  λ h. unfold parse_workload_id in path_sound id (cut_prefix id scheme) ns sa refl h,
  λ w. rw w.1 (parse_complete w.0 ns sa w.2 w.3 w.4),
)
