-- ===== src/Actuator/Labels/Clean.antt =====
-- cmd/actuator/labels.go: the pods after a run of removeSpireLabel, and the next run.
use ebpf_ssf_broker.Base.{
  ℕ, ◌≤◌, ◌≡◌, refl, sym, ap, ◌∙◌, subst, inl, inr, true, false, Option, none, some, List, [], ◌∷◌,
  arith, Bool-cases, length, length-append, keep, All, Text,
}
use ebpf_ssf_broker.Actuator.Labels.Pending.{
  names, needs_strip, Pending, Pending-strip, targets, Pending-targets, Pending-nil,
}
use ebpf_ssf_broker.Actuator.Labels.{
  spire_managed_label, listed, list_error, pod_patch_failed, strip_body, note_patch, visit_pod,
  visit_pods, after_list, remove_spire_label, PodObject, Listing, PodApi, LabelError, Removal,
}
use ebpf_ssf_broker.Actuator.Labels.Laws.{pod_runs_as, is_managed, PodLaws}
use ebpf_ssf_broker.Actuator.WorkloadId.{parse_workload_id, workload}

module _ (api : PodApi) (laws : PodLaws api) (ns sa : Text) where
  abbrev pods_of : Removal api → List PodObject
  pods_of r = laws.pods r.pods ns

  visit_other :
      (pod : PodObject) (r : Removal api)
      → pod_runs_as sa pod ≡ false
      → visit_pod api ns sa pod r ≡ r
  unfolding visit_pod
  visit_other pod r other = rw other

  abbrev answer : PodObject → Removal api → api.Store × Option Text
  answer pod r = api.patch r.pods ns pod.name strip_body

  visit_own :
      (pod : PodObject) (r : Removal api)
      → pod_runs_as sa pod ≡ true
      → visit_pod api ns sa pod r ≡ note_patch api ns sa pod.name r.patched r.errors (answer pod r)
  unfolding visit_pod
  visit_own pod r runs = rw runs

  note_clean :
      (pod : Text) (n : ℕ) (errs : List LabelError) (o : api.Store × Option Text)
      → length (note_patch api ns sa pod n errs o).errors ≡ 0
      → (o.1 ≡ none) × ((note_patch api ns sa pod n errs o).pods ≡ o.0)
  unfolding note_patch
  note_clean pod n errs (s, none) e = (refl, refl)
  note_clean pod n errs (s, some c) e =
      absurd (omega (arith, length-append errs (pod_patch_failed ns pod c ∷ [])))

  note_grows :
      (pod : Text) (n : ℕ) (errs : List LabelError) (o : api.Store × Option Text)
      → length errs ≤ length (note_patch api ns sa pod n errs o).errors
  unfolding note_patch
  note_grows pod n errs (s, none) = omega arith
  note_grows pod n errs (s, some c) =
      omega (arith, length-append errs (pod_patch_failed ns pod c ∷ []))

  errors_grow :
      (l : List PodObject) (r : Removal api)
      → length r.errors ≤ length (visit_pods api ns sa l r).errors
  unfolding visit_pods
  errors_grow [] r = omega arith
  errors_grow (pod ∷ l) r = ground (
    arith,
    errors_grow l (visit_pod api ns sa pod r),
    visit_own pod r,
    visit_other pod r,
    note_grows pod.name r.patched r.errors (answer pod r),
  )

  -- One round, if it leaves no error behind: it takes the pod's name off the list.
  Pending-visit_pod :
      (pod : PodObject) (l : List PodObject) (r : Removal api)
      → length (visit_pod api ns sa pod r).errors ≡ 0
      → Pending sa (names (keep (pod_runs_as sa) (pod ∷ l))) (pods_of r)
      → Pending sa (names (keep (pod_runs_as sa) l)) (pods_of (visit_pod api ns sa pod r))
  unfolding names
  Pending-visit_pod pod l r e h = elim (Bool-cases (pod_runs_as sa pod)) [
    | inr other ↦ rw (visit_other pod r other) (rw other at h)
    | inl runs ↦
        let own = visit_own pod r runs in
        let clean = note_clean pod.name r.patched r.errors (answer pod r) (rw own at e) in
        let rest = names (keep (pod_runs_as sa) l) in
        rw (own, clean.1, laws.strips r.pods ns pod.name clean.0)
          (Pending-strip sa pod.name rest (pods_of r) (rw runs at h))
  ]

  Pending-visit_pods :
      (l : List PodObject) (r : Removal api)
      → length (visit_pods api ns sa l r).errors ≡ 0
      → Pending sa (names (keep (pod_runs_as sa) l)) (pods_of r)
      → Pending sa [] (pods_of (visit_pods api ns sa l r))
  unfolding visit_pods names
  Pending-visit_pods [] r e h = h
  Pending-visit_pods (pod ∷ l) r e h =
      let r' = visit_pod api ns sa pod r in
      Pending-visit_pods l r' e (Pending-visit_pod pod l r (omega (arith, errors_grow l r')) h)

  -- A list without a pod of the service account leaves everything as it is.
  visit_none :
      (l : List PodObject) (r : Removal api)
      → All (λ p. pod_runs_as sa p ≡ false) l
      → visit_pods api ns sa l r ≡ r
  unfolding visit_pods
  visit_none [] r h = refl
  visit_none (pod ∷ l) r h = rw (visit_other pod r h.0) (visit_none l r h.1)

none_listed :
    (sa : Text) (ps : List PodObject)
    → All (λ p. needs_strip sa p ≡ false) ps
    → All (λ p. pod_runs_as sa p ≡ false) (keep is_managed ps)
none_listed sa [] h = tt
none_listed sa (p ∷ ps) h = elim (Bool-cases (is_managed p)) [
  | inl managed ↦ rw managed (ground arith, none_listed sa ps h.1)
  | inr bare ↦ rw bare (none_listed sa ps h.1)
]

module _ (api : PodApi) (laws : PodLaws api) (s : api.Store) (id ns sa : Text)
    (parsed : parse_workload_id id ≡ workload ns sa) where
  clean_after_list :
      (o : Listing)
      → api.list s ns spire_managed_label ≡ o
      → (after_list api ns sa s o).errors ≡ []
      → All (λ p. needs_strip sa p ≡ false) (laws.pods (after_list api ns sa s o).pods ns)
  unfolding after_list
  clean_after_list (list_error c) o e = cc
  clean_after_list (listed l) o e =
      let start : Removal api = record { pods = s; patched = 0; errors = [] } in
      Pending-nil sa (laws.pods (visit_pods api ns sa l start).pods ns) (
        Pending-visit_pods api laws ns sa l start (ap length e) (
          subst (λ k. Pending sa (names (keep (pod_runs_as sa) k)) (laws.pods s ns))
            (sym (laws.lists s ns l o)) (unfold targets in Pending-targets sa (laws.pods s ns))))

  -- A run without errors, for a subject that parses, leaves no pod of the service account in the
  -- namespace with the label.
  pub remove_spire_label-clean :
      (remove_spire_label api s id).errors ≡ []
      → All (λ p. needs_strip sa p ≡ false) (laws.pods (remove_spire_label api s id).pods ns)
  unfolding remove_spire_label
  remove_spire_label-clean e =
      rw parsed (clean_after_list (api.list s ns spire_managed_label) refl (rw parsed at e))

  unfold_listed :
      (t : api.Store) (l : List PodObject)
      → api.list t ns spire_managed_label ≡ listed l
      → remove_spire_label api t id
        ≡ visit_pods api ns sa l (record { pods = t; patched = 0; errors = [] })
  unfolding remove_spire_label
  unfold_listed t l q = rw (parsed, q)

  -- After a run without errors for a subject that parses, the next run for it, if it can list the
  -- pods, patches nothing, reports no error and changes nothing.
  pub remove_spire_label_twice :
      (l : List PodObject)
      → (remove_spire_label api s id).errors ≡ []
      → api.list (remove_spire_label api s id).pods ns spire_managed_label ≡ listed l
      → remove_spire_label api (remove_spire_label api s id).pods id
        ≡ record { pods = (remove_spire_label api s id).pods; patched = 0; errors = [] }
  remove_spire_label_twice l e q =
      let after = (remove_spire_label api s id).pods in
      let listed_none =
        subst (All (λ p. pod_runs_as sa p ≡ false)) (sym (laws.lists after ns l q))
          (none_listed sa (laws.pods after ns) (remove_spire_label-clean e)) in
      unfold_listed after l q
      ∙ visit_none api laws ns sa l (record { pods = after; patched = 0; errors = [] }) listed_none
