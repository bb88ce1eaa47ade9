-- ===== src/Actuator/Labels/Laws.antt =====
-- cmd/actuator/labels.go: the API server of removeSpireLabel, and what its loop counts.
use ebpf_ssf_broker.Base.{
  ℕ, ◌+◌, ◌≡◌, inl, inr, Bool, Option, none, some, List, [], ◌∷◌, map, arith, if◌then◌else◌,
  Bool-cases, length, length-append, keep, Text, text_eq,
}
use ebpf_ssf_broker.Go.Http.{has_key, without}
use ebpf_ssf_broker.Actuator.WorkloadId.{parse_workload_id, workload}
use ebpf_ssf_broker.Actuator.Labels.{
  spire_managed_label, listed, pod_patch_failed, strip_body, runs_as, note_patch, visit_pod,
  visit_pods, remove_spire_label, PodObject, PodApi, LabelError, Removal,
}

-- The pod runs as the service account.
abbrev pub pod_runs_as : Text → PodObject → Bool
pod_runs_as sa pod = runs_as sa pod.service_account

-- The label is on the pod.
abbrev pub is_managed : PodObject → Bool
is_managed pod = has_key pod.labels spire_managed_label

-- What the merge patch of a pod does to the pods of its namespace.
abbrev pub strip : Text → PodObject → PodObject
strip name pod =
    if text_eq pod.name name
    then record pod { labels = without spire_managed_label pod.labels }
    else pod

-- A list shows the pods that carry the label, and an accepted patch strips the pod of that name.
pub record PodLaws (api : PodApi) : Type 1 where
  pub pods : api.Store → (namespace : Text) → List PodObject
  pub lists :
      (s : api.Store) (namespace : Text) (l : List PodObject)
      → api.list s namespace spire_managed_label ≡ listed l
      → l ≡ keep is_managed (pods s namespace)
  pub strips :
      (s : api.Store) (namespace name : Text)
      → (api.patch s namespace name strip_body).1 ≡ none
      → pods (api.patch s namespace name strip_body).0 namespace
        ≡ map (strip name) (pods s namespace)

module _ (api : PodApi) (namespace sa : Text) where
  count-note_patch :
      (pod : Text) (n : ℕ) (errs : List LabelError) (o : api.Store × Option Text)
      → (note_patch api namespace sa pod n errs o).patched
          + length (note_patch api namespace sa pod n errs o).errors
        ≡ n + length errs + 1
  unfolding note_patch
  count-note_patch pod n errs (s, none) = omega arith
  count-note_patch pod n errs (s, some e) =
      omega (arith, length-append errs (pod_patch_failed namespace pod e ∷ []))

  count-visit_pod :
      (pod : PodObject) (r : Removal api)
      → (visit_pod api namespace sa pod r).patched
          + length (visit_pod api namespace sa pod r).errors
        ≡ r.patched + length r.errors + (if pod_runs_as sa pod then 1 else 0)
  count-visit_pod pod r = elim (Bool-cases (pod_runs_as sa pod)) [
    | inl runs ↦ rw runs (
        unfold visit_pod in
        rw runs (
          count-note_patch pod.name r.patched r.errors
            (api.patch r.pods namespace pod.name strip_body)))
    | inr other ↦ rw other (unfold visit_pod in rw other (omega arith))
  ]

  pub count-visit_pods :
      (pods : List PodObject) (r : Removal api)
      → (visit_pods api namespace sa pods r).patched
          + length (visit_pods api namespace sa pods r).errors
        ≡ r.patched + length r.errors + length (keep (pod_runs_as sa) pods)
  unfolding visit_pods
  count-visit_pods [] r = omega arith
  count-visit_pods (pod ∷ pods) r =
      ground
        (arith, count-visit_pods pods (visit_pod api namespace sa pod r), count-visit_pod pod r)

-- For a subject that parses and a list that is answered, each listed pod of the service account is
-- patched or leaves an error, whatever happens to the others, and no other pod counts.
pub count-remove_spire_label :
    (api : PodApi) (s : api.Store) (id ns sa : Text) (l : List PodObject)
    → parse_workload_id id ≡ workload ns sa
    → api.list s ns spire_managed_label ≡ listed l
    → (remove_spire_label api s id).patched + length (remove_spire_label api s id).errors
      ≡ length (keep (pod_runs_as sa) l)
unfolding remove_spire_label
count-remove_spire_label api s id ns sa l p q =
    rw (p, q)
      (omega (arith, count-visit_pods api ns sa l (record { pods = s; patched = 0; errors = [] })))
