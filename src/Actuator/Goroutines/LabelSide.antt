-- ===== src/Actuator/Goroutines/LabelSide.antt =====
-- cmd/actuator/main.go: the steps of the second goroutine against remove_spire_label.
use ebpf_ssf_broker.Base.{
  ℕ, zero, suc, ◌+◌, ◌-◌, ◌≤◌, ◌≡◌, refl, ◌∙◌, List, [], ◌∷◌, arith, length, Text,
}
use ebpf_ssf_broker.Actuator.Labels.{
  spire_managed_label, visit_pods, after_list, remove_spire_label, PodObject, Listing, listed,
  list_error, LabelError, Removal,
}
use ebpf_ssf_broker.Actuator.Goroutines.{
  at_list, at_pods, label_returned, after_listing, after_parsing, label_step_at, label_step,
  LabelAt, LabelThread,
}
use ebpf_ssf_broker.Actuator.Events.{Deps}
use ebpf_ssf_broker.Actuator.WorkloadId.{parse_workload_id, ParseResult, bad, workload}

-- The steps left behind the List.
loop_left : LabelAt → ℕ
loop_left at_list = 0
loop_left (at_pods ns sa pods n errs) = length pods + 1
loop_left (label_returned n errs) = 0

module _ (d : Deps) (subject : Text) where
  -- The steps left to the return, at most: before the List, its pods count.
  unfoldable pub label_left : LabelAt → d.pod_api.Store → ℕ
  unfolding loop_left after_parsing
  label_left at_list s = loop_left (after_parsing d subject s (parse_workload_id subject)) + 1
  label_left (at_pods ns sa pods n errs) s = length pods + 1
  label_left (label_returned n errs) s = 0

  -- What the second goroutine will have done when it returns.
  unfoldable pub label_result_at : LabelAt → d.pod_api.Store → Removal d.pod_api
  label_result_at at_list s = remove_spire_label d.pod_api s subject
  label_result_at (at_pods ns sa pods n errs) s =
      visit_pods d.pod_api ns sa pods (record { pods = s; patched = n; errors = errs })
  label_result_at (label_returned n errs) s = record { pods = s; patched = n; errors = errs }

  abbrev pub label_result : LabelThread d → Removal d.pod_api
  label_result t = label_result_at t.at t.pods

  label_result-open :
      (s : d.pod_api.Store) (p : ParseResult)
      → parse_workload_id subject ≡ p
      → label_result_at (after_parsing d subject s p) s ≡ remove_spire_label d.pod_api s subject
  unfolding label_result_at after_parsing remove_spire_label
  label_result-open s (bad e) h = rw h refl
  label_result-open s (workload ns sa) h =
      rw h (listing (d.pod_api.list s ns spire_managed_label) refl)
    where
      listing :
          (o : Listing)
          → d.pod_api.list s ns spire_managed_label ≡ o
          → label_result_at (after_listing d subject ns sa o) s ≡ after_list d.pod_api ns sa s o
      listing (list_error e) k = refl
      listing (listed pods) k = refl

  label_result-step_at :
      (a : LabelAt) (s : d.pod_api.Store)
      → label_result (label_step_at d subject a s) ≡ label_result_at a s
  unfolding label_result_at label_step_at visit_pods
  label_result-step_at at_list s = label_result-open s (parse_workload_id subject) refl
  label_result-step_at (at_pods ns sa [] n errs) s = refl
  label_result-step_at (at_pods ns sa (pod ∷ pods) n errs) s = refl
  label_result-step_at (label_returned n errs) s = refl

  abbrev pub label_steps : ℕ → LabelThread d → LabelThread d
  label_steps zero t = t
  label_steps (suc n) t = label_steps n (label_step d subject t)

  pub label_result-steps :
      (n : ℕ) (t : LabelThread d) → label_result (label_steps n t) ≡ label_result t
  label_result-steps zero t = refl
  label_result-steps (suc n) t =
      label_result-steps n (label_step d subject t) ∙ label_result-step_at t.at t.pods

  left-opened :
      (s : d.pod_api.Store) (p : ParseResult)
      → label_left (after_parsing d subject s p) s ≤ loop_left (after_parsing d subject s p)
  unfolding after_parsing label_left
  left-opened s (bad e) = omega arith
  left-opened s (workload ns sa) = left-listing (d.pod_api.list s ns spire_managed_label)
    where
      left-listing :
          (o : Listing)
          → label_left (after_listing d subject ns sa o) s
            ≤ loop_left (after_listing d subject ns sa o)
      left-listing (list_error e) = omega arith
      left-listing (listed pods) = omega arith

  left-label_step :
      (a : LabelAt) (s : d.pod_api.Store)
      → label_left (label_step_at d subject a s).at (label_step_at d subject a s).pods
        ≤ label_left a s - 1
  unfolding label_step_at label_left
  left-label_step at_list s =
      let opened = left-opened s (parse_workload_id subject) in omega (arith, opened)
  left-label_step (at_pods ns sa [] n errs) s = omega arith
  left-label_step (at_pods ns sa (pod ∷ pods) n errs) s = omega arith
  left-label_step (label_returned n errs) s = omega arith

  pub left-label_steps :
      (n : ℕ) (t : LabelThread d)
      → label_left (label_steps n t).at (label_steps n t).pods ≤ label_left t.at t.pods - n
  left-label_steps zero t = omega arith
  left-label_steps (suc n) t =
      let one = left-label_step t.at t.pods in
      omega (arith, left-label_steps n (label_step d subject t), one)

-- The goroutine is behind its List.
pub data IsListed : LabelAt → Type 0 where
  looping :
      (namespace service_account : Text) (pods : List PodObject) (n : ℕ) (errs : List LabelError)
      → IsListed (at_pods namespace service_account pods n errs)
  ended : (n : ℕ) (errs : List LabelError) → IsListed (label_returned n errs)

module _ (d : Deps) (subject : Text) (s : d.pod_api.Store) where
  pub IsListed-step : IsListed (label_step_at d subject at_list s).at
  unfolding label_step_at
  IsListed-step = parsed (parse_workload_id subject)
    where
      list_of : (ns sa : Text) (o : Listing) → IsListed (after_listing d subject ns sa o)
      list_of ns sa (list_error e) = ended 0 _
      list_of ns sa (listed pods) = looping ns sa pods 0 []

      parsed : (q : ParseResult) → IsListed (after_parsing d subject s q)
      parsed (bad e) = ended 0 _
      parsed (workload ns sa) = list_of ns sa (d.pod_api.list s ns spire_managed_label)
