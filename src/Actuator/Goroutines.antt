-- ===== src/Actuator/Goroutines.antt =====
-- cmd/actuator/main.go: the two goroutines of one request, each as the atomic steps that other
-- goroutines can come between: LoadOrStore, Delete and the calls of the API server.
pub mod MeshSide
pub mod LabelSide
pub mod Join
use ebpf_ssf_broker.Base.{
  ℕ, Bool, true, false, ◌||◌, Option, none, some, List, [], ◌∷◌, if◌then◌else◌, Text, text_eq,
  is_empty,
}
use ebpf_ssf_broker.Go.Json.{marshal}
use ebpf_ssf_broker.Go.Strings.{trim_prefix}
use ebpf_ssf_broker.Actuator.Events.{Deps, State}
use ebpf_ssf_broker.Actuator.Labels.{
  spire_managed_label, visit_pod, PodObject, Listing, listed, list_error, LabelError, bad_subject,
  list_failed, Removal,
}
use ebpf_ssf_broker.Actuator.Mesh.{
  add_principal, MeshError, not_spiffe_id, marshal_failed, patch_failed, Outcome, done, failed,
}
use ebpf_ssf_broker.Actuator.WorkloadId.{scheme, parse_workload_id, ParseResult, bad, workload}
use ebpf_ssf_broker.Actuator.Dedupe.{Revoked, load_or_store, delete}

-- Which goroutine runs next.
pub data Turn : Type 0 where
  mesh_turn label_turn : Turn

-- Where revokeInMesh stands: before LoadOrStore, the PATCH with its body, or the Delete that
-- precedes the return of an error, or returned.
pub data MeshAt : Type 0 where
  at_check : MeshAt
  at_patch : (body : Text) → MeshAt
  at_delete : MeshError → MeshAt
  mesh_returned : Outcome → MeshAt

-- Where removeSpireLabel stands: before the List, in the loop with the pods left, or returned.
pub data LabelAt : Type 0 where
  at_list : LabelAt
  at_pods : (namespace service_account : Text) → List PodObject → ℕ → List LabelError → LabelAt
  label_returned : ℕ → List LabelError → LabelAt

module _ (d : Deps) where
  pub record MeshThread : Type 0 where
    pub revoked : Revoked
    pub policies : d.policy_api.Store
    pub at : MeshAt

  pub record LabelThread : Type 0 where
    pub pods : d.pod_api.Store
    pub at : LabelAt

module _ (d : Deps) (subject : Text) where
  abbrev pub principal : Text
  principal = trim_prefix subject scheme

  abbrev after_marshal : Option Text → MeshAt
  after_marshal none = at_delete marshal_failed
  after_marshal (some body) = at_patch body

  after_load : d.policy_api.Store → Revoked × Bool → MeshThread d
  after_load s (m, true) = record { revoked = m; policies = s; at = mesh_returned (done false) }
  after_load s (m, false) = record {
    revoked = m;
    policies = s;
    at = after_marshal (marshal (add_principal principal ∷ []));
  }

  unfoldable pub after_patch : Revoked → d.policy_api.Store × Option Text → MeshThread d
  after_patch m (s, none) = record { revoked = m; policies = s; at = mesh_returned (done true) }
  after_patch m (s, some e) = record {
    revoked = m;
    policies = s;
    at = at_delete (patch_failed d.namespace d.policy_name e);
  }

  -- One step of the first goroutine.
  unfoldable pub mesh_step_at : MeshAt → Revoked → d.policy_api.Store → MeshThread d
  unfolding after_load after_patch
  mesh_step_at at_check m s =
      if text_eq principal subject || is_empty principal
      then record { revoked = m; policies = s; at = mesh_returned (failed (not_spiffe_id subject)) }
      else after_load s (load_or_store m principal)
  mesh_step_at (at_patch body) m s =
      after_patch m (d.policy_api.patch s d.namespace d.policy_name body)
  mesh_step_at (at_delete e) m s = record {
    revoked = delete m principal;
    policies = s;
    at = mesh_returned (failed e);
  }
  mesh_step_at (mesh_returned o) m s = record { revoked = m; policies = s; at = mesh_returned o }

  after_listing : (namespace service_account : Text) → Listing → LabelAt
  after_listing ns sa (list_error e) = label_returned 0 (list_failed ns e ∷ [])
  after_listing ns sa (listed pods) = at_pods ns sa pods 0 []

  after_parsing : d.pod_api.Store → ParseResult → LabelAt
  unfolding after_listing
  after_parsing s (bad e) = label_returned 0 (bad_subject e ∷ [])
  after_parsing s (workload ns sa) = after_listing ns sa (d.pod_api.list s ns spire_managed_label)

  abbrev in_loop : Text → Text → List PodObject → Removal d.pod_api → LabelThread d
  in_loop ns sa pods r = record { pods = r.pods; at = at_pods ns sa pods r.patched r.errors }

  -- One step of the second goroutine: the List, or one round of the loop.
  unfoldable pub label_step_at : LabelAt → d.pod_api.Store → LabelThread d
  unfolding after_parsing
  label_step_at at_list s = record { pods = s; at = after_parsing s (parse_workload_id subject) }
  label_step_at (at_pods ns sa [] n errs) s = record { pods = s; at = label_returned n errs }
  label_step_at (at_pods ns sa (pod ∷ pods) n errs) s =
      in_loop ns sa pods
        (visit_pod d.pod_api ns sa pod (record { pods = s; patched = n; errors = errs }))
  label_step_at (label_returned n errs) s = record { pods = s; at = label_returned n errs }

  abbrev pub mesh_step : MeshThread d → MeshThread d
  mesh_step t = mesh_step_at t.at t.revoked t.policies

  abbrev pub label_step : LabelThread d → LabelThread d
  label_step t = label_step_at t.at t.pods

  -- Both goroutines under a schedule. A goroutine that has returned stays as it is.
  unfoldable pub interleave :
      List Turn → MeshThread d → LabelThread d → MeshThread d × LabelThread d
  unfolding mesh_step_at label_step_at
  interleave [] mesh label = (mesh, label)
  interleave (mesh_turn ∷ turns) mesh label = interleave turns (mesh_step mesh) label
  interleave (label_turn ∷ turns) mesh label = interleave turns mesh (label_step label)

module _ (d : Deps) (st : State d) where
  -- The goroutines of a request when they are started.
  abbrev pub mesh_started : MeshThread d
  mesh_started = record { revoked = st.revoked; policies = st.policies; at = at_check }

  abbrev pub label_started : LabelThread d
  label_started = record { pods = st.pods; at = at_list }
