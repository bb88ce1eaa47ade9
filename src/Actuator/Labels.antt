-- ===== src/Actuator/Labels.antt =====
-- cmd/actuator/labels.go: removeSpireLabel, over the API server that stores the pods.

pub mod Laws
pub mod Pending
pub mod Clean
use ebpf_ssf_broker.Base.{
  ℕ, ◌+◌, Bool, false, Option, none, some, List, [], ◌∷◌, ◌++◌, if◌then◌else◌, Text, codes, text_eq,
}
use ebpf_ssf_broker.Go.Http.{Fields}
use ebpf_ssf_broker.Go.Json.{quote}
use ebpf_ssf_broker.Actuator.WorkloadId.{parse_workload_id, ParseError, ParseResult, bad, workload}

abbrev pub spire_managed_label : Text
spire_managed_label = codes "spiffe.io/spire-managed-identity"

-- unstructured.NestedString(pod, "spec", "serviceAccountName"): an error, not found, or found.
pub data AccountField : Type 0 where
  malformed : AccountField
  missing : AccountField
  account : Text → AccountField

pub record PodObject : Type 0 where
  pub name : Text
  pub labels : Fields
  pub service_account : AccountField

pub data Listing : Type 0 where
  listed : List PodObject → Listing
  list_error : Text → Listing

-- The API server's pods: the list of a namespace behind a label selector, and the merge patch of
-- a pod, with an error if there is one.
pub record PodApi : Type 1 where
  pub Store : Type 0
  pub list : Store → (namespace selector : Text) → Listing
  pub patch : Store → (namespace name body : Text) → Store × Option Text

pub data LabelError : Type 0 where
  bad_subject : ParseError → LabelError
  list_failed : (namespace cause : Text) → LabelError
  pod_patch_failed : (namespace name cause : Text) → LabelError

-- {"metadata":{"labels":{%q:null}}}
abbrev pub strip_body : Text
unfolding quote
strip_body = codes "{\"metadata\":{\"labels\":{" ++ quote spire_managed_label ++ codes ":null}}}"

-- err == nil && found && sa == serviceAccount
unfoldable pub runs_as : Text → AccountField → Bool
runs_as sa malformed = false
runs_as sa missing = false
runs_as sa (account found) = text_eq found sa

module _ (api : PodApi) where
  -- The store, and the variables `patched` and `errs`. The error that removeSpireLabel returns is
  -- nil exactly if `errors` is empty.
  pub record Removal : Type 0 where
    pub pods : api.Store
    pub patched : ℕ
    pub errors : List LabelError

module _ (api : PodApi) (namespace service_account : Text) where
  pub note_patch : Text → ℕ → List LabelError → api.Store × Option Text → Removal api
  note_patch pod n errs (s, none) = record { pods = s; patched = n + 1; errors = errs }
  note_patch pod n errs (s, some e) = record {
    pods = s;
    patched = n;
    errors = errs ++ pod_patch_failed namespace pod e ∷ [];
  }

  -- One round of the loop: `continue` leaves everything as it is.
  unfoldable pub visit_pod : PodObject → Removal api → Removal api
  unfolding note_patch runs_as
  visit_pod pod r =
      if runs_as service_account pod.service_account
      then note_patch pod.name r.patched r.errors (api.patch r.pods namespace pod.name strip_body)
      else r

  unfoldable pub visit_pods : List PodObject → Removal api → Removal api
  unfolding visit_pod
  visit_pods [] r = r
  visit_pods (pod ∷ pods) r = visit_pods pods (visit_pod pod r)

module _ (api : PodApi) where
  abbrev with_error : api.Store → LabelError → Removal api
  with_error s e = record { pods = s; patched = 0; errors = e ∷ [] }

  pub after_list : Text → Text → api.Store → Listing → Removal api
  unfolding visit_pods
  after_list ns sa s (list_error e) = with_error s (list_failed ns e)
  after_list ns sa s (listed pods) =
      visit_pods api ns sa pods (record { pods = s; patched = 0; errors = [] })

  after_parse : api.Store → ParseResult → Removal api
  unfolding after_list
  after_parse s (bad e) = with_error s (bad_subject e)
  after_parse s (workload ns sa) = after_list ns sa s (api.list s ns spire_managed_label)

  -- removeSpireLabel
  unfoldable pub remove_spire_label : api.Store → Text → Removal api
  unfolding after_parse
  remove_spire_label s spiffe_id = after_parse s (parse_workload_id spiffe_id)
