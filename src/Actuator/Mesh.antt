-- ===== src/Actuator/Mesh.antt =====
-- cmd/actuator/mesh.go: revokeInMesh, over the API server that stores the AuthorizationPolicy.

pub mod Laws
use ebpf_ssf_broker.Base.{
  Bool, true, false, ◌||◌, Option, none, some, [], ◌∷◌, if◌then◌else◌, Text, codes, text_eq,
  is_empty,
}
use ebpf_ssf_broker.Actuator.WorkloadId.{scheme}
use ebpf_ssf_broker.Go.Strings.{trim_prefix}
use ebpf_ssf_broker.Go.Json.{marshal, PatchOp}
use ebpf_ssf_broker.Actuator.Dedupe.{Revoked, load_or_store, delete}

abbrev pub principals_path : Text
principals_path = codes "/spec/rules/0/from/0/source/principals/-"

-- The API server's AuthorizationPolicies. `patch` is the dynamic client's JSON Patch of the object
-- of a namespace and a name: the state after it, and an error if there is one.
pub record PolicyApi : Type 1 where
  pub Store : Type 0
  pub patch : Store → (namespace name body : Text) → Store × Option Text

pub data MeshError : Type 0 where
  not_spiffe_id : Text → MeshError
  marshal_failed : MeshError
  patch_failed : (namespace name cause : Text) → MeshError

-- A result of Go's pair (bool, error), where one of the two says nothing.
pub data Outcome : Type 0 where
  done : (patched : Bool) → Outcome
  failed : MeshError → Outcome

abbrev pub add_principal : Text → PatchOp
add_principal principal = record { op = codes "add"; path = principals_path; value = principal }

module _ (api : PolicyApi) where
  open api use {Store, patch}

  -- What the call leaves behind: the dedupe set, the stored policies, and its result.
  pub record Revocation : Type 0 where
    pub revoked : Revoked
    pub policies : Store
    pub outcome : Outcome

module _ (api : PolicyApi) (namespace name : Text) where
  open api use {Store, patch}

  -- After the PATCH: an error drops the principal again.
  unfoldable pub finish_patch : Text → Revoked → Store × Option Text → Revocation api
  finish_patch principal m (s, none) = record { revoked = m; policies = s; outcome = done true }
  finish_patch principal m (s, some e) = record {
    revoked = delete m principal;
    policies = s;
    outcome = failed (patch_failed namespace name e);
  }

  send_patch : Text → Revoked → Store → Option Text → Revocation api
  unfolding finish_patch
  send_patch principal m s none = record {
    revoked = delete m principal;
    policies = s;
    outcome = failed marshal_failed;
  }
  send_patch principal m s (some body) = finish_patch principal m (patch s namespace name body)

  after_store : Text → Store → Revoked × Bool → Revocation api
  unfolding send_patch
  after_store principal s (m, true) = record { revoked = m; policies = s; outcome = done false }
  after_store principal s (m, false) =
      send_patch principal m s (marshal (add_principal principal ∷ []))

  -- revokeInMesh
  unfoldable pub revoke_in_mesh : Revoked → Store → Text → Revocation api
  unfolding after_store
  revoke_in_mesh m s spiffe_id =
      let principal = trim_prefix spiffe_id scheme in
      if text_eq principal spiffe_id || is_empty principal
      then record { revoked = m; policies = s; outcome = failed (not_spiffe_id spiffe_id) }
      else after_store principal s (load_or_store m principal)
