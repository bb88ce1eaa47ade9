-- ===== src/Translator/Build/Laws.antt =====
-- cmd/translator/main.go: the SET of buildSet, and its subject as the actuator reads it.
use ebpf_ssf_broker.Base.{◌≡◌, refl, Option, none, some, arith, Text, codes}
use ebpf_ssf_broker.Go.Clock.{unix_nano, Time}
use ebpf_ssf_broker.Go.Http.{field}
use ebpf_ssf_broker.Caep.Set.{SetClaims}
use ebpf_ssf_broker.Actuator.WorkloadId.{parse_workload_id, workload}
use ebpf_ssf_broker.Actuator.WorkloadId.Laws.{parse_workload_id_iff, IsSegment}
use ebpf_ssf_broker.Translator.Build.{attribution, spiffe_uri, mint, build_set, Pod, ProcessKprobe}

-- What the actuator and the JWT library rely on in a minted SET.
pub record IsMinted (pod : Pod) (t0 : Time) (jti : Text) (c : SetClaims) : Type 0 where
  pub id : c.registered.id ≡ jti
  pub stamp : c.events.event_time_stamp_ns ≡ unix_nano t0
  pub uri : c.sub_id.uri ≡ spiffe_uri pod.namespace (field pod.pod_labels (codes "app"))
  pub no_expiry : c.registered.expires_at ≡ none
  pub no_start : c.registered.not_before ≡ none

module _ (numeric_date : Time → Time) (kp : Option ProcessKprobe) (t0 iat : Time) (jti : Text)
    (pod : Pod) (found : attribution kp ≡ some pod) where
  abbrev Minted : SetClaims → Type 0
  Minted c = (build_set numeric_date kp t0 iat jti ≡ some c) × IsMinted pod t0 jti c

  pub build_set-Minted : (c : SetClaims) × Minted c
  unfolding build_set
  build_set-Minted = (
    mint numeric_date pod t0 iat jti,
    (rw found, record { id = refl; stamp = refl; uri = refl; no_expiry = refl; no_start = refl }),
  )

-- The naming convention maps back: for an event whose pod has a namespace and an app label, both
-- non-empty and without a slash, buildSet mints a SET from whose subject the actuator reads
-- exactly these two, and that carries the identifier and the given T0 in nanoseconds.
pub parse-build_set :
    (numeric_date : Time → Time) (kp : Option ProcessKprobe) (t0 iat : Time) (jti : Text)
    (pod : Pod)
    → attribution kp ≡ some pod
    → IsSegment pod.namespace
    → IsSegment (field pod.pod_labels (codes "app"))
    → (c : SetClaims) × (build_set numeric_date kp t0 iat jti ≡ some c)
      × (parse_workload_id c.sub_id.uri
          ≡ workload pod.namespace (field pod.pod_labels (codes "app")))
      × (c.registered.id ≡ jti)
      × (c.events.event_time_stamp_ns ≡ unix_nano t0)
parse-build_set numeric_date kp t0 iat jti pod found n w =
    let (c, built_m) = build_set-Minted numeric_date kp t0 iat jti pod found in
    let (built, m) = built_m in
    let app = field pod.pod_labels (codes "app") in
    (
      c,
      built,
      (parse_workload_id_iff c.sub_id.uri pod.namespace app).1
          (codes "example.org", m.uri, record { filled = refl; whole = omega arith }, n, w),
      m.id,
      m.stamp,
    )
