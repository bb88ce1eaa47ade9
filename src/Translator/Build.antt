-- ===== src/Translator/Build.antt =====
-- cmd/translator/main.go: buildSet, from a Tetragon event to a SET.
pub mod Laws
use ebpf_ssf_broker.Base.{Option, none, some, ◌++◌, Text, codes}
use ebpf_ssf_broker.Go.Clock.{unix_nano, Time}
use ebpf_ssf_broker.Go.Http.{Fields, field}
use ebpf_ssf_broker.Caep.Set.{new_set, SubjectId, CaepEvent, SetClaims}

-- The parts of github.com/cilium/tetragon's messages that are read. Pointers may be nil.
pub record Pod : Type 0 where
  pub namespace : Text
  pub pod_labels : Fields

pub record Process : Type 0 where
  pub binary : Text
  pub pod : Option Pod

pub record ProcessKprobe : Type 0 where
  pub function_name : Text
  pub process : Option Process

abbrev pub pod_of_process : Option Process → Option Pod
pod_of_process none = none
pod_of_process (some p) = p.pod

-- kp.Process.Pod, where no pointer on the way is nil.
abbrev pub attribution : Option ProcessKprobe → Option Pod
attribution none = none
attribution (some kp) = pod_of_process kp.process

-- fmt.Sprintf("spiffe://example.org/ns/%s/sa/%s", namespace, workload)
abbrev pub spiffe_uri : (namespace workload : Text) → Text
spiffe_uri namespace workload =
    codes "spiffe://example.org/ns/" ++ (namespace ++ (codes "/sa/" ++ workload))

-- The SET of an event in a pod.
mint : (Time → Time) → Pod → (t0 iat : Time) → Text → SetClaims
unfolding new_set
mint numeric_date pod t0 iat jti =
    let subject : SubjectId = record {
      format = codes "uri";
      uri = spiffe_uri pod.namespace (field pod.pod_labels (codes "app"));
    } in
    let event : CaepEvent = record {
      event_time_stamp_ns = unix_nano t0;
      initiating_entity = codes "policy";
    } in
    new_set numeric_date (codes "translator") (codes "actuator") jti iat subject event

set_for_pod : (Time → Time) → Option Pod → (t0 iat : Time) → Text → Option SetClaims
unfolding mint
set_for_pod numeric_date none t0 iat jti = none
set_for_pod numeric_date (some pod) t0 iat jti = some (mint numeric_date pod t0 iat jti)

-- buildSet; `none` is its error, an event without pod attribution.
unfoldable pub build_set :
    (Time → Time) → Option ProcessKprobe → (t0 iat : Time) → Text → Option SetClaims
unfolding set_for_pod
build_set numeric_date kp t0 iat jti = set_for_pod numeric_date (attribution kp) t0 iat jti
