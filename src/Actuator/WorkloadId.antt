-- ===== src/Actuator/WorkloadId.antt =====
-- cmd/actuator/labels.go: parseWorkloadID.

pub mod Laws
use ebpf_ssf_broker.Base.{
  not, ◌||◌, Option, none, some, List, [], ◌∷◌, if◌then◌else◌, Text, codes, text_eq, is_empty,
}
use ebpf_ssf_broker.Go.Strings.{cut_prefix, split}

abbrev pub scheme : Text
scheme = codes "spiffe://"

pub data ParseError : Type 0 where
  not_spiffe_id bad_shape empty_segment : (subject : Text) → ParseError

pub data ParseResult : Type 0 where
  bad : ParseError → ParseResult
  workload : (namespace service_account : Text) → ParseResult

-- The two checks on the segments of a path.
parse_segments : Text → List Text → ParseResult
parse_segments subject (td ∷ key_ns ∷ ns ∷ key_sa ∷ sa ∷ []) =
    if not (text_eq key_ns (codes "ns")) || not (text_eq key_sa (codes "sa"))
    then bad (bad_shape subject)
    else if is_empty td || is_empty ns || is_empty sa
    then bad (empty_segment subject)
    else workload ns sa
parse_segments subject segments = bad (bad_shape subject)

parse_path : Text → Option Text → ParseResult
unfolding parse_segments
parse_path subject none = bad (not_spiffe_id subject)
parse_path subject (some path) = parse_segments subject (split path b'/')

-- parseWorkloadID
unfoldable pub parse_workload_id : Text → ParseResult
unfolding parse_path
parse_workload_id spiffe_id = parse_path spiffe_id (cut_prefix spiffe_id scheme)
