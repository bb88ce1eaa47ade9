-- ===== src/Actuator/Reset.antt =====
-- cmd/actuator/main.go: resetDedupeHandler.
pub mod Laws
use ebpf_ssf_broker.Base.{ℕ, ◌+◌, not, List, [], ◌∷◌, ◌++◌, if◌then◌else◌, Text, codes, text_eq}
use ebpf_ssf_broker.Go.Decimal.{format_uint}
use ebpf_ssf_broker.Go.Http.{method_post, status_ok, Request, Response}
use ebpf_ssf_broker.Actuator.Events.{not_allowed}
use ebpf_ssf_broker.Actuator.Dedupe.{Revoked, delete}

-- revoked.Range with a Delete in each call: the keys left, and `cleared`.
clear_keys : List Text → Revoked → ℕ → Revoked × ℕ
clear_keys [] m cleared = (m, cleared)
clear_keys (key ∷ keys) m cleared = clear_keys keys (delete m key) (cleared + 1)

abbrev pub cleared_response : ℕ → Response
cleared_response n = record {
  status = status_ok;
  headers = [];
  body = codes "cleared " ++ (format_uint n ++ b'\n' ∷ []);
}

-- resetDedupeHandler
unfoldable pub reset_dedupe_handler : Request → Revoked → Revoked × Response
unfolding clear_keys
reset_dedupe_handler req m =
    let (m', cleared) = clear_keys m m 0 in
    if not (text_eq req.method method_post)
    then (m, not_allowed)
    else (m', cleared_response cleared)
