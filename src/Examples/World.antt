-- ===== src/Examples/World.antt =====
-- A cluster with two pods and an AuthorizationPolicy, the actuator in front of it, and an event of
-- the first pod.
use ebpf_ssf_broker.Base.{
  ℕ, ◌≡◌, refl, sym, ap, ◌≢◌, ◌⊎◌, inl, Bool, false, Option, none, some, List, [], ◌∷◌, ◌++◌, map,
  arith, if◌then◌else◌, keep, Text, codes, text_eq, text_eq_refl,
}
use ebpf_ssf_broker.Base.Int.{pos}
use ebpf_ssf_broker.Actuator.Concurrent.View.{Refusals}
use ebpf_ssf_broker.Examples.Cluster.{
  patch_policy, sample_policies, body_of, patch_policy_body, Server,
}
use ebpf_ssf_broker.Examples.Token.{write_token, sample_jwt}
use ebpf_ssf_broker.Translator.Loop.{Round}
use ebpf_ssf_broker.Translator.Post.{set_request}
use ebpf_ssf_broker.Translator.Build.{Pod, ProcessKprobe}
use ebpf_ssf_broker.Actuator.Events.{Deps, Now, State}
use ebpf_ssf_broker.Actuator.Labels.Laws.{strip, PodLaws}
use ebpf_ssf_broker.Actuator.Labels.{
  spire_managed_label, strip_body, account, PodObject, Listing, listed, list_error, PodApi,
}
use ebpf_ssf_broker.Actuator.Mesh.Laws.{PolicyLaws}
use ebpf_ssf_broker.Actuator.Mesh.{add_principal}
use ebpf_ssf_broker.Go.Json.{marshal}
use ebpf_ssf_broker.Caep.Set.{new_set, SetClaims}
use ebpf_ssf_broker.Go.Clock.{unix, Time}
use ebpf_ssf_broker.Go.Http.{Fields, has_key, Request}

pub accepted_by :
    (s : Server) (p body : Text)
    → marshal (add_principal p ∷ []) ≡ some body
    → (patch_policy s body).1 ≡ none
    → (patch_policy s body).0.entries ≡ s.entries ++ p ∷ []
accepted_by s p body h ok = ground (arith, patch_policy_body s p body h)

pub refused_by :
    (s : Server) (p body : Text)
    → marshal (add_principal p ∷ []) ≡ some body
    → (patch_policy s body).1 ≢ none
    → ((patch_policy s body).0.entries ≡ s.entries)
      ⊎ ((patch_policy s body).0.entries ≡ s.entries ++ p ∷ [])
refused_by s p body h error = ground (arith, patch_policy_body s p body h)

abbrev pub sample_policy_laws : PolicyLaws sample_policies
sample_policy_laws = record {
  principals = λ s namespace name. s.entries;
  accepts = λ s namespace name p body h ok. accepted_by s p body h ok;
  refuses = λ s namespace name p body h error. refused_by s p body h error;
}

abbrev pub sample_pods_api : PodApi
sample_pods_api = record {
  Store = List PodObject;
  list = λ s namespace selector. listed (keep (λ pod. has_key pod.labels selector) s);
  patch = λ s namespace name body.
      if text_eq body strip_body then (map (strip name) s, none) else (s, some (codes "refused"));
}

abbrev listed_pods : Listing → List PodObject
listed_pods (listed l) = l
listed_pods (list_error e) = []

pub strip_listed :
    (s : List PodObject) (name : Text)
    → (sample_pods_api.patch s [] name strip_body).0 ≡ map (strip name) s
strip_listed s name = rw (text_eq_refl strip_body) refl

abbrev pub sample_pod_laws : PodLaws sample_pods_api
sample_pod_laws = record {
  pods = λ s namespace. s;
  lists = λ s namespace l h. ap listed_pods (sym h);
  strips = λ s namespace name ok. strip_listed s name;
}

abbrev managed : Fields
managed = (codes "app", codes "service-a") ∷ (spire_managed_label, codes "true") ∷ []

abbrev pub pod_a : PodObject
pod_a = record {
  name = codes "service-a-1";
  labels = managed;
  service_account = account (codes "service-a");
}

abbrev pub pod_b : PodObject
pod_b = record {
  name = codes "service-b-1";
  labels = (spire_managed_label, codes "true") ∷ [];
  service_account = account (codes "service-b");
}

abbrev pub deps : Deps
deps = record {
  jwt = sample_jwt;
  policy_api = sample_policies;
  pod_api = sample_pods_api;
  namespace = codes "zta-ssf";
  policy_name = codes "revoked-identities";
}

-- The time some nanoseconds after the epoch, with no monotonic reading.
abbrev pub at : ℕ → Time
at n = unix (pos n)

abbrev pub clock_now : Now
clock_now = record { t4 = at 400; t5 = at 500; t6 = at 9600 }

-- The policy is empty, and the API server answers or refuses the first PATCH.
abbrev pub fresh : Bool → State deps
fresh up = record {
  revoked = [];
  policies = record { outages = if up then 0 else 1; entries = [] };
  pods = pod_a ∷ pod_b ∷ [];
}

-- The pod of an event, as Tetragon attributes it.
abbrev pub event_pod : Fields → Pod
event_pod labels = record { namespace = codes "demo"; pod_labels = labels }

abbrev pub event_of : Fields → Option ProcessKprobe
event_of labels = some (record {
  function_name = codes "sys_openat";
  process = some (record { binary = codes "/bin/cat"; pod = some (event_pod labels) });
})

abbrev pub labels_a : Fields
labels_a = (codes "app", codes "service-a") ∷ []

abbrev pub sample_round : Round
sample_round = record {
  recv = at 100;
  minted = at 150;
  t2 = at 200;
  t3 = at 300;
  jti = codes "jti-1";
}

abbrev pub subject_a : Text
subject_a = codes "spiffe://example.org/ns/demo/sa/service-a"

abbrev pub principal_a : Text
principal_a = codes "example.org/ns/demo/sa/service-a"

-- A SET for a subject, as the translator mints it.
abbrev pub claims_for : Text → SetClaims
claims_for subject =
    new_set (λ t. t) (codes "translator") (codes "actuator") (codes "jti-1") (at 150)
      (record { format = codes "uri"; uri = subject })
      (record { event_time_stamp_ns = pos 50; initiating_entity = codes "policy" })

abbrev pub token_for : Text → Text
token_for subject = write_token (claims_for subject)

abbrev pub request_for : Text → Request
request_for subject = set_request (token_for subject) (at 100) (at 300)

-- The body of the PATCH that adds the principal of the first pod.
abbrev pub body_a : Text
body_a = body_of principal_a

-- The sample server has not stored what it refuses.
pub honest_server : Refusals deps sample_policy_laws false
honest_server s p body h error = inl (ground (arith, patch_policy_body s p body h))
