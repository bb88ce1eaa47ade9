-- ===== src/Examples/Cluster.antt =====
-- An API server with one AuthorizationPolicy and the pods of one namespace.
use mathlib.Core.Option.{some-injective}
use ebpf_ssf_broker.Base.{
  ℕ, ◌-◌, ◌≡◌, refl, sym, ap, ◌∙◌, Option, none, some, List, [], ◌∷◌, ◌++◌, append_assoc, ◌==◌,
  if◌then◌else◌, Text, codes,
}
use ebpf_ssf_broker.Actuator.Mesh.{principals_path, add_principal, PolicyApi}
use ebpf_ssf_broker.Go.Json.Read.{read_string, read_string-quote}
use ebpf_ssf_broker.Go.Strings.{cut_prefix, cut_prefix-append}
use ebpf_ssf_broker.Go.Json.{quote, marshal}

-- The policy's principals, and how many PATCHes the server still refuses.
pub record Server : Type 0 where
  pub outages : ℕ
  pub entries : List Text

abbrev pub add_prefix : Text
unfolding quote
add_prefix = codes "[{\"op\":\"add\",\"path\":" ++ quote principals_path ++ codes ",\"value\":"

abbrev refused_patch : Server → Server × Option Text
refused_patch s = (record s { outages = s.outages - 1 }, some (codes "refused"))

add_read : Server → Option (Text × Text) → Server × Option Text
add_read s none = refused_patch s
add_read s (some (p, rest)) = (record s { entries = s.entries ++ p ∷ [] }, none)

add_cut : Server → Option Text → Server × Option Text
unfolding add_read read_string
add_cut s none = refused_patch s
add_cut s (some rest) = add_read s (read_string rest)

unfoldable pub patch_policy : Server → Text → Server × Option Text
unfolding add_cut cut_prefix
patch_policy s body =
    if s.outages == 0 then add_cut s (cut_prefix body add_prefix) else refused_patch s

abbrev pub sample_policies : PolicyApi
sample_policies = record { Store = Server; patch = λ s ns name body. patch_policy s body }

unfoldable pub body_of : Text → Text
body_of p = add_prefix ++ (quote p ++ codes "}]")

pub marshal-body_of : (p : Text) → marshal (add_principal p ∷ []) ≡ some (body_of p)
unfolding marshal body_of quote
marshal-body_of p = ap some (
    append_assoc (add_prefix ++ quote p) (codes "}") (codes "]")
    ∙ append_assoc add_prefix (quote p) (codes "}]"))

pub patch_policy_body :
    (s : Server) (p body : Text)
    → marshal (add_principal p ∷ []) ≡ some body
    → patch_policy s body ≡ (
        if s.outages == 0
        then (record s { entries = s.entries ++ p ∷ [] }, none)
        else refused_patch s)
patch_policy_body s p body h =
    let same = some-injective (body_of p) body (sym (marshal-body_of p) ∙ h) in
    rw (sym same) (
      unfold patch_policy body_of in
      rw (cut_prefix-append add_prefix (quote p ++ codes "}]"), read_string-quote p (codes "}]"))
        refl)
