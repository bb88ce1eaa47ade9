-- ===== src/Actuator/Reset/Laws.antt =====
-- cmd/actuator/main.go: resetDedupeHandler against its description.
use mathlib.Core.Path.{ap₂}
use ebpf_ssf_broker.Base.{
  ℕ, ◌+◌, ◌≡◌, refl, ◌∙◌, false, List, [], ◌∷◌, arith, if◌then◌else◌, length, Text, text_eq,
  contains, contains_self,
}
use ebpf_ssf_broker.Go.Http.{method_post, Request}
use ebpf_ssf_broker.Actuator.Dedupe.{Revoked, delete, contains-delete}
use ebpf_ssf_broker.Actuator.Events.{not_allowed}
use ebpf_ssf_broker.Actuator.Reset.{clear_keys, cleared_response, reset_dedupe_handler}

count-clear_keys :
    (keys : List Text) (m : Revoked) (n : ℕ) → (clear_keys keys m n).1 ≡ n + length keys
unfolding clear_keys
count-clear_keys [] m n = omega arith
count-clear_keys (k ∷ keys) m n = omega (arith, count-clear_keys keys (delete m k) (n + 1))

contains-clear_keys :
    (keys : List Text) (m : Revoked) (n : ℕ) (q : Text)
    → contains (clear_keys keys m n).0 q ≡ (if contains keys q then false else contains m q)
unfolding clear_keys contains
contains-clear_keys [] m n q = refl
contains-clear_keys (k ∷ keys) m n q =
    ground (arith, contains-clear_keys keys (delete m k) (n + 1) q, contains-delete m k q)

nothing_contained : (m : Revoked) → ((q : Text) → contains m q ≡ false) → m ≡ []
nothing_contained [] h = refl
nothing_contained (p ∷ m) h = cc (h p, contains_self m p)

clear_all : (m : Revoked) → clear_keys m m 0 ≡ ([], length m)
clear_all m =
    ap₂ (λ l n. (l, n)) (nothing_contained (clear_keys m m 0).0 (λ q. cleared q))
      (count-clear_keys m m 0 ∙ omega arith)
  where
    cleared : (q : Text) → contains (clear_keys m m 0).0 q ≡ false
    cleared q = ground (arith, contains-clear_keys m m 0 q)

-- A POST empties the dedupe set and answers 200 with the number of its keys; any other request
-- changes nothing and answers 405.
pub reset_dedupe_handler_lem :
    (req : Request) (m : Revoked)
    → reset_dedupe_handler req m ≡ (
        if text_eq req.method method_post
        then ([], cleared_response (length m))
        else (m, not_allowed))
unfolding reset_dedupe_handler
reset_dedupe_handler_lem req m = rw (clear_all m) (ground arith)
