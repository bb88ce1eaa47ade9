-- ===== src/Translator/Main/Stops.antt =====
-- cmd/translator/main.go: when the loop of main ends, and with what.
use ebpf_ssf_broker.Base.{ℕ, zero, suc, ◌+◌, ◌<◌, ◌≡◌, true, false, List, [], ◌∷◌}
use ebpf_ssf_broker.Translator.Main.{Outside}
use ebpf_ssf_broker.Translator.Loop.{Attempt}
use ebpf_ssf_broker.Translator.Post.{Transport}
use ebpf_ssf_broker.Caep.Jwt.{Jwt}

-- The passes from one check on.
abbrev pub attempts : Outside → (i n : ℕ) → List Attempt
attempts out i zero = []
attempts out i (suc n) = out.attempt i ∷ attempts out (suc i) n

module _ (jwt : Jwt) (tr : Transport) (out : Outside) where
  -- The checks from `i` on see the cancellation after `k` passes, and not before.
  pub record IsFirst (i k : ℕ) : Type 0 where
    pub now : out.cancelled (i + k) ≡ true
    pub before : (j : ℕ) → j < k → out.cancelled (i + j) ≡ false
