-- ===== src/Translator/Main.antt =====
-- cmd/translator/main.go: main from its environment to the end of its loop.
pub mod Stops
use ebpf_ssf_broker.Base.{
  ℕ, zero, suc, Bool, not, Option, none, some, List, [], ◌∷◌, ◌++◌, if◌then◌else◌, Text, codes,
}
use ebpf_ssf_broker.Environment.{or_default}
use ebpf_ssf_broker.Go.Http.{Fields}
use ebpf_ssf_broker.Translator.Loop.{
  receive, Action, open_failed, stream_opened, slept, Attempt, unopened, opened,
}
use ebpf_ssf_broker.Translator.Post.{Transport}
use ebpf_ssf_broker.Caep.Jwt.{Jwt}

pub record Config : Type 0 where
  pub metrics_addr : Text
  pub tetragon_addr : Text
  pub actuator_url : Text

-- The settings of main.
unfoldable pub config : Fields → Config
config env = record {
  metrics_addr = or_default env (codes "METRICS_ADDR") (codes ":9091");
  tetragon_addr = or_default env (codes "TETRAGON_GRPC_ADDR") (codes "localhost:54321");
  actuator_url =
      or_default env (codes "ACTUATOR_URL")
        (codes "http://actuator.zta-ssf.svc.cluster.local:9090/events");
}

-- What main meets at each check of ctx.Err(): whether a signal has cancelled the context, and if
-- not, how the pass goes that follows. A cancelled context also breaks the stream of its pass.
pub record Outside : Type 0 where
  pub cancelled : ℕ → Bool
  pub attempt : ℕ → Attempt

-- How main ends: by the exit code 1, or by its return after what the loop did.
pub data Ended (W : Type 0) : Type 0 where
  exited : (code : ℕ) → Ended W
  returned : W → List Action → Ended W

module _ (jwt : Jwt) (tr : Transport) where
  -- One pass of the loop, with its sleep.
  unfoldable pub one_attempt : Text → tr.World → Attempt → tr.World × List Action
  one_attempt url w unopened = (w, open_failed ∷ slept 5 ∷ [])
  one_attempt url w (opened ms) =
      let (w', done) = receive jwt tr url w ms in (w', stream_opened ∷ done ++ slept 2 ∷ [])

  abbrev behind : List Action → Option (tr.World × List Action) → Option (tr.World × List Action)
  behind done none = none
  behind done (some (w, later)) = some (w, done ++ later)

  -- The loop from its check `i` on. The fuel bounds the number of checks.
  unfoldable pub main_loop :
      Text → Outside → (fuel i : ℕ) → tr.World → Option (tr.World × List Action)
  unfolding one_attempt
  main_loop url out zero i w = none
  main_loop url out (suc fuel) i w =
      let (w', done) = one_attempt url w (out.attempt i) in
      let rest = main_loop url out fuel (suc i) w' in
      if out.cancelled i then some (w, []) else behind done rest

  ended : Option (tr.World × List Action) → Option (Ended tr.World)
  ended none = none
  ended (some (w, done)) = some (returned w done)

  -- main, where `dials` says whether grpc.NewClient accepts the address.
  unfoldable pub main :
      (dials : Text → Bool) → Fields → Outside → (fuel : ℕ) → tr.World → Option (Ended tr.World)
  unfolding ended
  main dials env out fuel w =
      let c = config env in
      if not (dials c.tetragon_addr)
      then some (exited 1)
      else ended (main_loop c.actuator_url out fuel 0 w)
