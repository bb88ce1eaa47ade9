-- ===== src/ServiceB.antt =====
-- cmd/service-b/main.go: the service that is probed.
use ebpf_ssf_broker.Base.{ℕ, Option, none, some, [], ◌∷◌, ◌++◌, Text, codes}
use ebpf_ssf_broker.Go.Http.{Fields, status_ok, Response}
use ebpf_ssf_broker.Environment.{or_default}

-- What its handler reads of a request.
pub record Incoming : Type 0 where
  pub method : Text
  pub path : Text
  pub remote_addr : Text

abbrev pub greeting : Text
greeting = codes "hello from service-b"

-- The handler of "/", a pattern that every path matches: its response, and its log line.
unfoldable pub serve_hello : Incoming → Response × Text
serve_hello r = (
  record { status = status_ok; headers = []; body = greeting ++ b'\n' ∷ [] },
  codes "recv " ++ (r.method ++ (codes " " ++ (r.path ++ (codes " from " ++ r.remote_addr)))),
)

-- The address that main listens on.
unfoldable pub listen_addr : Fields → Text
listen_addr env = or_default env (codes "LISTEN_ADDR") (codes ":8080")

-- main: the address that it serves at, and its exit code once http.ListenAndServe has returned.
unfoldable pub main : Fields → (error : Option Text) → Text × ℕ
main env error = (listen_addr env, elim error [ none ↦ 0 | some e ↦ 1 ])
