-- ===== src/Environment.antt =====
-- cmd/service-a, cmd/service-b and cmd/translator: the variables of the environment that main reads.
use ebpf_ssf_broker.Base.{if◌then◌else◌, Text, is_empty}
use ebpf_ssf_broker.Go.Http.{Fields, field}

-- v := os.Getenv(key), and the default where it is "".
unfoldable pub or_default : Fields → (key default : Text) → Text
or_default env key default = let v = field env key in if is_empty v then default else v
