-- ===== src/Sandbox/Services.antt =====
-- backend/src/scanning/engines/services.py: what an engine receives beside the context. The factory
-- of HTTP clients is not a field: it closes over the sandbox, which is the state the engine acts on.
use sentinel_gpt.Common.{
  ℕ, Bool, not, ◌&&◌, Option, none, some, leb, contains, nat_eq, ◌==◌, if◌then◌else◌,
}
use sentinel_gpt.Common.Text.{Text, codes, text_eq, starts_with}
use sentinel_gpt.Errors.{Result, ok, raise_if, value_error, ◌>>◌}
use sentinel_gpt.Network.Binding.{ScanNetworkContext}
use sentinel_gpt.Network.Contract.{HttpLimits, allowed_http_schemes, default_port}

pub record OriginSpec : Type 0 where
  pub scheme : Text
  pub port : Option ℕ
  pub path : Text

abbrev pub default_origin : OriginSpec
default_origin = record { scheme = codes "https"; port = none; path = codes "/" }

-- `self.port or DEFAULT_PORTS[...]`: the port 0 is no port either.
effective_port : Option ℕ → ℕ → ℕ
unfolding nat_eq
effective_port none d = d
effective_port (some p) d = if p == 0 then d else p

-- `OriginSpec.__post_init__`
unfoldable pub check_origin : (Text → Text) → OriginSpec → Result OriginSpec
unfolding text_eq starts_with default_port effective_port
check_origin lower o = do
  let scheme = lower o.scheme
  raise_if (not (contains allowed_http_schemes scheme)) value_error
  raise_if (not (starts_with o.path (codes "/"))) value_error
  let effective = effective_port o.port (default_port scheme)
  raise_if (not (leb 1 effective && leb effective 65535)) value_error
  ok o

pub record EngineServices : Type 0 where
  pub is_cancelled : Bool
  pub limits : HttpLimits
  pub origin : OriginSpec
  pub context : ScanNetworkContext
