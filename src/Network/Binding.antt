-- ===== src/Network/Binding.antt =====
-- backend/src/domain/scanning/binding.py, egress.py and backend/src/scanning/sandbox/policy.py: the
-- destinations that one scan attempt may use.
pub mod Laws
use sentinel_gpt.Common.{
  ℕ, ◌≡◌, Bool, true, false, not, Option, none, some, List, [], ◌∷◌, contains, if◌then◌else◌,
  keep_if,
}
use sentinel_gpt.Common.Text.{Text}
use sentinel_gpt.Errors.{
  Result, ok, err, raise_if, target_resolution_blocked, egress_denied, ◌>>=◌, ◌>>◌,
}
use sentinel_gpt.Network.IpAddress.{IpAddress, v4, v6, ip_eq}
use sentinel_gpt.Network.IpPolicy.{PolicyVerdict}

pub record ValidatedTargetBinding : Type 0 where
  pub hostname : Text
  pub addresses : List IpAddress
  pub validated_at : ℕ
  pub target_id : Option ℕ
  pub pinned_address : Option IpAddress

abbrev now_or : Option ℕ → ℕ → ℕ
now_or none clock = clock
now_or (some t) clock = t

-- `outcome is not None`
abbrev pub is_some {ℓ} : {A : Type ℓ} → Option A → Bool
is_some none = false
is_some (some a) = true

-- `ValidatedTargetBinding.create`. `clock` is what `datetime.now` reads.
unfoldable pub create :
    Text
    → List IpAddress
    → (List IpAddress → Result (Option PolicyVerdict))
    → Option ℕ
    → Option ℕ
    → ℕ
    → Result ValidatedTargetBinding
create hostname addresses validate now target_id clock = do
  outcome ← validate addresses
  raise_if (is_some outcome) target_resolution_blocked
  ok (record {
    hostname = hostname;
    addresses = addresses;
    validated_at = now_or now clock;
    target_id = target_id;
    pinned_address = none;
  })

unfoldable pub with_pinned : ValidatedTargetBinding → IpAddress → Result ValidatedTargetBinding
with_pinned binding address = do
  raise_if (not (contains binding.addresses address)) egress_denied
  ok (record binding { pinned_address = some address })

-- `DefaultDenyEgressPolicy`
pub record EgressPolicy : Type 0 where
  pub allowed_addresses : List IpAddress

unfoldable pub authorize : EgressPolicy → IpAddress → Bool
authorize policy address = contains policy.allowed_addresses address

pub record ScanNetworkContext : Type 0 where
  pub binding : ValidatedTargetBinding
  pub egress : EgressPolicy

unfoldable pub context_of : ValidatedTargetBinding → ScanNetworkContext
context_of binding = record {
  binding = binding;
  egress = record { allowed_addresses = binding.addresses };
}

unfoldable pub authorize_destination : ScanNetworkContext → IpAddress → Result (Unit {0})
unfolding authorize
authorize_destination context address =
    raise_if (not (authorize context.egress address)) egress_denied

require_pinned : ScanNetworkContext → Option IpAddress → Result IpAddress
unfolding authorize_destination
require_pinned context none = err egress_denied
require_pinned context (some pinned) = do authorize_destination context pinned; ok pinned

unfoldable pub require_destination : ScanNetworkContext → Result IpAddress
unfolding require_pinned
require_destination context = require_pinned context context.binding.pinned_address

-- `SandboxEgressPolicy`: the constructor is `for_binding`, and an empty list of addresses is refused.
pub record SandboxEgressPolicy : Type 0 where
  pub hostname : Text
  pub allowed_addresses : List IpAddress

abbrev is_empty {ℓ} : {A : Type ℓ} → List A → Bool
is_empty [] = true
is_empty (x ∷ xs) = false

unfoldable pub for_binding : ValidatedTargetBinding → Result SandboxEgressPolicy
for_binding binding = do
  raise_if (is_empty binding.addresses) egress_denied
  ok (record { hostname = binding.hostname; allowed_addresses = binding.addresses })

abbrev pub is_v4 : IpAddress → Bool
is_v4 (v4 _) = true
is_v4 (v6 _) = false

unfoldable pub allowed_v4 : SandboxEgressPolicy → List IpAddress
allowed_v4 policy = keep_if is_v4 policy.allowed_addresses

unfoldable pub allowed_v6 : SandboxEgressPolicy → List IpAddress
allowed_v6 policy = keep_if (λ a. not (is_v4 a)) policy.allowed_addresses

unfoldable pub requires_ipv6_rules : SandboxEgressPolicy → Bool
unfolding allowed_v6
requires_ipv6_rules policy = not (is_empty (allowed_v6 policy))

unfoldable pub sandbox_authorize : SandboxEgressPolicy → IpAddress → Bool
sandbox_authorize policy address = contains policy.allowed_addresses address

unfoldable pub require_authorized : SandboxEgressPolicy → IpAddress → Result IpAddress
unfolding sandbox_authorize
require_authorized policy address = do
  raise_if (not (sandbox_authorize policy address)) egress_denied
  ok address
