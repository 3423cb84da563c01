-- ===== src/Network/IpPolicy.antt =====
-- backend/src/domain/scanning/ip_policy.py: which destination addresses a scan may connect to.
pub mod Bounds
use sentinel_gpt.Common.{
  ℕ, Bool, true, false, not, Option, none, some, List, [], ◌∷◌, ◌==◌, if◌then◌else◌,
}
use sentinel_gpt.Network.IpAddress.{IpAddress, v4, quad, classes, ip_eq}

pub data IpRejectionReason : Type 0 where
  unspecified loopback private link_local multicast reserved metadata not_global : IpRejectionReason

pub record PolicyVerdict : Type 0 where
  pub allowed : Bool
  pub address : IpAddress
  pub reason : Option IpRejectionReason

abbrev pub cloud_metadata_v4 : IpAddress
cloud_metadata_v4 = v4 (quad 169 254 169 254)

-- The loop over `checks`: the reason of the first check that refuses.
first_refusal : List (Bool × IpRejectionReason) → Option IpRejectionReason
first_refusal [] = none
first_refusal ((refuses, reason) ∷ checks) = if refuses then some reason else first_refusal checks

abbrev verdict_of : IpAddress → Option IpRejectionReason → PolicyVerdict
verdict_of a none = record { allowed = true; address = a; reason = none }
verdict_of a (some r) = record { allowed = false; address = a; reason = some r }

unfoldable pub evaluate_ip : IpAddress → PolicyVerdict
unfolding first_refusal
evaluate_ip a =
    let c = classes a in
    if a == cloud_metadata_v4
    then verdict_of a (some metadata)
    else verdict_of a (
        first_refusal (
          (c.is_unspecified, unspecified)
          ∷ (c.is_loopback, loopback)
          ∷ (c.is_link_local, link_local)
          ∷ (c.is_multicast, multicast)
          ∷ (c.is_reserved, reserved)
          ∷ (c.is_private, private)
          ∷ (not c.is_global, not_global)
          ∷ []))

-- The first refusal over a whole record set, if there is one.
unfoldable pub evaluate_all : List IpAddress → Option PolicyVerdict
evaluate_all [] = none
evaluate_all (a ∷ rest) =
    let verdict = evaluate_ip a in if verdict.allowed then evaluate_all rest else some verdict
