-- ===== src/Network/IpPolicy/Bounds.antt =====
-- What the policy admits, in terms of addresses.
use sentinel_gpt.Common.{
  ℕ, ◌≤◌, ◌<◌, ◌/◌, ◌%◌, ◌+◌, ◌*◌, ◌^◌, ◌≡◌, ◌≢◌, refl, ◌↔◌, true, false, List, [], ◌∷◌, arith, All,
  none, nat_eq, Bool-eq_of_iff,
}
use sentinel_gpt.Network.IpAddress.{IpAddress, v4, v6, quad, classes, Classes, classes_v4, ip_eq}
use sentinel_gpt.Network.IpPolicy.{evaluate_ip, evaluate_all, cloud_metadata_v4}

abbrev pub special_use : List (ℕ × ℕ)
special_use =
    (quad 0 0 0 0, quad 0 255 255 255)
    ∷ (quad 10 0 0 0, quad 10 255 255 255)
    ∷ (quad 100 64 0 0, quad 100 127 255 255)
    ∷ (quad 127 0 0 0, quad 127 255 255 255)
    ∷ (quad 169 254 0 0, quad 169 254 255 255)
    ∷ (quad 172 16 0 0, quad 172 31 255 255)
    ∷ (quad 192 0 0 0, quad 192 0 0 8)
    ∷ (quad 192 0 0 11, quad 192 0 0 255)
    ∷ (quad 192 0 2 0, quad 192 0 2 255)
    ∷ (quad 192 168 0 0, quad 192 168 255 255)
    ∷ (quad 198 18 0 0, quad 198 19 255 255)
    ∷ (quad 198 51 100 0, quad 198 51 100 255)
    ∷ (quad 203 0 113 0, quad 203 0 113 255)
    ∷ (quad 224 0 0 0, quad 255 255 255 255)
    ∷ []

abbrev pub OutsideOf : ℕ → List (ℕ × ℕ) → Type 0
OutsideOf a [] = Unit
OutsideOf a ((lo, hi) ∷ ranges) = (¬ ((lo ≤ a) × (a ≤ hi))) × OutsideOf a ranges

abbrev pub IsClear : Classes → Type 0
IsClear c =
    (c.is_unspecified ≡ false)
    × (c.is_loopback ≡ false)
    × (c.is_link_local ≡ false)
    × (c.is_multicast ≡ false)
    × (c.is_reserved ≡ false)
    × (c.is_private ≡ false)
    × (c.is_global ≡ true)

evaluate_ip-IsClear : (a : IpAddress) → (evaluate_ip a).allowed ≡ true → IsClear (classes a)
unfolding evaluate_ip
evaluate_ip-IsClear a h = ground arith

IsClear-evaluate_ip :
    (a : IpAddress) → IsClear (classes a) → a ≢ cloud_metadata_v4 → (evaluate_ip a).allowed ≡ true
unfolding evaluate_ip
IsClear-evaluate_ip a h n = ground arith

metadata-not-IsClear : ¬ IsClear (classes cloud_metadata_v4)
unfolding classes nat_eq
metadata-not-IsClear h = ground arith

IsClear-outside : (a : ℕ) → a < 2 ^ 32 → IsClear (classes (v4 a)) → OutsideOf a special_use
unfolding classes
IsClear-outside a b h = ground arith

not_private_outside :
    (a : ℕ) → a < 2 ^ 32 → OutsideOf a special_use → (classes_v4 a).is_private ≡ false
unfolding classes_v4
not_private_outside a b h = ground arith

outside-IsClear : (a : ℕ) → a < 2 ^ 32 → OutsideOf a special_use → IsClear (classes (v4 a))
unfolding classes
outside-IsClear a b h = ground (arith, not_private_outside a b h)

IsClear-ne-metadata : (a : IpAddress) → IsClear (classes a) → a ≢ cloud_metadata_v4
IsClear-ne-metadata a h e = metadata-not-IsClear (rw e at h)

abbrev pub IsAllowed : IpAddress → Type 0
IsAllowed a = (evaluate_ip a).allowed ≡ true

pub IsAllowed-iff_IsClear : (a : IpAddress) → IsAllowed a ↔ IsClear (classes a)
IsAllowed-iff_IsClear a =
    (evaluate_ip-IsClear a, λ h. IsClear-evaluate_ip a h (IsClear-ne-metadata a h))

-- An IPv4 address below 2 ^ 32 is allowed exactly if it lies outside every special-use block of
-- `special_use`: private, shared, loopback, link-local, documentation, benchmarking, multicast and
-- reserved space, given by first and last address. (192.0.0.9 and 192.0.0.10 lie outside.)
pub evaluate_ip_v4 :
    (a : ℕ) → a < 2 ^ 32 → ((evaluate_ip (v4 a)).allowed ≡ true) ↔ OutsideOf a special_use
evaluate_ip_v4 a b = (
  λ h. IsClear-outside a b ((IsAllowed-iff_IsClear (v4 a)).0 h),
  λ h. (IsAllowed-iff_IsClear (v4 a)).1 (outside-IsClear a b h),
)

classes_mapped : (a : ℕ) → a < 2 ^ 32 → classes (v6 (0xffff * 2 ^ 32 + a)) ≡ classes (v4 a)
unfolding classes
classes_mapped a b =
    let inside : (0xffff * 2 ^ 32 + a) % 2 ^ 32 ≡ a = omega arith in
    let prefix : (0xffff * 2 ^ 32 + a) / 2 ^ 32 ≡ 0xffff = omega arith in ground arith

-- Writing an IPv4 address as the IPv4-mapped IPv6 address changes nothing: the one is allowed
-- exactly if the other is.
evaluate_ip_mapped :
    (a : ℕ)
    → a < 2 ^ 32
    → (evaluate_ip (v6 (0xffff * 2 ^ 32 + a))).allowed ≡ (evaluate_ip (v4 a)).allowed
evaluate_ip_mapped a b =
    Bool-eq_of_iff
      (λ h.
        (IsAllowed-iff_IsClear (v4 a)).1
          (rw (classes_mapped a b) at ((IsAllowed-iff_IsClear (v6 (0xffff * 2 ^ 32 + a))).0 h)))
      (λ h.
        (IsAllowed-iff_IsClear _).1 (rw (classes_mapped a b) ((IsAllowed-iff_IsClear (v4 a)).0 h)))

-- A record set passes exactly if each of its addresses is allowed.
pub evaluate_all_iff : (rest : List IpAddress) → (evaluate_all rest ≡ none) ↔ All IsAllowed rest
unfolding evaluate_all
evaluate_all_iff [] = (λ h. tt, λ h. refl)
evaluate_all_iff (a ∷ rest) = ground (arith, evaluate_all_iff rest)
