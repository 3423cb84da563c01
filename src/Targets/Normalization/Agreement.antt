-- ===== src/Targets/Normalization/Agreement.antt =====
-- The registration gate (`_is_disallowed_ip`) against the scan-time policy (`evaluate_ip`), on
-- IPv4 addresses.
use mathlib.Core.Bool.{true≢false}
use sentinel_gpt.Common.{
  sym, ◌∙◌, ℕ, ◌≤◌, ◌≡◌, refl, ◌↔◌, ◌⊎◌, inl, inr, true, false, not, ◌&&◌, arith, nat_eq,
  Bool-cases,
}
use sentinel_gpt.Network.IpAddress.{IpAddress, v4, quad, classes, in_network}
use sentinel_gpt.Network.IpPolicy.{evaluate_ip}
use sentinel_gpt.Network.IpPolicy.Bounds.{IsClear, IsAllowed, IsAllowed-iff_IsClear}
use sentinel_gpt.Targets.Normalization.{is_disallowed_ip}

-- The shared address space of RFC 6598, 100.64.0.0/10.
abbrev pub IsShared : ℕ → Type 0
IsShared a = (quad 100 64 0 0 ≤ a) × (a ≤ quad 100 127 255 255)

global-classes :
    (a : ℕ)
    → (classes (v4 a)).is_global
      ≡ (not (in_network 32 a (quad 100 64 0 0, 10)) && not (classes (v4 a)).is_private)
unfolding classes
global-classes a = refl

IsShared-in_network : (a : ℕ) → (in_network 32 a (quad 100 64 0 0, 10) ≡ true) ↔ IsShared a
unfolding in_network
IsShared-in_network a = (λ h. (ground arith, ground arith), λ h. ground arith)

disallowed_shared : (a : ℕ) → IsShared a → is_disallowed_ip (v4 a) ≡ false
unfolding is_disallowed_ip classes
disallowed_shared a h = ground arith

disallowed_of_clear : (a : IpAddress) → IsClear (classes a) → is_disallowed_ip a ≡ false
unfolding is_disallowed_ip
disallowed_of_clear a h = ground arith

IsClear-or_IsShared :
    (a : ℕ) → is_disallowed_ip (v4 a) ≡ false → IsClear (classes (v4 a)) ⊎ IsShared a
unfolding is_disallowed_ip
IsClear-or_IsShared a h = elim (Bool-cases (in_network 32 a (quad 100 64 0 0, 10))) [
  | inl e ↦ inr ((IsShared-in_network a).0 e)
  | inr e ↦ inl (ground (arith, global-classes a))
]

refused_shared : (a : ℕ) → IsShared a → (evaluate_ip (v4 a)).allowed ≡ false
refused_shared a h = elim (Bool-cases (evaluate_ip (v4 a)).allowed) [
  | inl e ↦
      let global : (classes (v4 a)).is_global ≡ true = ((IsAllowed-iff_IsClear (v4 a)).0 e).6 in
      absurd (ground (arith, global-classes a, (IsShared-in_network a).1 h))
  | inr e ↦ e
]

-- The test on addresses that registration applies to the literals it recognizes,
-- `_is_disallowed_ip`, lets an IPv4 address pass exactly if the scan-time policy would allow it or it
-- lies in the shared address space 100.64.0.0/10, and the policy refuses that space: so the two tests
-- differ on the shared space and nowhere else. The other guards of registration, which refuse numbers
-- in other spellings, are not part of it.
pub disallowed_v4_iff :
    (a : ℕ)
    → ((is_disallowed_ip (v4 a) ≡ false) ↔ (IsAllowed (v4 a) ⊎ IsShared a))
      × (¬ (IsShared a × IsAllowed (v4 a)))
disallowed_v4_iff a = (
  (
    λ h. elim (IsClear-or_IsShared a h) [
      | inl clear ↦ inl ((IsAllowed-iff_IsClear (v4 a)).1 clear)
      | inr shared ↦ inr shared
    ],
    λ h. elim h [
      | inl allowed ↦ disallowed_of_clear (v4 a) ((IsAllowed-iff_IsClear (v4 a)).0 allowed)
      | inr shared ↦ disallowed_shared a shared
    ],
  ),
  λ h. true≢false (sym h.1 ∙ refused_shared a h.0),
)
