-- ===== src/Network/Binding/Laws.antt =====
-- What a validated binding and the context made from it guarantee.
use sentinel_gpt.Common.{
  ◌≡◌, refl, ap, ◌∙◌, ℕ, true_of_not, true, false, Option, none, some, List, [], ◌∷◌, contains, All,
  arith,
}
use sentinel_gpt.Common.Text.{Text}
use sentinel_gpt.Errors.{
  Result, ok, Returns, returned, raised, Returns-bind, Returns-raise_if, false_of_raise_if,
}
use sentinel_gpt.Network.IpAddress.{IpAddress, ip_eq}
use sentinel_gpt.Network.IpPolicy.{PolicyVerdict}
use sentinel_gpt.Network.IpPolicy.Bounds.{IsAllowed}
use sentinel_gpt.Network.Binding.{
  ValidatedTargetBinding, create, with_pinned, is_some, authorize, ScanNetworkContext, context_of,
  authorize_destination, require_destination, require_pinned, for_binding, sandbox_authorize,
}

-- Every address of the binding is public.
abbrev pub IsValidated : ValidatedTargetBinding → Type 0
IsValidated binding = All IsAllowed binding.addresses

-- The context's egress policy is the one derived from its binding, and the binding is validated.
pub record IsSound (context : ScanNetworkContext) : Type 0 where
  pub binding_validated : IsValidated context.binding
  pub egress_derived : context.egress.allowed_addresses ≡ context.binding.addresses

pub context_of-IsSound : (b : ValidatedTargetBinding) → IsValidated b → IsSound (context_of b)
unfolding context_of
context_of-IsSound b h = record { binding_validated = h; egress_derived = refl }

pub IsAllowed-of_contains :
    (xs : List IpAddress) (a : IpAddress) → All IsAllowed xs → contains xs a ≡ true → IsAllowed a
IsAllowed-of_contains [] a h e = ground arith
IsAllowed-of_contains (x ∷ xs) a h e = elim (ip_eq.dec a x) [
  | yes p ↦ rw p h.0
  | no n ↦ IsAllowed-of_contains xs a h.1 (ground arith)
]

pub none_of_is_some {ℓ} : {A : Type ℓ} (o : Option A) → is_some o ≡ false → o ≡ none
none_of_is_some none h = refl
none_of_is_some (some a) h = cc

-- A binding is created only if the validator returned and named no problem; it then carries exactly
-- the addresses that were validated, the name, and no pin.
pub create-validated :
    (hostname : Text) (addresses : List IpAddress)
    (validate : List IpAddress → Result (Option PolicyVerdict)) (now target_id : Option ℕ)
    (clock : ℕ)
    → Returns
        (λ b.
          (validate addresses ≡ ok none)
          × (b.addresses ≡ addresses)
          × (b.hostname ≡ hostname)
          × (b.pinned_address ≡ none))
        (create hostname addresses validate now target_id clock)
unfolding create
create-validated hostname addresses validate now target_id clock = Returns-bind _ _ λ outcome e.
    Returns-raise_if _ _ _
      λ quiet. returned (e ∙ ap ok (none_of_is_some outcome quiet), refl, refl, refl)

-- A binding that is pinned keeps its addresses, and its pin is one of them.
pub with_pinned-keeps :
    (b : ValidatedTargetBinding) (a : IpAddress)
    → Returns
        (λ b'.
          (b'.addresses ≡ b.addresses)
          × (b'.hostname ≡ b.hostname)
          × (b'.pinned_address ≡ some a)
          × (contains b.addresses a ≡ true))
        (with_pinned b a)
unfolding with_pinned
with_pinned-keeps b a = Returns-raise_if _ _ _ λ inside. returned (refl, refl, refl, ground arith)

pub with_pinned-IsValidated :
    (b : ValidatedTargetBinding) (a : IpAddress)
    → IsValidated b
    → Returns IsValidated (with_pinned b a)
unfolding with_pinned
with_pinned-IsValidated b a h = Returns-raise_if _ _ _ λ inside. returned h

pub authorize-IsAllowed :
    (c : ScanNetworkContext) (a : IpAddress)
    → IsSound c
    → authorize c.egress a ≡ true
    → IsAllowed a × (contains c.binding.addresses a ≡ true)
unfolding authorize
authorize-IsAllowed c a h e =
    let inside : contains c.binding.addresses a ≡ true = rw h.egress_derived at e in
    (IsAllowed-of_contains c.binding.addresses a h.binding_validated inside, inside)

require_pinned_lem :
    (c : ScanNetworkContext) (pin : Option IpAddress)
    → IsSound c
    → c.binding.pinned_address ≡ pin
    → Returns
        (λ b.
          IsAllowed b
          × (contains c.binding.addresses b ≡ true)
          × (c.binding.pinned_address ≡ some b))
        (require_pinned c pin)
unfolding require_pinned authorize_destination
require_pinned_lem c none h e = raised
require_pinned_lem c (some a) h e = Returns-raise_if _ _ _ λ inside.
    let (public, within) = authorize-IsAllowed c a h (true_of_not _ inside) in
    returned (public, within, e)

-- The destination that a sound context hands out is public, is an address of the binding and is
-- the one pinned.
require_destination-IsAllowed :
    (c : ScanNetworkContext)
    → IsSound c
    → Returns
        (λ a.
          IsAllowed a
          × (contains c.binding.addresses a ≡ true)
          × (c.binding.pinned_address ≡ some a))
        (require_destination c)
unfolding require_destination
require_destination-IsAllowed c h = require_pinned_lem c c.binding.pinned_address h refl

-- The rules installed in the sandbox authorize exactly the addresses of the binding, whichever
-- family they are of.
sandbox_authorize_iff :
    (b : ValidatedTargetBinding) (a : IpAddress)
    → Returns (λ p. sandbox_authorize p a ≡ contains b.addresses a) (for_binding b)
unfolding for_binding sandbox_authorize
sandbox_authorize_iff b a = Returns-raise_if _ _ _ λ some_. returned refl

pub authorize_destination_lem :
    (c : ScanNetworkContext) (a : IpAddress)
    → authorize_destination c a ≡ ok tt
    → authorize c.egress a ≡ true
unfolding authorize_destination
authorize_destination_lem c a e = true_of_not _ (false_of_raise_if _ _ e)
