-- ===== src/Network/Contract/Laws.antt =====
-- Where a request may connect to.
use sentinel_gpt.Common.{◌≡◌, refl, ℕ, Option, none, some, contains, true}
use sentinel_gpt.Common.Text.{Text, Unicode}
use sentinel_gpt.Errors.{ok, Returns, returned, Returns-bind, Returns-raise_if}
use sentinel_gpt.Network.IpAddress.{IpAddress, ip_eq}
use sentinel_gpt.Network.IpPolicy.Bounds.{IsAllowed}
use sentinel_gpt.Network.Binding.{ScanNetworkContext}
use sentinel_gpt.Network.Binding.Laws.{IsSound, authorize-IsAllowed, authorize_destination_lem}
use sentinel_gpt.Network.Contract.{for_context, pinned_or_denied}

pinned_lem : (o : Option IpAddress) (a : IpAddress) → pinned_or_denied o ≡ ok a → o ≡ some a
pinned_lem none a e = cc
pinned_lem (some b) a e = cc

-- A connection target made for a sound context goes to the address that is pinned, which is public
-- and is one of the binding's, under the binding's own name; its scheme is the given one in lower
-- case.
for_context-bound :
    (u : Unicode) (c : ScanNetworkContext) (scheme : Text) (port : Option ℕ)
    → IsSound c
    → Returns
        (λ target.
          IsAllowed target.address
          × (contains c.binding.addresses target.address ≡ true)
          × (c.binding.pinned_address ≡ some target.address)
          × (target.hostname ≡ c.binding.hostname)
          × (target.scheme ≡ u.lower scheme))
        (for_context u c scheme port)
unfolding for_context
for_context-bound u c scheme port h = Returns-raise_if _ _ _ λ known. Returns-bind _ _ λ pinned e.
    Returns-bind _ _ λ _ inside.
      let (public, within) =
        authorize-IsAllowed c pinned h (authorize_destination_lem c pinned inside) in
      returned (public, within, pinned_lem _ _ e, refl, refl)

pub for_context-scheme :
    (u : Unicode) (c : ScanNetworkContext) (scheme : Text) (port : Option ℕ)
    → Returns (λ target. target.scheme ≡ u.lower scheme) (for_context u c scheme port)
unfolding for_context
for_context-scheme u c scheme port =
    Returns-raise_if _ _ _
      λ known. Returns-bind _ _ λ pinned e. Returns-bind _ _ λ _ inside. returned refl
