-- ===== src/Network/Transport/Hops/Authorized.antt =====
-- Every request that the sandbox runs is authorized.
use sentinel_gpt.Common.{◌≡◌, List, true, not, contains, [], ◌∷◌, All, true_of_not}
use sentinel_gpt.Common.Text.{Text, text_eq}
use sentinel_gpt.Errors.{Result, ok, err, Returns, returned, raised, Returns-if, egress_denied}
use sentinel_gpt.Action.Keeps.{Keeps}
use sentinel_gpt.Network.IpAddress.{IpAddress, ip_eq}
use sentinel_gpt.Network.IpPolicy.Bounds.{IsAllowed}
use sentinel_gpt.Network.Binding.{ValidatedTargetBinding, ScanNetworkContext, is_some, authorize}
use sentinel_gpt.Network.Binding.Laws.{
  IsValidated, IsSound, context_of-IsSound, with_pinned-IsValidated, authorize-IsAllowed,
}
use sentinel_gpt.Network.Contract.{ConnectionTarget, HttpLimits, HttpRequestSpec, HttpScanRequest}
use sentinel_gpt.Network.Transport.{
  Runtime, Traffic, pin_context, pinned_to, rebound, authorize_or_refuse, resolve_all,
}
use sentinel_gpt.Network.Transport.Hops.Rules.{next_hop-Keeps, execute-Keeps}
use sentinel_gpt.Network.Transport.Hops.{next_hop, execute}

-- The destination of the request is public and is one of the addresses of its own binding, all of
-- which are public.
pub record IsAuthorized (request : HttpScanRequest) : Type 0 where
  pub context_sound : IsSound request.context
  pub destination_public : IsAllowed request.target.address
  pub destination_bound : contains request.context.binding.addresses request.target.address ≡ true

rebound-IsSound :
    (r : Result ValidatedTargetBinding) → Returns IsValidated r → Returns IsSound (rebound r)
unfolding rebound
rebound-IsSound (ok b) (returned h) = returned (context_of-IsSound b h)
rebound-IsSound (err e) h = raised

pinned_to-IsSound :
    (b : ValidatedTargetBinding) (addresses : List IpAddress)
    → IsValidated b
    → Returns IsSound (pinned_to b addresses)
unfolding pinned_to
pinned_to-IsSound b [] h = raised
pinned_to-IsSound b (a ∷ _) h = rebound-IsSound _ (with_pinned-IsValidated b a h)

pub pin_context-IsSound : (c : ScanNetworkContext) → IsSound c → Returns IsSound (pin_context c)
unfolding pin_context
pin_context-IsSound c h = pinned_to-IsSound c.binding c.binding.addresses h.binding_validated

pub authorize_or_refuse-IsAuthorized :
    (c : ScanNetworkContext) (spec : HttpRequestSpec) (target : ConnectionTarget)
    → IsSound c
    → Returns IsAuthorized (authorize_or_refuse c spec target)
unfolding authorize_or_refuse
authorize_or_refuse-IsAuthorized c spec target h =
    Returns-if (not (is_some c.binding.pinned_address)) (err egress_denied) _ (λ _. raised)
      λ _.
        Returns-if (not (authorize c.egress target.address)) (err egress_denied) _ (λ _. raised)
          λ inside.
            let (public, bound) = authorize-IsAllowed c target.address h (true_of_not _ inside) in
            returned
              (record { context_sound = h; destination_public = public; destination_bound = bound })

next_hop-IsAuthorized :
    (rt : Runtime) {P : Traffic → Type 0}
    → ((name : Text) (t : Traffic) → P t → P (resolve_all rt name t).1)
    → (current : HttpScanRequest) (location : Text) → IsSound current.context
    → Keeps P IsAuthorized (next_hop rt current location)
next_hop-IsAuthorized rt keep current location h =
    next_hop-Keeps rt keep current location {C = IsSound} h context_of-IsSound pin_context-IsSound
      (λ spec. authorize_or_refuse-IsAuthorized current.context spec current.target h)
      (λ c spec scheme port target sound _ _ _.
        authorize_or_refuse-IsAuthorized c spec target sound)

-- When `execute` starts with a sound context, every request that it makes the sandbox run goes to a
-- public address, which is an address of that request's own validated binding: over any chain of
-- redirects, whatever the servers, the resolver and the sandbox answer, and also when the exchange
-- ends in an error.
pub execute-AllAuthorized :
    (rt : Runtime) (request : HttpScanRequest) (limits : HttpLimits) (t : Traffic)
    → IsSound request.context
    → All IsAuthorized t.sent
    → All IsAuthorized (execute rt request limits t).1.sent
unfolding resolve_all
execute-AllAuthorized rt request limits t h =
    (execute-Keeps rt {Q = IsAuthorized} request limits
        (authorize_or_refuse-IsAuthorized request.context request.spec request.target h)
        λ current location a.
          next_hop-IsAuthorized rt (λ name t sent. sent) current location a.context_sound).state
      t
