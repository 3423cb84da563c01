-- ===== src/Network/Transport/Hops/Limits.antt =====
-- How far an exchange can go: its requests, its scheme and the locations that it follows.
use sentinel_gpt.Common.{◌≡◌, refl, ap, ◌∙◌, true, false, not, contains, All, arith, nat_eq}
use sentinel_gpt.Common.Text.{Text, codes, text_eq}
use sentinel_gpt.Errors.{
  err, Returns, returned, raised, Returns-imp, Returns-if, Returns-elim, egress_denied, Returns-any,
  sandbox_not_established,
}
use sentinel_gpt.Action.{◌>>=◌}
use sentinel_gpt.Action.Keeps.{Keeps}
use sentinel_gpt.Network.Binding.{ScanNetworkContext, is_some, authorize}
use sentinel_gpt.Network.Contract.{
  ConnectionTarget, HttpLimits, HttpRequestSpec, HttpScanRequest, allowed_http_schemes,
}
use sentinel_gpt.Network.Contract.Laws.{for_context-scheme}
use sentinel_gpt.Network.Transport.{Runtime, Traffic, authorize_or_refuse, resolve_all}
use sentinel_gpt.Network.Transport.Hops.{next_hop, downgrades, execute}
use sentinel_gpt.Network.Transport.Hops.Rules.{next_hop-Keeps, execute-Keeps}

authorize_or_refuse-target :
    (c : ScanNetworkContext) (spec : HttpRequestSpec) (target : ConnectionTarget)
    → Returns (λ r. r.target ≡ target) (authorize_or_refuse c spec target)
unfolding authorize_or_refuse
authorize_or_refuse-target c spec target =
    Returns-if (not (is_some c.binding.pinned_address)) (err egress_denied) _ (λ _. raised)
      λ _.
        Returns-if (not (authorize c.egress target.address)) (err egress_denied) _ (λ _. raised)
          λ inside. returned refl

abbrev pub IsHttps : HttpScanRequest → Type 0
IsHttps request = request.target.scheme ≡ codes "https"

https_of_upward :
    (rt : Runtime) (current : HttpScanRequest) (scheme : Text)
    → IsHttps current
    → contains allowed_http_schemes scheme ≡ true
    → downgrades rt current scheme ≡ false
    → scheme ≡ codes "https"
unfolding downgrades text_eq
https_of_upward rt current scheme s k d = ground arith

module _ (rt : Runtime) (stays : rt.parsers.unicode.lower (codes "https") ≡ codes "https") where
  IsHttps-hop :
      {P : Traffic → Type 0}
      → ((name : Text) (t : Traffic) → P t → P (resolve_all rt name t).1)
      → (current : HttpScanRequest) (location : Text) → IsHttps current
      → Keeps P IsHttps (next_hop rt current location)
  IsHttps-hop keep current location s =
      next_hop-Keeps rt keep current location {C = λ _. Unit} tt (λ _ _. tt) (λ c _. Returns-any _)
        (λ spec.
          Returns-imp (authorize_or_refuse-target current.context spec current.target)
            λ r e. ap (λ target. target.scheme) e ∙ s)
        λ c spec scheme port target _ known upward made.
          Returns-imp (authorize_or_refuse-target c spec target) λ r e.
            ap (λ target. target.scheme) e
            ∙ (Returns-elim (for_context-scheme rt.parsers.unicode c scheme port) target made
                ∙ (ap rt.parsers.unicode.lower (https_of_upward rt current scheme s known upward)
                    ∙ stays))

  -- An exchange that starts over HTTPS stays there: every request that it makes the sandbox run has
  -- the scheme https, whatever locations the servers name. (`str.lower` leaves "https" alone.)
  pub execute-IsHttps :
      (request : HttpScanRequest) (limits : HttpLimits) (t : Traffic)
      → IsHttps request
      → All IsHttps t.sent
      → All IsHttps (execute rt request limits t).1.sent
  unfolding resolve_all
  execute-IsHttps request limits t s =
      (execute-Keeps rt {Q = IsHttps} request limits
          (Returns-imp (authorize_or_refuse-target request.context request.spec request.target)
            λ r e. ap (λ target. target.scheme) e ∙ s)
          (IsHttps-hop (λ name t sent. sent))).state
        t

-- An execution runs only in an established sandbox.
pub execute-established :
    (rt : Runtime) (request : HttpScanRequest) (limits : HttpLimits) (t : Traffic)
    → rt.established ≡ false
    → execute rt request limits t ≡ (err sandbox_not_established, t)
unfolding execute ◌>>=◌
execute-established rt request limits t h = ground arith
