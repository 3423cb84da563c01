-- ===== src/Network/Transport/Hops.antt =====
-- backend/src/scanning/sandbox/http_transport.py: `_next_hop` and the loop of `execute`.
pub mod Rules
pub mod Authorized
pub mod Limits
pub mod Budget
pub mod Locations
use sentinel_gpt.Common.{
  ℕ, suc, zero, ◌+◌, ◌-◌, Bool, true, false, not, ◌&&◌, ◌||◌, Option, none, some, List, [], ◌∷◌,
  ◌++◌, contains, ◌==◌, nat_eq, leb, if◌then◌else◌, length,
}
use sentinel_gpt.Common.Text.{Text, codes, text_eq, strip}
use sentinel_gpt.Errors.{
  Error, Result, ok, err, sandbox_not_established, redirect_destination_blocked,
  controlled_transport,
}
use sentinel_gpt.Action.{Action, pure, raise, lift, asks, refuse_if, ◌>>=◌, ◌>>◌}
use sentinel_gpt.Network.Binding.{ScanNetworkContext}
use sentinel_gpt.Network.Contract.{
  ConnectionTarget, HttpLimits, HttpRequestSpec, HttpScanRequest, HttpResponseData,
  allowed_http_schemes, check_cancelled, for_context, check_spec,
}
use sentinel_gpt.Network.Redirects.{is_relative, evaluate}
use sentinel_gpt.Network.Transport.{
  Runtime, Traffic, redirect_statuses, resolve_all, header, strip_hop_headers, exchange,
  pin_context, authorize_or_refuse,
}
use sentinel_gpt.Targets.Urls.{SplitResult, or_text}

-- The port of an absolute location; one that is not a port blocks the hop.
unfoldable pub port_or_blocked : Result (Option ℕ) → Result (Option ℕ)
port_or_blocked (ok port) = ok port
port_or_blocked (err e) = err redirect_destination_blocked

-- What a turn of the loop comes to, up to the guards on the location: the response to return, or
-- the location to follow.
pub data Turn : Type 0 where
  done : HttpResponseData → Turn
  moved : Text → Turn

module _ (rt : Runtime) where
  -- the spec of the next request, built again from the current one
  unfoldable pub hop_spec : HttpRequestSpec → Text → HttpRequestSpec
  hop_spec spec path = record {
    method = spec.method;
    path = path;
    headers = strip_hop_headers rt spec.headers;
    body = none;
  }

  relative_hop : HttpScanRequest → Text → Action Traffic HttpScanRequest
  unfolding hop_spec
  relative_hop current location = do
    spec ← lift (
        check_spec rt.parsers.unicode
          (hop_spec current.spec (rt.parsers.urls.urljoin current.spec.path location)))
    lift (authorize_or_refuse current.context spec current.target)

  unfoldable pub downgrades : HttpScanRequest → Text → Bool
  unfolding text_eq
  downgrades current scheme = current.target.scheme == codes "https" && scheme == codes "http"

  absolute_hop : HttpScanRequest → Text → SplitResult → Action Traffic HttpScanRequest
  absolute_hop current location parts = do
    let scheme = rt.parsers.unicode.lower parts.scheme
    refuse_if (not (contains allowed_http_schemes scheme)) redirect_destination_blocked
    refuse_if (downgrades current scheme) redirect_destination_blocked
    port ← lift (port_or_blocked parts.port)
    next_context ← evaluate rt.parsers (resolve_all rt) current.context location
    pinned_context ← lift (pin_context next_context)
    target ← lift (for_context rt.parsers.unicode pinned_context scheme port)
    spec ←
        lift
          (check_spec rt.parsers.unicode (hop_spec current.spec (or_text parts.path (codes "/"))))
    lift (authorize_or_refuse pinned_context spec target)

  pub next_hop : HttpScanRequest → Text → Action Traffic HttpScanRequest
  next_hop current location = do
    parts ← lift (rt.parsers.urls.urlsplit location)
    if is_relative parts then relative_hop current location else absolute_hop current location parts

  -- The response that leaves the loop
  unfoldable pub finished : HttpScanRequest → List Text → HttpResponseData → HttpResponseData
  finished current via response = record response {
    final_target = current.target;
    via_redirects = via;
  }

  -- `via` also stands for `seen_locations`, which has the same members.
  unfoldable pub turn_on :
      HttpScanRequest → List Text → HttpResponseData → Option Text → Result Turn
  unfolding finished
  turn_on current via response none = ok (done (finished current via response))
  turn_on current via response (some raw) =
      let location = strip rt.parsers.unicode.is_space raw in
      if not (contains redirect_statuses response.status)
      then ok (done (finished current via response))
      else if response.truncated
      then err controlled_transport
      else if contains via location
      then err redirect_destination_blocked
      else ok (moved location)

  unfoldable pub turn : HttpScanRequest → HttpLimits → List Text → Action Traffic Turn
  unfolding turn_on
  turn current limits via = do
    flagged ← asks (λ t. rt.cancelled (length t.sent))
    lift (check_cancelled flagged)
    response ← exchange rt current limits
    lift (turn_on current via response (header rt response.headers (codes "location")))

  -- A location when no hop is left
  stop_at : Turn → Action Traffic HttpResponseData
  stop_at (done response) = pure response
  stop_at (moved location) = raise redirect_destination_blocked

  follow_turn :
      HttpScanRequest
      → List Text
      → (HttpScanRequest → List Text → Action Traffic HttpResponseData)
      → Turn
      → Action Traffic HttpResponseData
  follow_turn current via loop (done response) = pure response
  follow_turn current via loop (moved location) = do
    next ← next_hop current location
    loop next (via ++ (location ∷ []))

  -- The loop, structural on `remaining_hops`
  pub hop_loop : ℕ → HttpScanRequest → HttpLimits → List Text → Action Traffic HttpResponseData
  hop_loop zero current limits via = do next ← turn current limits via; stop_at next
  hop_loop (suc remaining) current limits via = do
    next ← turn current limits via
    follow_turn current via (λ request passed. hop_loop remaining request limits passed) next

  pub execute : HttpScanRequest → HttpLimits → Action Traffic HttpResponseData
  unfolding hop_loop
  execute request limits = do
    refuse_if (not rt.established) sandbox_not_established
    current ← lift (authorize_or_refuse request.context request.spec request.target)
    hop_loop limits.max_redirects current limits []
