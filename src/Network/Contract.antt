-- ===== src/Network/Contract.antt =====
-- backend/src/domain/scanning/http_contract.py: the vocabulary of one HTTP scan attempt. Durations
-- are natural numbers of milliseconds.
pub mod Laws
use sentinel_gpt.Common.{
  ℕ, suc, zero, ◌-◌, Bool, true, false, not, ◌&&◌, ◌||◌, Option, none, some, List, [], ◌∷◌, map,
  contains, any_of, ◌==◌, nat_eq, leb, if◌then◌else◌,
}
use sentinel_gpt.Common.Text.{Text, codes, text_eq, starts_with, Unicode}
use sentinel_gpt.Errors.{
  Error, Result, ok, err, raise_if, value_error, egress_denied, scan_cancelled,
  redirect_destination_blocked, ◌>>=◌, ◌>>◌,
}
use sentinel_gpt.Network.IpAddress.{IpAddress}
use sentinel_gpt.Network.Binding.{ScanNetworkContext, authorize_destination}

pub data TransportFailureKind : Type 0 where
  connect_timeout read_timeout tls_error protocol_error response_too_large cancelled :
      TransportFailureKind

abbrev pub allowed_http_schemes : List Text
allowed_http_schemes = codes "http" ∷ codes "https" ∷ []

-- `_DEFAULT_PORTS[scheme]` for a scheme that is one of the two
unfoldable pub default_port : Text → ℕ
unfolding text_eq
default_port scheme = if scheme == codes "http" then 80 else 443

abbrev pub transport_owned_headers : List Text
transport_owned_headers =
    codes "host" ∷ codes "content-length" ∷ codes "connection" ∷ codes "transfer-encoding" ∷ []

pub record HttpLimits : Type 0 where
  pub connect_timeout_ms : ℕ
  pub read_timeout_ms : ℕ
  pub max_response_bytes : ℕ
  pub max_redirects : ℕ
  pub max_requests : ℕ

abbrev pub default_limits : HttpLimits
default_limits = record {
  connect_timeout_ms = 5000;
  read_timeout_ms = 15000;
  max_response_bytes = 2000000;
  max_redirects = 10;
  max_requests = 4;
}

-- `HttpLimits.__post_init__`
unfoldable pub check_limits : HttpLimits → Result HttpLimits
unfolding nat_eq
check_limits l = do
  raise_if
      (any_of (λ n. n == 0)
        (l.connect_timeout_ms ∷ l.read_timeout_ms ∷ l.max_response_bytes ∷ l.max_redirects
          ∷ l.max_requests ∷ []))
      value_error
  ok l

-- `ScanCancellation.check` on the value of the flag
unfoldable pub check_cancelled : Bool → Result (Unit {0})
check_cancelled flagged = if flagged then err scan_cancelled else ok tt

pub record ConnectionTarget : Type 0 where
  pub address : IpAddress
  pub port : ℕ
  pub scheme : Text
  pub hostname : Text

port_or : Option ℕ → ℕ → ℕ
port_or none d = d
port_or (some p) d = p

abbrev pinned_or_denied : Option IpAddress → Result IpAddress
pinned_or_denied none = err egress_denied
pinned_or_denied (some pinned) = ok pinned

-- Header names of a request
abbrev pub Headers : Type 0
Headers = List (Text × Text)

abbrev header_name : Text × Text → Text
header_name (name, _) = name

pub record HttpRequestSpec : Type 0 where
  pub method : Text
  pub path : Text
  pub headers : Headers
  pub body : Option (List ℕ)

pub record HttpScanRequest : Type 0 where
  pub context : ScanNetworkContext
  pub spec : HttpRequestSpec
  pub target : ConnectionTarget

pub record HttpResponseData : Type 0 where
  pub status : ℕ
  pub headers : Headers
  pub body : List ℕ
  pub elapsed_ms : ℕ
  pub final_target : ConnectionTarget
  pub via_redirects : List Text
  pub truncated : Bool

module _ (u : Unicode) where
  unfoldable pub for_context : ScanNetworkContext → Text → Option ℕ → Result ConnectionTarget
  unfolding port_or
  for_context context scheme port = do
    let normalized_scheme = u.lower scheme
    raise_if (not (contains allowed_http_schemes normalized_scheme)) value_error
    pinned ← pinned_or_denied context.binding.pinned_address
    authorize_destination context pinned
    ok (record {
      address = pinned;
      port = port_or port (default_port normalized_scheme);
      scheme = normalized_scheme;
      hostname = context.binding.hostname;
    })

  -- `HttpRequestSpec.__post_init__`
  unfoldable pub check_spec : HttpRequestSpec → Result HttpRequestSpec
  check_spec spec = do
    raise_if
        (not (
          contains (codes "GET" ∷ codes "HEAD" ∷ codes "POST" ∷ codes "OPTIONS" ∷ [])
            (u.upper spec.method)))
        value_error
    raise_if (not (starts_with spec.path (codes "/"))) value_error
    raise_if (any_of (λ h. contains transport_owned_headers (u.lower (header_name h))) spec.headers)
        value_error
    ok spec

  -- `HttpScanRequest.authorize`
  unfoldable pub authorize_request :
      ScanNetworkContext → HttpRequestSpec → Text → Option ℕ → Result HttpScanRequest
  authorize_request context spec scheme port = do
    target ← for_context context scheme port
    ok (record { context = context; spec = spec; target = target })

-- `RedirectChain`: the hops left and the locations seen.
pub record RedirectChain : Type 0 where
  pub remaining : ℕ
  pub seen : List Text

-- `RedirectChain.follow` up to the call of `evaluate`, which it makes if this returns.
unfoldable pub follow : RedirectChain → Text → Result (Unit {0}) × RedirectChain
follow chain location =
    let marked : RedirectChain = record chain { seen = location ∷ chain.seen } in
    if contains chain.seen location
    then (err redirect_destination_blocked, chain)
    else if leb chain.remaining 0
    then (err redirect_destination_blocked, marked)
    else (ok tt, record marked { remaining = chain.remaining - 1 })
