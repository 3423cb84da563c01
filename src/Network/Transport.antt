-- ===== src/Network/Transport.antt =====
-- backend/src/scanning/sandbox/http_transport.py and require_established of sandbox/base.py: one
-- logical exchange inside an established sandbox. The state is what went out: the requests that
-- the sandbox ran and the names that the resolver was asked for, the last one first.
pub mod Hops
use sentinel_gpt.Common.{
  ℕ, suc, zero, ◌+◌, ◌-◌, Bool, true, false, not, ◌&&◌, ◌||◌, Option, none, some, List, [], ◌∷◌,
  ◌++◌, map, contains, ◌==◌, nat_eq, leb, ltb, if◌then◌else◌, length, keep_if,
}
use sentinel_gpt.Common.Text.{Text, codes, text_eq, starts_with, strip}
use sentinel_gpt.Errors.{
  Error, Result, ok, err, value_error, egress_denied, sandbox_not_established,
  redirect_destination_blocked, controlled_transport,
}
use sentinel_gpt.Action.{Action, pure, raise, lift, asks, modify, ◌>>=◌, ◌>>◌}
use sentinel_gpt.Network.IpAddress.{IpAddress, v4, v6}
use sentinel_gpt.Network.Binding.{
  ValidatedTargetBinding, ScanNetworkContext, authorize, context_of, with_pinned, is_some,
}
use sentinel_gpt.Network.Resolution.{ResolutionOutcome}
use sentinel_gpt.Network.Contract.{
  ConnectionTarget, Headers, HttpLimits, HttpRequestSpec, HttpScanRequest, HttpResponseData,
  check_cancelled, default_port, for_context, check_spec,
}
use sentinel_gpt.Network.Redirects.{Parsers, is_relative, evaluate}
use sentinel_gpt.Targets.Urls.{SplitResult, or_text, show}

abbrev pub redirect_statuses : List ℕ
redirect_statuses = 301 ∷ 302 ∷ 303 ∷ 307 ∷ 308 ∷ []

abbrev hop_by_hop_headers : List Text
hop_by_hop_headers =
    codes "connection"
    ∷ codes "keep-alive"
    ∷ codes "transfer-encoding"
    ∷ codes "upgrade"
    ∷ codes "proxy-authorization"
    ∷ []

-- The JSON document that the workload reads, but for the texts fixed at construction
pub record WorkloadSpec : Type 0 where
  pub url : Text
  pub method : Text
  pub headers : Headers
  pub body : Option (List ℕ)
  pub connect_timeout_ms : ℕ
  pub read_timeout_ms : ℕ
  pub max_response_bytes : ℕ
  pub sni_hostname : Text

-- The success payload, decoded
pub record Payload : Type 0 where
  pub status : ℕ
  pub headers : Headers
  pub body : List ℕ
  pub elapsed_ms : ℕ
  pub truncated : Bool

pub record Traffic : Type 0 where
  pub sent : List HttpScanRequest
  pub lookups : List Text

-- What the transport is given. `run` is `sandbox.run`, of the requests run before and of the
-- spec, and returns the lines of its standard output; `spec_size` is the length of the encoded
-- spec; `load_payload` and `load_failure` decode the JSON behind a marker, and may raise;
-- `cancelled` is the cancellation flag as it stands after so many requests.
pub record Runtime : Type 0 where
  pub parsers : Parsers
  pub established : Bool
  pub show_ip : IpAddress → Text
  pub spec_size : WorkloadSpec → ℕ
  pub run : List HttpScanRequest → WorkloadSpec → Result (List Text)
  pub load_payload : Text → Result Payload
  pub load_failure : Text → Result Error
  pub cancelled : ℕ → Bool
  pub lookup : Traffic → Text → Result ResolutionOutcome

unfoldable pub lowest : ℕ → ℕ → ℕ
lowest a b = if leb a b then a else b

-- `prefix` is not empty, and `line` starts with it.
after : Text → Text → Text
after [] line = line
after (c ∷ prefix) [] = []
after (c ∷ prefix) (d ∷ line) = after prefix line

module _ (rt : Runtime) where
  unfoldable pub resolve_all : Text → Action Traffic ResolutionOutcome
  resolve_all name t = (rt.lookup t name, record t { lookups = name ∷ t.lookups })

  unfoldable pub header : Headers → Text → Option Text
  header [] name = none
  header ((key, value) ∷ headers) name =
      let rest = header headers name in
      if rt.parsers.unicode.lower key == rt.parsers.unicode.lower name then some value else rest

  unfoldable pub strip_hop_headers : Headers → Headers
  strip_hop_headers headers =
      keep_if (λ (key, value). not (contains hop_by_hop_headers (rt.parsers.unicode.lower key)))
        headers

  unfoldable pub pinned_host : IpAddress → Text
  pinned_host (v4 n) = rt.show_ip (v4 n)
  pinned_host (v6 n) = codes "[" ++ (rt.show_ip (v6 n) ++ codes "]")

  unfoldable pub pinned_url : ConnectionTarget → Text → Text
  unfolding pinned_host default_port
  pinned_url target path =
      let suffix = if starts_with path (codes "/") then path else codes "/" ++ path in
      let port_part =
        if target.port == default_port target.scheme then [] else codes ":" ++ show target.port in
      target.scheme ++ (codes "://" ++ (pinned_host target.address ++ (port_part ++ suffix)))

  unfoldable pub workload_spec : HttpScanRequest → HttpLimits → WorkloadSpec
  unfolding pinned_url
  workload_spec request limits = record {
    url = pinned_url request.target request.spec.path;
    method = rt.parsers.unicode.upper request.spec.method;
    headers = request.spec.headers ++ ((codes "Host", request.target.hostname) ∷ []);
    body = request.spec.body;
    connect_timeout_ms = lowest limits.connect_timeout_ms 30000;
    read_timeout_ms = lowest limits.read_timeout_ms 30000;
    max_response_bytes = limits.max_response_bytes;
    sni_hostname = request.target.hostname;
  }

  response_of : ConnectionTarget → Payload → HttpResponseData
  response_of target payload = record {
    status = payload.status;
    headers = payload.headers;
    body = payload.body;
    elapsed_ms = payload.elapsed_ms;
    final_target = target;
    via_redirects = [];
    truncated = payload.truncated;
  }

  loaded : ConnectionTarget → Result Payload → Result HttpResponseData
  unfolding response_of
  loaded target (ok payload) = ok (response_of target payload)
  loaded target (err e) = err e

  reported : Result Error → Result HttpResponseData
  reported (ok kind) = err kind
  reported (err e) = err e

  unfoldable pub parse_exec_result : ConnectionTarget → List Text → Result HttpResponseData
  unfolding after loaded reported
  parse_exec_result target [] = err controlled_transport
  parse_exec_result target (line ∷ lines) =
      let rest = parse_exec_result target lines in
      if starts_with line (codes "SGPT/1 ")
      then loaded target (rt.load_payload (after (codes "SGPT/1 ") line))
      else if starts_with line (codes "SGPTERR/1 ")
      then reported (rt.load_failure (after (codes "SGPTERR/1 ") line))
      else rest

  -- `self._sandbox.run(...)`: the request is recorded, whatever comes back.
  run_in_sandbox : HttpScanRequest → HttpLimits → Action Traffic (List Text)
  run_in_sandbox request limits t =
      (rt.run t.sent (workload_spec request limits), record t { sent = request ∷ t.sent })

  pub exchange : HttpScanRequest → HttpLimits → Action Traffic HttpResponseData
  exchange request limits =
      if ltb 65536 (rt.spec_size (workload_spec request limits))
      then raise value_error
      else do lines ← run_in_sandbox request limits; lift (parse_exec_result request.target lines)

rebound : Result ValidatedTargetBinding → Result ScanNetworkContext
rebound (ok binding) = ok (context_of binding)
rebound (err e) = err e

pinned_to : ValidatedTargetBinding → List IpAddress → Result ScanNetworkContext
unfolding rebound
pinned_to binding [] = err egress_denied
pinned_to binding (address ∷ _) = rebound (with_pinned binding address)

-- `_pin_context`: the first address of the binding.
unfoldable pub pin_context : ScanNetworkContext → Result ScanNetworkContext
unfolding pinned_to
pin_context context = pinned_to context.binding context.binding.addresses

unfoldable pub authorize_or_refuse :
    ScanNetworkContext → HttpRequestSpec → ConnectionTarget → Result HttpScanRequest
unfolding authorize
authorize_or_refuse context spec target =
    if not (is_some context.binding.pinned_address)
    then err egress_denied
    else if not (authorize context.egress target.address)
    then err egress_denied
    else ok (record { context = context; spec = spec; target = target })
