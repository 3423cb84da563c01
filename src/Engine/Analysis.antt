-- ===== src/Engine/Analysis.antt =====
-- backend/src/scanning/engines/http_analysis.py: the engine. Its client is given, as an action on
-- the state `S` of the world: a response, a controlled failure of the transport, or another error.
use sentinel_gpt.Common.{
  ℕ, Bool, false, not, Option, none, some, List, [], ◌∷◌, ◌++◌, length, if◌then◌else◌, leb, nat_eq,
}
use sentinel_gpt.Common.Text.{Text, codes, text_eq}
use sentinel_gpt.Errors.{Result, ok, err, egress_denied, request_budget_exceeded}
use sentinel_gpt.Action.{Action, pure, lift, refuse_if, ◌>>=◌, ◌>>◌}
use sentinel_gpt.Network.Binding.{ScanNetworkContext, authorize}
use sentinel_gpt.Network.Contract.{
  TransportFailureKind, connect_timeout, read_timeout, tls_error, protocol_error,
  response_too_large, cancelled, HttpLimits, HttpScanRequest, HttpResponseData, for_context,
  check_spec, check_cancelled,
}
use sentinel_gpt.Sandbox.Services.{OriginSpec, EngineServices}
use sentinel_gpt.Engine.Findings.{
  Tables, Observation, Finding, info, sure, create_observation, create_finding, bound_evidence,
  Report, both, or_empty,
}
use sentinel_gpt.Engine.Headers.{
  category_transport, assess_transport, assess_headers, assess_server_info, first_header,
}
use sentinel_gpt.Engine.Cookies.{assess_cookies}

pub data Exchange : Type 0 where
  answered : HttpResponseData → Exchange
  failed : TransportFailureKind → Text → Exchange

abbrev pub HttpClient : Type 0 → Type 0
HttpClient S = HttpScanRequest → HttpLimits → Bool → Action S Exchange

abbrev kind_value : TransportFailureKind → Text
kind_value connect_timeout = codes "connect_timeout"
kind_value read_timeout = codes "read_timeout"
kind_value tls_error = codes "tls_error"
kind_value protocol_error = codes "protocol_error"
kind_value response_too_large = codes "response_too_large"
kind_value cancelled = codes "cancelled"

pub record HttpAnalysisResult : Type 0 where
  pub target_hostname : Text
  pub request_scheme : Text
  pub request_port : ℕ
  pub request_path : Text
  pub status : Option ℕ
  pub redirect_count : ℕ
  pub truncated : Bool
  pub content_type : Text
  pub response_bytes : Option ℕ
  pub observations : List Observation
  pub findings : List Finding
  pub error_kind : Option TransportFailureKind
  pub error_detail : Text

abbrev port_or_zero : Option ℕ → ℕ
port_or_zero none = 0
port_or_zero (some p) = p

module _ (k : Tables) where
  -- `f"{origin.scheme}://{hostname}{origin.path}"`
  abbrev location_of : ScanNetworkContext → OriginSpec → Text
  location_of context origin =
      origin.scheme ++ (codes "://" ++ (context.binding.hostname ++ origin.path))

  unfoldable pub build_request : ScanNetworkContext → OriginSpec → Result HttpScanRequest
  unfolding for_context check_spec authorize
  build_request context origin =
      elim (check_spec k.unicode
        (record { method = codes "GET"; path = origin.path; headers = []; body = none })) [
          | err e ↦ err e
          | ok spec ↦ elim (for_context k.unicode context origin.scheme origin.port) [
            | err e ↦ err e
            | ok target ↦
                if not (authorize context.egress target.address)
                then err egress_denied
                else ok (record { context = context; spec = spec; target = target })
          ]
        ]

  unfoldable pub unreachable_result :
      ScanNetworkContext → OriginSpec → TransportFailureKind → Text → HttpAnalysisResult
  unfolding bound_evidence
  unreachable_result context origin kind detail =
      let o =
        create_observation k category_transport
          (codes "Target unreachable through validated transport")
          (codes "The attempt ended in a controlled transport failure ("
            ++ (kind_value kind ++ codes "); no security analysis was possible."))
          (kind_value kind) (location_of context origin) in
      let f =
        create_finding k category_transport (codes "No HTTP response obtained")
          (codes
            "The validated transport could not complete the exchange; the destination may be down, filtered, or misconfigured.")
          info sure (kind_value kind) (location_of context origin)
          (codes "Verify availability out-of-band; retry later.") (o.id ∷ []) in
      record {
        target_hostname = context.binding.hostname;
        request_scheme = k.unicode.lower origin.scheme;
        request_port = port_or_zero origin.port;
        request_path = origin.path;
        status = none;
        redirect_count = 0;
        truncated = false;
        content_type = [];
        response_bytes = none;
        observations = o ∷ [];
        findings = f ∷ [];
        error_kind = some kind;
        error_detail = bound_evidence k detail 256;
      }

  -- The four assessments, in their order
  unfoldable pub assess : ScanNetworkContext → OriginSpec → HttpResponseData → Report
  assess context origin response =
      both (assess_transport k context.binding.hostname origin response) (
        both (assess_headers k (location_of context origin) response) (
          both (assess_cookies k (location_of context origin) response)
            (assess_server_info k response)))

  unfoldable pub analysed_result :
      ScanNetworkContext → OriginSpec → HttpResponseData → HttpAnalysisResult
  unfolding assess first_header bound_evidence
  analysed_result context origin response =
      let report = assess context origin response in
      record {
        target_hostname = context.binding.hostname;
        request_scheme = k.unicode.lower origin.scheme;
        request_port = response.final_target.port;
        request_path = origin.path;
        status = some response.status;
        redirect_count = length response.via_redirects;
        truncated = response.truncated;
        content_type =
            bound_evidence k (or_empty (first_header k (codes "content-type") response.headers))
              128;
        response_bytes = some (length response.body);
        observations = report.observations;
        findings = report.findings;
        error_kind = none;
        error_detail = [];
      }

  abbrev pub conclude : ScanNetworkContext → OriginSpec → Exchange → HttpAnalysisResult
  conclude context origin (answered response) = analysed_result context origin response
  conclude context origin (failed kind detail) = unreachable_result context origin kind detail

  module _ {S : Type 0} (client : HttpClient S) where
    unfoldable pub run_engine : ScanNetworkContext → EngineServices → Action S HttpAnalysisResult
    unfolding build_request analysed_result unreachable_result check_cancelled
    run_engine context services = do
      refuse_if (leb services.limits.max_requests 0) request_budget_exceeded
      request ← lift (build_request context services.origin)
      lift (check_cancelled services.is_cancelled)
      exchange ← client request services.limits services.is_cancelled
      pure (conclude context services.origin exchange)
