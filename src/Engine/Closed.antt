-- ===== src/Engine/Closed.antt =====
-- A property of reports that every way to build one keeps holds of what the engine returns.
use sentinel_gpt.Common.{
  not, ◌==◌, Bool, true, false, Option, none, some, List, [], ◌∷◌, if◌then◌else◌,
}
use sentinel_gpt.Common.Text.{Text, codes, text_eq, strip}
use sentinel_gpt.Errors.{Returns}
use sentinel_gpt.Action.Outcome.{Yields-bind, Yields-pure, Yields-refuse_if}
use sentinel_gpt.Network.Binding.{ScanNetworkContext}
use sentinel_gpt.Network.Contract.{HttpResponseData, Headers}
use sentinel_gpt.Sandbox.Services.{OriginSpec, EngineServices}
use sentinel_gpt.Engine.Findings.{
  Tables, Severity, Confidence, create_observation, create_finding, Report, noted, nothing, both,
}
use sentinel_gpt.Engine.Headers.{
  server_header, SecurityHeader, paired, absent, sniffing, assess_header, assess_each, assess_plain,
  assess_headers, assess_transport, assess_server_each, assess_server_info, header_value,
  security_headers,
}
use sentinel_gpt.Engine.Cookies.{
  Cookie, cookie_observation, cookie_finding, missing, samesite_gaps, assess_read, assess_cookies,
}
use sentinel_gpt.Engine.Analysis.{
  HttpClient, Exchange, answered, failed, HttpAnalysisResult, assess, analysed_result,
  unreachable_result, conclude, run_engine,
}

-- `P` holds of each piece that the assessments are made of, and of two reports put together.
pub record IsClosed (k : Tables) (P : Report → Type 0) : Type 0 where
  pub empty : P nothing
  pub note : (c t d e l : Text) → P (noted (create_observation k c t d e l))
  pub pair :
      (c t d e l c' t' d' : Text) (s : Severity) (f : Confidence) (e' l' r' : Text)
      → P (record {
        observations = create_observation k c t d e l ∷ [];
        findings =
            create_finding k c' t' d' s f e' l' r' ((create_observation k c t d e l).id ∷ []) ∷ [];
      })
  pub join : (r r' : Report) → P r → P r' → P (both r r')

module _ (k : Tables) (P : Report → Type 0) (closed : IsClosed k P) where
  P-if : (b : Bool) (r r' : Report) → P r → P r' → P (if b then r else r')
  P-if true r r' h h' = h
  P-if false r r' h h' = h'

  P-transport :
      (hostname : Text) (origin : OriginSpec) (response : HttpResponseData)
      → P (assess_transport k hostname origin response)
  unfolding assess_transport
  P-transport hostname origin response = closed.note _ _ _ _ _

  module _ (location : Text) where
    P-absent : (h : SecurityHeader) → P (absent k location h)
    unfolding absent paired
    P-absent h = closed.pair _ _ _ _ _ _ _ _ _ _ _ _ _

    P-sniffing : (h : SecurityHeader) (value : Text) → P (sniffing k location h value)
    unfolding sniffing paired
    P-sniffing h value =
        P-if (not (k.unicode.lower (strip k.unicode.is_space value) == codes "nosniff")) _ _
          (closed.pair _ _ _ _ _ _ _ _ _ _ _ _ _) (closed.note _ _ _ _ _)

    P-header : (h : SecurityHeader) (o : Option Text) → P (assess_header k location h o)
    unfolding assess_header
    P-header h none = P-absent h
    P-header h (some value) =
        P-if (h.lowered == codes "x-content-type-options") _ _ (P-sniffing h value)
          (closed.note _ _ _ _ _)

    P-each : (headers : Headers) (hs : List SecurityHeader) → P (assess_each k location headers hs)
    unfolding assess_each
    P-each headers [] = closed.empty
    P-each headers (h ∷ hs) =
        closed.join _ _ (P-header h (header_value k h.lowered headers)) (P-each headers hs)

    P-plain : (plain : Bool) (o : Option Text) → P (assess_plain k location plain o)
    unfolding assess_plain
    P-plain true (some hsts) = closed.note _ _ _ _ _
    P-plain true none = closed.empty
    P-plain false o = closed.empty

    P-headers : (response : HttpResponseData) → P (assess_headers k location response)
    unfolding assess_headers
    P-headers response = closed.join _ _ (P-each response.headers security_headers) (P-plain _ _)

    P-missing :
        (attribute title description recommendation : Text) (names : List Text)
        → P (missing k location attribute title description recommendation names)
    unfolding missing cookie_observation cookie_finding
    P-missing attribute title description recommendation [] = closed.empty
    P-missing attribute title description recommendation (n ∷ names) =
        closed.pair _ _ _ _ _ _ _ _ _ _ _ _ _

    P-samesite : (issues : List Text) → P (samesite_gaps k location issues)
    unfolding samesite_gaps
    P-samesite [] = closed.empty
    P-samesite (i ∷ issues) = closed.pair _ _ _ _ _ _ _ _ _ _ _ _ _

    P-cookies : (cookies : List Cookie) → P (assess_read k location cookies)
    unfolding assess_read
    P-cookies [] = closed.empty
    P-cookies (c ∷ cookies) = closed.join _ _ (closed.note _ _ _ _ _) (
        closed.join _ _ (P-missing _ _ _ _ _)
          (closed.join _ _ (P-missing _ _ _ _ _) (P-samesite _)))

  P-server-header : (key : Text) (o : Option Text) → P (server_header k key o)
  unfolding server_header
  P-server-header key none = closed.empty
  P-server-header key (some []) = closed.empty
  P-server-header key (some (c ∷ t)) = closed.note _ _ _ _ _

  P-server : (headers : Headers) (keys : List Text) → P (assess_server_each k headers keys)
  unfolding assess_server_each
  P-server headers [] = closed.empty
  P-server headers (key ∷ keys) =
      closed.join _ _ (P-server-header key (header_value k key headers)) (P-server headers keys)

  P-server-info : (response : HttpResponseData) → P (assess_server_info k response)
  unfolding assess_server_info
  P-server-info response = P-server response.headers _

  P-assess :
      (context : ScanNetworkContext) (origin : OriginSpec) (response : HttpResponseData)
      → P (assess k context origin response)
  unfolding assess assess_cookies
  P-assess context origin response = closed.join _ _ (P-transport _ origin response) (
      closed.join _ _ (P-headers _ response)
        (closed.join _ _ (P-cookies _ _) (P-server-info response)))

  abbrev report_of : HttpAnalysisResult → Report
  report_of r = record { observations = r.observations; findings = r.findings }

  P-conclude :
      (context : ScanNetworkContext) (origin : OriginSpec) (exchange : Exchange)
      → P (report_of (conclude k context origin exchange))
  unfolding analysed_result unreachable_result
  P-conclude context origin (answered response) = P-assess context origin response
  P-conclude context origin (failed kind detail) = closed.pair _ _ _ _ _ _ _ _ _ _ _ _ _

  pub run_engine-IsClosed :
      {S : Type 0} (client : HttpClient S) (context : ScanNetworkContext)
      (services : EngineServices) (s : S)
      → Returns (λ r. P (report_of r)) (run_engine k client context services s).0
  unfolding run_engine
  run_engine-IsClosed client context services s =
      (Yields-refuse_if {Q = λ r _. P (report_of r)} s _ _ _ λ _. Yields-bind s _ _ λ request _.
        Yields-bind s _ _ λ _ _.
          Yields-bind s _ _
            λ exchange _. Yields-pure _ _ (P-conclude context services.origin exchange)).outcome
