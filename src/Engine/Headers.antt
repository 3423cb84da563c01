-- ===== src/Engine/Headers.antt =====
-- backend/src/scanning/engines/http_analysis.py: the assessments of the transport and of the headers.
use sentinel_gpt.Common.{
  Bool, true, false, not, ◌==◌, nat_eq, option_eq, Option, none, some, List, [], ◌∷◌, ◌++◌, take,
  length, if◌then◌else◌, ◌&&◌, contains,
}
use sentinel_gpt.Common.Text.{Text, codes, text_eq, strip}
use sentinel_gpt.Targets.Urls.{show}
use sentinel_gpt.Network.Contract.{Headers, HttpResponseData}
use sentinel_gpt.Sandbox.Services.{OriginSpec}
use sentinel_gpt.Engine.Findings.{
  Tables, Observation, Severity, info, low, sure, create_observation, create_finding, Report, noted,
  nothing, both,
}

abbrev pub category_headers : Text
category_headers = codes "http.security-headers"

abbrev pub category_transport : Text
category_transport = codes "http.transport"

abbrev pub category_server : Text
category_server = codes "http.server-info"

-- A header that is looked for: its name in small letters, its name as shown, and what it is for
pub record SecurityHeader : Type 0 where
  pub lowered : Text
  pub display : Text
  pub purpose : Text

abbrev sought : Text → Text → Text → SecurityHeader
sought lowered display purpose = record { lowered = lowered; display = display; purpose = purpose }

abbrev pub security_headers : List SecurityHeader
security_headers =
    sought (codes "content-security-policy") (codes "Content-Security-Policy")
      (codes "limits script/style sources")
    ∷ sought (codes "strict-transport-security") (codes "Strict-Transport-Security")
        (codes "forces HTTPS for future visits")
    ∷ sought (codes "x-content-type-options") (codes "X-Content-Type-Options")
        (codes "disables MIME sniffing when 'nosniff'")
    ∷ sought (codes "x-frame-options") (codes "X-Frame-Options")
        (codes "controls framing/clickjacking posture")
    ∷ sought (codes "referrer-policy") (codes "Referrer-Policy")
        (codes "restricts referrer leakage")
    ∷ sought (codes "permissions-policy") (codes "Permissions-Policy")
        (codes "restricts powerful browser features")
    ∷ []

abbrev low_headers : List Text
low_headers =
    codes "content-security-policy"
    ∷ codes "strict-transport-security"
    ∷ codes "x-content-type-options"
    ∷ codes "x-frame-options"
    ∷ []

abbrev pub interesting : List Text
interesting = codes "server" ∷ codes "x-powered-by" ∷ codes "x-generator" ∷ codes "x-framework" ∷ []

abbrev pub is_set : Option Text → Bool
is_set none = false
is_set (some t) = true

module _ (k : Tables) where
  -- `{k.lower(): v for k, v in headers}[name]`: the last header of the name
  unfoldable pub header_value : Text → Headers → Option Text
  unfolding text_eq
  header_value name [] = none
  header_value name ((key, value) ∷ headers) =
      let rest = header_value name headers in
      if not (is_set rest) && k.unicode.lower key == name then some value else rest

  -- `_header`: the first header of the name
  unfoldable pub first_header : Text → Headers → Option Text
  unfolding text_eq
  first_header name [] = none
  first_header name ((key, value) ∷ headers) =
      if k.unicode.lower key == k.unicode.lower name then some value else first_header name headers

  unfoldable pub assess_transport : Text → OriginSpec → HttpResponseData → Report
  unfolding text_eq show
  assess_transport hostname origin response =
      let scheme = k.unicode.lower origin.scheme in
      noted (
        create_observation k category_transport (codes "Transport posture")
          (codes "Exchange completed over "
            ++ (k.unicode.upper scheme
                ++ (codes " with certificate verification "
                    ++ ((if scheme == codes "https"
                          then codes "enforced"
                          else codes "not applicable")
                        ++ (codes "; "
                            ++ (show (length response.via_redirects)
                                ++ (codes " validated redirect hop(s); body "
                                    ++ (show (length response.body)
                                        ++ (codes " bytes"
                                            ++ ((if response.truncated
                                                  then codes " (clamped)"
                                                  else [])
                                                ++ codes "."))))))))))
          (k.dumps (record {
            scheme = scheme;
            status = response.status;
            redirects = take 10 response.via_redirects;
            truncated = response.truncated;
            bytes = length response.body;
          }))
          (scheme ++ (codes "://" ++ (hostname ++ origin.path))))

  module _ (location : Text) where
    -- An observation, and a finding that rests on it
    unfoldable pub paired : Observation → Text → Text → Severity → Text → Text → Report
    paired o title description severity evidence recommendation = record {
      observations = o ∷ [];
      findings =
          create_finding k category_headers title description severity sure evidence location
            recommendation (o.id ∷ [])
          ∷ [];
    }

    unfoldable pub absent : SecurityHeader → Report
    unfolding text_eq
    absent h =
        paired
          (create_observation k category_headers (h.display ++ codes " absent")
            (codes "The response does not send "
              ++ (h.display ++ (codes ", which " ++ (h.purpose ++ codes "."))))
            [] location)
          (codes "Missing " ++ (h.display ++ codes " security header"))
          (codes "The response does not explicitly "
            ++ (h.purpose ++ codes " because the header is absent."))
          (if contains low_headers h.lowered then low else info) []
          (codes "Consider sending " ++ (h.display ++ codes "."))

    -- X-Content-Type-Options, when it is sent
    unfoldable pub sniffing : SecurityHeader → Text → Report
    unfolding text_eq strip
    sniffing h value =
        if not (k.unicode.lower (strip k.unicode.is_space value) == codes "nosniff")
        then paired
            (create_observation k category_headers (h.display ++ codes " has a nonstandard value")
              (h.display
                ++ (codes " should be exactly 'nosniff' to "
                    ++ (h.purpose ++ codes "; got an unrecognized value.")))
              (h.display ++ (codes ": " ++ value)) location)
            (codes "Nonstandard " ++ (h.display ++ codes " value"))
            (codes "The header is present but does not disable MIME sniffing as intended ("
              ++ (h.purpose ++ codes ")."))
            low (h.display ++ (codes ": " ++ value))
            (codes "Set " ++ (h.display ++ codes ": nosniff."))
        else noted (
            create_observation k category_headers (h.display ++ codes " present")
              (h.display ++ codes " is set to 'nosniff'.") (h.display ++ (codes ": " ++ value))
              location)

    unfoldable pub assess_header : SecurityHeader → Option Text → Report
    unfolding text_eq
    assess_header h none = absent h
    assess_header h (some value) =
        if h.lowered == codes "x-content-type-options"
        then sniffing h value
        else noted (
            create_observation k category_headers (h.display ++ codes " present")
              (h.display ++ codes " is set.") (h.display ++ (codes ": " ++ value)) location)

    unfoldable pub assess_each : Headers → List SecurityHeader → Report
    unfolding header_value
    assess_each headers [] = nothing
    assess_each headers (h ∷ hs) =
        both (assess_header h (header_value h.lowered headers)) (assess_each headers hs)

    -- HSTS on a response over plain HTTP
    unfoldable pub assess_plain : Bool → Option Text → Report
    assess_plain true (some hsts) = noted (
        create_observation k category_headers (codes "HSTS sent over plain HTTP")
          (codes "Strict-Transport-Security has no effect on an http:// response.")
          (codes "Strict-Transport-Security: " ++ hsts) location)
    assess_plain true none = nothing
    assess_plain false o = nothing

    unfoldable pub assess_headers : HttpResponseData → Report
    unfolding header_value text_eq
    assess_headers response = both (assess_each response.headers security_headers) (
        assess_plain (response.final_target.scheme == codes "http")
          (header_value (codes "strict-transport-security") response.headers))

  -- `if value: ...` for one name
  unfoldable pub server_header : Text → Option Text → Report
  server_header key none = nothing
  server_header key (some []) = nothing
  server_header key (some (c ∷ t)) = noted (
      create_observation k category_server (codes "Server information exposed: " ++ key)
        (codes "Ordinary response header reveals implementation detail.")
        (key ++ (codes ": " ++ (c ∷ t))) (codes "response-headers"))

  -- `_assess_server_info`, over the names that it looks for
  unfoldable pub assess_server_each : Headers → List Text → Report
  assess_server_each headers [] = nothing
  assess_server_each headers (key ∷ keys) =
      both (server_header key (header_value key headers)) (assess_server_each headers keys)

  unfoldable pub assess_server_info : HttpResponseData → Report
  assess_server_info response = assess_server_each response.headers interesting
