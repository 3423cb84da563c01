-- ===== src/Engine/Cookies.antt =====
-- backend/src/scanning/engines/http_analysis.py: `_assess_cookies`.
use sentinel_gpt.Common.{
  not, ◌==◌, nat_eq, List, [], ◌∷◌, ◌++◌, take, drop, map, keep_if, length, if◌then◌else◌, contains,
  leb,
}
use sentinel_gpt.Common.Text.{Text, codes, text_eq, strip, split, join, starts_with}
use sentinel_gpt.Targets.Urls.{show}
use sentinel_gpt.Network.Contract.{Headers, HttpResponseData}
use sentinel_gpt.Engine.Findings.{
  Tables, Observation, Finding, Severity, info, low, fair, sure, create_observation, create_finding,
  Report, noted, nothing, both, cut, or_empty, bound_evidence, redact_cookie_value,
  max_evidence_chars, max_cookie_names_in_evidence,
}

abbrev pub category_cookies : Text
category_cookies = codes "http.cookies"

-- What is kept of one cookie: its redacted text, and the flags of its attributes
pub record Cookie : Type 0 where
  pub redacted : Text
  pub flags : List Text

abbrev before {ℓ} : {A B : Type ℓ} → A × B → A
before (a, b) = a

abbrev after {ℓ} : {A B : Type ℓ} → A × B → B
after (a, b) = b

module _ (k : Tables) where
  -- The tokens of the attributes, in small letters
  unfoldable pub flags_of : Text → List Text
  unfolding split strip text_eq
  flags_of attributes =
      map (λ t. k.unicode.lower (strip k.unicode.is_space t))
        (keep_if (λ t. not (strip k.unicode.is_space t == [])) (split b';' attributes))

  unfoldable pub read_cookie : Text → Cookie
  unfolding flags_of redact_cookie_value cut
  read_cookie header = record {
    redacted = redact_cookie_value k header;
    flags = flags_of (or_empty (after (cut b';' header)));
  }

  -- The values of the Set-Cookie headers
  unfoldable pub set_cookies : Headers → List Text
  unfolding text_eq
  set_cookies [] = []
  set_cookies ((key, value) ∷ headers) =
      let rest = set_cookies headers in
      if k.unicode.lower key == codes "set-cookie" then value ∷ rest else rest

  -- `reduced.split(" ")[0]`
  unfoldable pub cookie_name : Cookie → Text
  unfolding cut
  cookie_name c = before (cut b' ' c.redacted)

  unfoldable pub lacking : Text → List Cookie → List Text
  unfolding text_eq cookie_name
  lacking flag [] = []
  lacking flag (c ∷ cookies) =
      let rest = lacking flag cookies in
      if contains c.flags flag then rest else cookie_name c ∷ rest

  -- The first `samesite=` among the flags, and what is wrong with it
  unfoldable pub samesite_values : List Text → List Text
  unfolding starts_with
  samesite_values [] = []
  samesite_values (f ∷ flags) =
      let rest = samesite_values flags in
      if starts_with f (codes "samesite=") then drop 9 f ∷ rest else rest

  unfoldable pub samesite_issue : Text → List Text → List Text
  unfolding text_eq
  samesite_issue name [] = (name ++ codes ": unspecified") ∷ []
  samesite_issue name (value ∷ _) =
      if contains (codes "strict" ∷ codes "lax" ∷ codes "none" ∷ []) value
      then []
      else (name ++ (codes ": invalid '" ++ (value ++ codes "'"))) ∷ []

  unfoldable pub samesite_issues : List Cookie → List Text
  unfolding samesite_issue samesite_values cookie_name
  samesite_issues [] = []
  samesite_issues (c ∷ cookies) =
      samesite_issue (cookie_name c) (samesite_values c.flags) ++ samesite_issues cookies

  unfoldable pub listed : List Text → Text
  unfolding join
  listed names =
      join (codes ", ") (take max_cookie_names_in_evidence names)
      ++ (if leb (length names) max_cookie_names_in_evidence then [] else 32 ∷ 8230 ∷ [])

  module _ (location : Text) where
    unfoldable pub cookie_observation : Text → List Text → Observation
    unfolding listed bound_evidence show
    cookie_observation attribute names =
        create_observation k category_cookies (codes "Cookies missing " ++ attribute)
          (show (length names)
            ++ (codes " cookie(s) lack the " ++ (attribute ++ codes " attribute.")))
          (bound_evidence k (listed names) max_evidence_chars) location

    unfoldable pub cookie_finding : Text → Text → Severity → Text → List Text → Text → Finding
    unfolding listed bound_evidence
    cookie_finding title description severity recommendation names observation_id =
        create_finding k category_cookies title description severity sure
          (bound_evidence k (listed names) max_evidence_chars) location recommendation
          (observation_id ∷ [])

    -- `if missing: ...` for the attributes Secure and HttpOnly
    unfoldable pub missing : Text → Text → Text → Text → List Text → Report
    unfolding cookie_observation cookie_finding
    missing attribute title description recommendation [] = nothing
    missing attribute title description recommendation (n ∷ names) =
        let o = cookie_observation attribute (n ∷ names) in
        record {
          observations = o ∷ [];
          findings = cookie_finding title description low recommendation (n ∷ names) o.id ∷ [];
        }

    unfoldable pub samesite_gaps : List Text → Report
    unfolding join
    samesite_gaps [] = nothing
    samesite_gaps (i ∷ issues) =
        let evidence = join (codes "; ") (take max_cookie_names_in_evidence (i ∷ issues)) in
        let o =
          create_observation k category_cookies (codes "SameSite attribute gaps")
            (codes "Some cookies lack a valid SameSite attribute.") evidence location in
        record {
          observations = o ∷ [];
          findings =
              create_finding k category_cookies (codes "SameSite attribute missing or invalid")
                (codes "CSRF protection benefits from explicit SameSite settings.") info fair
                evidence location (codes "Set SameSite=Lax or Strict where appropriate.")
                (o.id ∷ [])
              ∷ [];
        }

    -- Over what is kept of the cookies
    unfoldable pub assess_read : List Cookie → Report
    unfolding join show
    assess_read [] = nothing
    assess_read (c ∷ cookies) =
        both
          (noted (
            create_observation k category_cookies
              (show (length (c ∷ cookies)) ++ codes " Set-Cookie header(s) observed")
              (codes "Cookie values are redacted; only names and attribute flags kept.")
              (join (10 ∷ [])
                (take max_cookie_names_in_evidence (map (λ r. r.redacted) (c ∷ cookies))))
              location))
          (both
            (missing (codes "Secure") (codes "Cookies without the Secure attribute")
              (codes "These cookies can be transmitted over plaintext connections.")
              (codes "Add the Secure attribute to every cookie.")
              (lacking (codes "secure") (c ∷ cookies)))
            (both
              (missing (codes "HttpOnly") (codes "Cookies without the HttpOnly attribute")
                (codes "Script running on the origin can read these cookies.")
                (codes "Add HttpOnly to session-bearing cookies.")
                (lacking (codes "httponly") (c ∷ cookies)))
              (samesite_gaps (samesite_issues (c ∷ cookies)))))

    unfoldable pub assess_cookies : HttpResponseData → Report
    unfolding set_cookies read_cookie
    assess_cookies response = assess_read (map read_cookie (set_cookies response.headers))
