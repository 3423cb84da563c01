-- ===== src/Engine/Findings.antt =====
-- backend/src/domain/scanning/findings.py: observations, findings and their evidence.
use sentinel_gpt.Common.{
  ℕ, ◌-◌, Bool, ◌==◌, nat_eq, Option, none, some, List, [], ◌∷◌, ◌++◌, map, take, length, leb,
  if◌then◌else◌, ◌&&◌, ◌||◌, contains, drop,
}
use sentinel_gpt.Common.Text.{
  Text, codes, text_eq, Unicode, strip, split, join, starts_with, has_infix,
}

pub data Severity : Type 0 where
  info low medium high critical : Severity

-- LOW, MEDIUM and HIGH
pub data Confidence : Type 0 where
  unsure fair sure : Confidence

abbrev pub max_evidence_chars : ℕ
max_evidence_chars = 512

abbrev pub max_cookie_names_in_evidence : ℕ
max_cookie_names_in_evidence = 10

pub record Observation : Type 0 where
  pub id : Text
  pub category : Text
  pub title : Text
  pub detail : Text
  pub evidence : Text
  pub location : Text

pub record Finding : Type 0 where
  pub id : Text
  pub category : Text
  pub title : Text
  pub description : Text
  pub severity : Severity
  pub confidence : Confidence
  pub evidence : Text
  pub location : Text
  pub recommendation : Text
  pub observation_ids : List Text

-- What is put into the evidence of the transport observation
pub record TransportEvidence : Type 0 where
  pub scheme : Text
  pub status : ℕ
  pub redirects : List Text
  pub truncated : Bool
  pub bytes : ℕ

-- What the interpreter gives: the Unicode tables, the first 16 digits of a SHA-256 hash in base 16,
-- and the compact JSON text.
pub record Tables : Type 0 where
  pub unicode : Unicode
  pub is_printable : ℕ → Bool
  pub digest : Text → Text
  pub dumps : TransportEvidence → Text

-- `s.split(sep, 1)` for a separator of one character: what stands before it, and what after it
unfoldable pub cut : ℕ → Text → Text × Option Text
unfolding nat_eq
cut sep [] = ([], none)
cut sep (c ∷ s) =
    let (before, after) = cut sep s in if c == sep then ([], some s) else (c ∷ before, after)

abbrev pub or_empty : Option Text → Text
or_empty none = []
or_empty (some t) = t

module _ (k : Tables) where
  unfoldable pub bound_evidence : Text → ℕ → Text
  unfolding nat_eq
  bound_evidence text limit =
      let cleaned = map (λ ch. if k.is_printable ch || ch == 9 then ch else 32) text in
      if leb (length cleaned) limit then cleaned else take (limit - 1) cleaned ++ (8230 ∷ [])

  abbrev lower : Text → Text
  lower t = k.unicode.lower t

  abbrev trim : Text → Text
  trim t = strip k.unicode.is_space t

  -- The value of the last `samesite=` among the tokens, as it is reported
  samesite_of : List Text → Text
  unfolding starts_with text_eq strip
  samesite_of [] = codes "unspecified"
  samesite_of (token ∷ tokens) =
      let rest = samesite_of tokens in
      let raw = trim (drop 9 (trim token)) in
      if rest == codes "unspecified" && starts_with (trim token) (codes "samesite=")
      then if contains (codes "strict" ∷ codes "lax" ∷ codes "none" ∷ []) raw
        then raw
        else codes "invalid"
      else rest

  -- What is kept of a cookie: its name, and the flags of its attributes
  unfoldable pub reduced : Text → Text → Text
  unfolding samesite_of has_infix split join
  reduced name attributes =
      let lowered = lower attributes in
      let flags =
        (if has_infix lowered (codes "secure") then codes "Secure" ∷ [] else [])
        ++ ((if has_infix lowered (codes "httponly") then codes "HttpOnly" ∷ [] else [])
            ++ ((codes "SameSite=" ++ samesite_of (split b';' lowered)) ∷ [])) in
      name ++ (codes " [<value-redacted>] (" ++ (join (codes ", ") flags ++ codes ")"))

  -- `name_part.split("=", 1)[0].strip() if "=" in name_part else name_part`
  unfoldable pub name_of : Text → Text
  unfolding cut strip
  name_of name_part =
      let (before, after) = cut b'=' name_part in
      elim after [ none ↦ name_part | some value ↦ trim before ]

  unfoldable pub redact_cookie_value : Text → Text
  unfolding cut reduced name_of strip
  redact_cookie_value set_cookie_header =
      let (first, attributes) = cut b';' set_cookie_header in
      reduced (name_of (trim first)) (or_empty attributes)

  unfoldable pub create_observation : Text → Text → Text → Text → Text → Observation
  unfolding bound_evidence
  create_observation category title detail evidence location = record {
    id = k.digest (join (codes "|") (category ∷ title ∷ location ∷ []));
    category = category;
    title = title;
    detail = detail;
    evidence = bound_evidence evidence max_evidence_chars;
    location = location;
  }

  unfoldable pub create_finding :
      Text → Text → Text → Severity → Confidence → Text → Text → Text → List Text → Finding
  unfolding bound_evidence
  create_finding category title description severity confidence evidence location recommendation
        observation_ids =
      record {
        id = k.digest (join (codes "|") (codes "finding" ∷ category ∷ title ∷ location ∷ []));
        category = category;
        title = title;
        description = description;
        severity = severity;
        confidence = confidence;
        evidence = bound_evidence evidence max_evidence_chars;
        location = location;
        recommendation = recommendation;
        observation_ids = observation_ids;
      }

-- The two lists that the assessments fill
pub record Report : Type 0 where
  pub observations : List Observation
  pub findings : List Finding

abbrev pub noted : Observation → Report
noted o = record { observations = o ∷ []; findings = [] }

abbrev pub nothing : Report
nothing = record { observations = []; findings = [] }

unfoldable pub both : Report → Report → Report
both r r' = record {
  observations = r.observations ++ r'.observations;
  findings = r.findings ++ r'.findings;
}
