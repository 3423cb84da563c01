-- ===== src/Claims/Validator.antt =====
-- backend/src/domain/scanning/analysis/validator.py: a response and the whole payload.
use sentinel_gpt.Common.{
  ℕ, Bool, true, ◌==◌, nat_eq, Option, none, some, List, [], ◌∷◌, ◌++◌, map, length, contains, ltb,
  if◌then◌else◌,
}
use sentinel_gpt.Common.Text.{Text, codes, text_eq}
use sentinel_gpt.Errors.{Result, ok, ◌>>=◌}
use sentinel_gpt.Engine.Findings.{
  Tables, bound_evidence, max_evidence_chars, Finding, Severity, info, low, medium, high, critical,
}
use sentinel_gpt.Claims.Json.{Json, string, object, Members, get_member, filled, list_of}
use sentinel_gpt.Claims.Models.{
  malformed_response, schema_invalid, limit_exceeded, Claim, CorrelatedGroup, RemediationItem,
  ProviderMetadata, Assessment, Body, SchemaError, oversized, unreadable, no_dictionary,
  summary_too_long, summary_missing, priority_unknown, limitations_invalid, ValidationResult,
  refused, accepted, derive_assessment_id,
}
use sentinel_gpt.Claims.Sections.{
  Section, section, texts_of, validate_group, validate_remediation, validate_claim,
}

abbrev pub max_output_json_bytes : ℕ
max_output_json_bytes = 262144

abbrev pub max_summary_chars : ℕ
max_summary_chars = 4000

-- What the provider returns: bytes, a text, or a value that is read already
pub data Response : Type 0 where
  bytes : List ℕ → Response
  text : Text → Response
  value : Json → Response

-- What the interpreter gives besides the tables: the UTF-8 bytes of a text, and a text of bytes; the
-- hash of bytes; json.loads, which makes no value if it raises JSONDecodeError and may raise
-- otherwise; `str` on a value; and the stable JSON text of the body. A surrogate in a text makes
-- `encode` raise, a long integer or a deep nesting `loads`, and a long integer `shown`.
pub record Codec : Type 0 where
  pub tables : Tables
  pub encode : Text → Result (List ℕ)
  pub decode : List ℕ → Text
  pub hash : List ℕ → Text
  pub loads : Text → Result (Option Json)
  pub shown : Json → Result Text
  pub dumps_stable : Body → Text

-- Of the evidence set of backend/src/domain/scanning/analysis/evidence.py, its identity and its
-- findings
pub record EvidenceSet : Type 0 where
  pub evidence_set_id : Text
  pub findings : List Finding

unfoldable pub has_finding : EvidenceSet → Text → Bool
unfolding text_eq
has_finding evidence i = contains (map (λ f. f.id) evidence.findings) i

unfoldable pub get_or : Text → Text → List (Text × Text) → Text
unfolding text_eq
get_or key default [] = default
get_or key default ((name, t) ∷ base) =
    let rest = get_or key default base in if name == key then t else rest

unfoldable pub severity_named : Text → Option Severity
unfolding text_eq
severity_named t =
    if t == codes "info"
    then some info
    else if t == codes "low"
    then some low
    else if t == codes "medium"
    then some medium
    else if t == codes "high"
    then some high
    else if t == codes "critical"
    then some critical
    else none

unfoldable pub priority_of : Option Json → Option Severity
unfolding severity_named
priority_of (some (string t)) = severity_named t
priority_of _ = none

-- The value, or what is wrong with it
pub data Field (A : Type 0) : Type 0 where
  valid : A → Field A
  invalid : SchemaError → Field A

abbrev error_of : {A : Type 0} → Field A → List SchemaError
error_of (valid a) = []
error_of (invalid e) = e ∷ []

module _ (k : Codec) where
  abbrev pub digest : Text → Result Text
  digest t = k.encode t >>= λ b. ok (k.hash b)

  unfoldable pub summary_of : Option Json → Field Text
  unfolding filled
  summary_of j = elim (filled k.tables.unicode.is_space j) [
    | none ↦ invalid summary_missing
    | some t ↦ if ltb max_summary_chars (length t) then invalid summary_too_long else valid t
  ]

  -- `_string_list`
  unfoldable pub string_list : Option Json → Field (List Text)
  unfolding list_of texts_of bound_evidence
  string_list j = elim (texts_of (list_of j)) [
    | none ↦ invalid limitations_invalid
    | some ts ↦ valid (map (λ t. bound_evidence k.tables t max_evidence_chars) ts)
  ]

  module _ (evidence : EvidenceSet) (base : List (Text × Text)) (now : ℕ) where
    unfoldable pub metadata_of : ProviderMetadata
    unfolding get_or
    metadata_of = record {
      provider = get_or (codes "provider") (codes "unknown") base;
      model = get_or (codes "model") (codes "unknown") base;
      model_version = get_or (codes "model_version") (codes "unknown") base;
      prompt_schema_version = get_or (codes "prompt_schema_version") (codes "v1") base;
      output_schema_version = get_or (codes "output_schema_version") (codes "v1") base;
      created_at = now;
      nondeterministic = true;
    }

    unfoldable pub assessed :
        Text
        → Severity
        → List Text
        → List CorrelatedGroup
        → List RemediationItem
        → List Claim
        → List Claim
        → Result Assessment
    unfolding metadata_of derive_assessment_id bound_evidence
    assessed summary priority limitations groups remediation claims unsupported = do
      assessment_id ← derive_assessment_id digest evidence.evidence_set_id metadata_of (
          k.dumps_stable (record {
            summary = summary;
            priority = priority;
            groups = groups;
            remediation = remediation;
            limitations = limitations;
            claims = claims;
          }))
      ok (record {
        assessment_id = assessment_id;
        evidence_set_id = evidence.evidence_set_id;
        overall_summary = summary;
        priority = priority;
        correlated_groups = groups;
        remediation = remediation;
        limitations = map (λ t. bound_evidence k.tables t max_evidence_chars) limitations;
        claims = claims;
        unsupported_claim_count = length unsupported;
        provider_metadata = metadata_of;
      })

    -- `if errors: ...`, after what was read of the fields
    unfoldable pub concluded :
        Field Text
        → Option Severity
        → Field (List Text)
        → Section CorrelatedGroup
        → Section RemediationItem
        → Section Claim
        → List SchemaError
        → List Claim
        → Result ValidationResult
    unfolding assessed
    concluded (valid summary) (some priority) (valid limitations) groups remediation claims []
          unsupported =
        do
          assessment ←
              assessed summary priority limitations groups.items remediation.items claims.items
                unsupported
          ok (accepted assessment unsupported)
    concluded _ _ _ groups remediation claims errors unsupported =
        ok (refused schema_invalid errors unsupported)

    unfoldable pub validate_structure : Members → Result ValidationResult
    unfolding get_member summary_of priority_of string_list section validate_group
        validate_remediation validate_claim concluded has_finding
    validate_structure payload = do
      let summary = summary_of (get_member (codes "overall_summary") payload)
      let priority = priority_of (get_member (codes "priority") payload)
      let limitations = string_list (get_member (codes "limitations") payload)
      groups ←
          section (codes "correlated_groups")
            (validate_group k.tables digest k.shown (has_finding evidence))
            (get_member (codes "correlated_groups") payload)
      remediation ←
          section (codes "remediation")
            (validate_remediation k.tables digest k.shown (has_finding evidence))
            (get_member (codes "remediation") payload)
      claims ←
          section (codes "claims") (validate_claim k.tables digest k.shown (has_finding evidence))
            (get_member (codes "claims") payload)
      concluded summary priority limitations groups remediation claims
          (error_of summary
            ++ (elim priority [ none ↦ priority_unknown ∷ [] | some p ↦ [] ]
                ++ (error_of limitations
                    ++ (groups.errors ++ (remediation.errors ++ claims.errors)))))
          (groups.unsupported_claims
            ++ (remediation.unsupported_claims ++ claims.unsupported_claims))

    -- What json.loads made of the text, or the dictionary itself
    unfoldable pub validate_parsed : Option Json → Result ValidationResult
    unfolding validate_structure
    validate_parsed (some (object payload)) = validate_structure payload
    validate_parsed none = ok (refused malformed_response (unreadable ∷ []) [])
    validate_parsed (some _) = ok (refused malformed_response (no_dictionary ∷ []) [])

    unfoldable pub validate_text : Text → Result ValidationResult
    unfolding validate_parsed
    validate_text raw = k.encode raw >>= λ encoded.
        if ltb max_output_json_bytes (length encoded)
        then ok (refused limit_exceeded (oversized ∷ []) [])
        else k.loads raw >>= validate_parsed

    unfoldable pub validate_analysis_response : Response → Result ValidationResult
    unfolding validate_text validate_parsed
    validate_analysis_response (bytes raw) =
        if ltb max_output_json_bytes (length raw)
        then ok (refused limit_exceeded (oversized ∷ []) [])
        else validate_text (k.decode raw)
    validate_analysis_response (text raw) = validate_text raw
    validate_analysis_response (value parsed) = validate_parsed (some parsed)
