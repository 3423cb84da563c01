-- ===== src/Tests/Claims.antt =====
-- backend/src/domain/scanning/analysis over one payload.
use sentinel_gpt.Common.{◌≡◌, refl, none, List, [], ◌∷◌, map, nat_eq}
use sentinel_gpt.Common.Text.{Text, codes, text_eq, strip}
use sentinel_gpt.Errors.{Result, ok, err, Returns, ◌>>=◌}
use sentinel_gpt.Engine.Findings.{low, sure}
use sentinel_gpt.Claims.Json.{
  Json, string, array, object, no_element, element, no_member, member, get_member, filled, list_of,
  all_texts, texts_in,
}
use sentinel_gpt.Claims.Models.{
  EvidenceStatus, supported, unsupported, SchemaError, ValidationResult, refused, accepted,
}
use sentinel_gpt.Claims.Sections.{
  section, joined, over, each, ids_in, texts_of, status_named, status_of, claimed, claim_of,
  validate_claim,
}
use sentinel_gpt.Claims.Validator.{
  Codec, EvidenceSet, has_finding, Response, value, severity_named, priority_of, summary_of,
  string_list, assessed, concluded, validate_structure, validate_parsed, validate_analysis_response,
}
use sentinel_gpt.Claims.Grounded.{IsGrounded, Accepts, validate_analysis_response-IsGrounded}
use sentinel_gpt.Claims.Service.{responded}
use sentinel_gpt.Claims.Outcomes.{Ended, analyze-Ended}
use sentinel_gpt.Tests.Engine.{tables}

abbrev codec : Codec
codec = record {
  tables = tables;
  encode = λ t. ok t;
  decode = λ t. t;
  hash = λ t. t;
  loads = λ t. ok none;
  shown = λ j. ok [];
  dumps_stable = λ b. b.summary;
}

abbrev evidence : EvidenceSet
evidence = record {
  evidence_set_id = codes "e";
  findings =
      record {
        id = codes "f1";
        category = codes "http.cookies";
        title = codes "t";
        description = [];
        severity = low;
        confidence = sure;
        evidence = [];
        location = [];
        recommendation = [];
        observation_ids = [];
      }
      ∷ [];
}

abbrev claim : Text → Json
claim id = object (
    member (codes "text") (string (codes "c")) (
      member (codes "finding_ids") (array (element (string id) no_element))
        (member (codes "status") (string (codes "supported")) no_member)))

abbrev payload : Response
payload = value (
    object (
      member (codes "overall_summary") (string (codes "s")) (
        member (codes "priority") (string (codes "low")) (
          member (codes "claims")
            (array (element (claim (codes "f1")) (element (claim (codes "f2")) no_element)))
            no_member))))

abbrev statuses : Result ValidationResult → List EvidenceStatus
statuses (ok (accepted a claims)) = map (λ c. c.status) a.claims
statuses (ok (refused kind errors claims)) = []
statuses (err e) = []

-- Both claims say that they are supported.
statuses_test :
    statuses (validate_analysis_response codec evidence [] 5 payload) ≡ supported ∷ unsupported ∷ []
unfolding ◌>>=◌ joined validate_analysis_response validate_parsed validate_structure concluded
    assessed summary_of string_list priority_of severity_named section over each list_of texts_of
    all_texts texts_in ids_in get_member filled strip text_eq nat_eq validate_claim claim_of claimed
    status_named status_of has_finding
statuses_test = refl

validate_analysis_response-IsGrounded_example :
    Returns (Accepts (IsGrounded evidence)) (validate_analysis_response codec evidence [] 5 payload)
validate_analysis_response-IsGrounded_example =
    validate_analysis_response-IsGrounded codec evidence [] 5 payload

abbrev message : SchemaError → Text
message e = codes "error"

analyze-Ended_example : Ended codec message [] (λ e. responded payload) evidence 5 6
analyze-Ended_example = analyze-Ended codec message [] (λ e. responded payload) evidence 5 6
