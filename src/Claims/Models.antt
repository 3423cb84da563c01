-- ===== src/Claims/Models.antt =====
-- backend/src/domain/scanning/analysis/models.py, and the result of validator.py.
use sentinel_gpt.Common.{ℕ, Bool, List, [], ◌∷◌, ◌++◌}
use sentinel_gpt.Common.Text.{Text, codes, join}
use sentinel_gpt.Errors.{Result}
use sentinel_gpt.Engine.Findings.{Severity}
use sentinel_gpt.Scans.Comparison.{sorted}

pub data EvidenceStatus : Type 0 where
  supported inferred unsupported : EvidenceStatus

pub data AnalysisFailureKind : Type 0 where
  provider_unavailable authentication_failed timeout malformed_response schema_invalid
        limit_exceeded unexpected :
      AnalysisFailureKind

pub record Claim : Type 0 where
  pub text : Text
  pub finding_ids : List Text
  pub status : EvidenceStatus
  pub detail : Text

-- Its status is never set, and is SUPPORTED.
pub record CorrelatedGroup : Type 0 where
  pub group_id : Text
  pub title : Text
  pub finding_ids : List Text
  pub rationale : Text

pub record RemediationItem : Type 0 where
  pub title : Text
  pub detail : Text
  pub finding_ids : List Text

pub record ProviderMetadata : Type 0 where
  pub provider : Text
  pub model : Text
  pub model_version : Text
  pub prompt_schema_version : Text
  pub output_schema_version : Text
  pub created_at : ℕ
  pub nondeterministic : Bool

pub record Assessment : Type 0 where
  pub assessment_id : Text
  pub evidence_set_id : Text
  pub overall_summary : Text
  pub priority : Severity
  pub correlated_groups : List CorrelatedGroup
  pub remediation : List RemediationItem
  pub limitations : List Text
  pub claims : List Claim
  pub unsupported_claim_count : ℕ
  pub provider_metadata : ProviderMetadata

-- What the identity of an assessment is derived from
pub record Body : Type 0 where
  pub summary : Text
  pub priority : Severity
  pub groups : List CorrelatedGroup
  pub remediation : List RemediationItem
  pub limitations : List Text
  pub claims : List Claim

-- What is wrong with a response: the messages, by what they name
pub data SchemaError : Type 0 where
  oversized unreadable no_dictionary : SchemaError
  summary_too_long summary_missing priority_unknown limitations_invalid : SchemaError
  not_a_list : Text → SchemaError
  not_an_object : Text → ℕ → SchemaError
  field_invalid : Text → ℕ → Text → SchemaError

pub data ValidationResult : Type 0 where
  refused : AnalysisFailureKind → List SchemaError → List Claim → ValidationResult
  accepted : Assessment → List Claim → ValidationResult

pub record AssessmentUnavailable : Type 0 where
  pub evidence_set_id : Text
  pub failure_kind : AnalysisFailureKind
  pub detail : Text
  pub created_at : ℕ

-- `digest` is the SHA-256 hash of the UTF-8 bytes of a text, which raises if the text has none.
module _ (digest : Text → Result Text) where
  unfoldable pub derive_group_id : Text → List Text → Result Text
  unfolding join sorted
  derive_group_id title finding_ids =
      digest (codes "group|" ++ (title ++ (codes "|" ++ join (codes "|") (sorted finding_ids))))

  unfoldable pub derive_assessment_id : Text → ProviderMetadata → Text → Result Text
  unfolding join
  derive_assessment_id evidence_set_id m content_canonical = digest (
      join (codes "|") (
        codes "assessment"
        ∷ evidence_set_id
        ∷ m.provider
        ∷ m.model
        ∷ m.prompt_schema_version
        ∷ m.output_schema_version
        ∷ content_canonical
        ∷ []))
