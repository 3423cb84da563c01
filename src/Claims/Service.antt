-- ===== src/Claims/Service.antt =====
-- backend/src/domain/scanning/analysis/service.py: the analysis, which fails closed. The analyzer is
-- given, with the prompts and the candidate groups that it is called with. The validation stands
-- outside of the `try`.
use sentinel_gpt.Common.{ℕ, ◌==◌, nat_eq, List, map, take, if◌then◌else◌}
use sentinel_gpt.Common.Text.{Text, codes, join}
use sentinel_gpt.Errors.{Result, ok, ◌>>=◌}
use sentinel_gpt.Claims.Models.{
  AnalysisFailureKind, unexpected, Assessment, AssessmentUnavailable, SchemaError, ValidationResult,
  refused, accepted,
}
use sentinel_gpt.Claims.Validator.{Codec, EvidenceSet, Response, validate_analysis_response}

-- What a call of the analyzer does: it returns, raises the error of the providers, or any other.
pub data Answer : Type 0 where
  responded : Response → Answer
  provider_failed : AnalysisFailureKind → Text → Answer
  crashed : Text → Answer

pub data Outcome : Type 0 where
  available : Assessment → Outcome
  unavailable : AssessmentUnavailable → Outcome

unfoldable pub unavailable_of : EvidenceSet → AnalysisFailureKind → Text → ℕ → Outcome
unfolding nat_eq
unavailable_of evidence kind detail now = unavailable (record {
  evidence_set_id = evidence.evidence_set_id;
  failure_kind = kind;
  detail = map (λ c. if c == 10 then 32 else c) (take 300 detail);
  created_at = now;
})

-- `message` is the text of an error.
module _ (k : Codec) (message : SchemaError → Text) (base : List (Text × Text)) where
  unfoldable pub outcome_of : EvidenceSet → ValidationResult → ℕ → Outcome
  unfolding unavailable_of join
  outcome_of evidence (accepted a claims) later = available a
  outcome_of evidence (refused kind errors claims) later =
      unavailable_of evidence kind (take 300 (join (codes "; ") (map message errors))) later

  -- `now` and `later` are what the clock says to the validator and after it.
  unfoldable pub answered : EvidenceSet → ℕ → ℕ → Answer → Result Outcome
  unfolding validate_analysis_response outcome_of unavailable_of
  answered evidence now later (responded raw) = do
    validation ← validate_analysis_response k evidence base now raw
    ok (outcome_of evidence validation later)
  answered evidence now later (provider_failed kind detail) =
      ok (unavailable_of evidence kind (take 500 detail) now)
  answered evidence now later (crashed name) = ok (unavailable_of evidence unexpected name now)

  unfoldable pub analyze :
      (EvidenceSet → Answer) → EvidenceSet → ℕ → ℕ → Result (EvidenceSet × Outcome)
  unfolding answered
  analyze analyzer evidence now later = do
    outcome ← answered evidence now later (analyzer evidence)
    ok (evidence, outcome)
