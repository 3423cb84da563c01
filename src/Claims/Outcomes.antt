-- ===== src/Claims/Outcomes.antt =====
-- How the analysis ends, `AiAnalysisService.analyze`.
use sentinel_gpt.Common.{ℕ, ◌≡◌, ◌≤◌, refl, List, [], ◌∷◌, map, take, length, arith, length-take}
use sentinel_gpt.Common.Text.{Text}
use sentinel_gpt.Errors.{Error, Result, ok, err, Returns-elim, ◌>>=◌}
use sentinel_gpt.Claims.Models.{
  AnalysisFailureKind, SchemaError, ValidationResult, refused, accepted, unexpected,
}
use sentinel_gpt.Claims.Validator.{Codec, EvidenceSet, Response, validate_analysis_response}
use sentinel_gpt.Claims.Grounded.{IsGrounded, Accepts, validate_analysis_response-IsGrounded}
use sentinel_gpt.Claims.Service.{
  Answer, responded, provider_failed, crashed, Outcome, available, unavailable, unavailable_of,
  outcome_of, answered, analyze,
}

-- The outcome is about the evidence: an assessment that rests on it, or a short reason.
abbrev pub IsAbout : EvidenceSet → Outcome → Type 0
IsAbout evidence (available a) = IsGrounded evidence a
IsAbout evidence (unavailable u) =
    (u.evidence_set_id ≡ evidence.evidence_set_id) × (length u.detail ≤ 300)

pub record IsFaithful (evidence : EvidenceSet) (r : EvidenceSet × Outcome) : Type 0 where
  pub kept : r.0 ≡ evidence
  pub about : IsAbout evidence r.1

length-map : (f : ℕ → ℕ) (t : Text) → length (map f t) ≡ length t
length-map f [] = refl
length-map f (c ∷ t) = omega (arith, length-map f t)

IsAbout-unavailable :
    (evidence : EvidenceSet) (kind : AnalysisFailureKind) (detail : Text) (now : ℕ)
    → IsAbout evidence (unavailable_of evidence kind detail now)
unfolding unavailable_of
IsAbout-unavailable evidence kind detail now =
    (refl, omega (arith, length-map _ (take 300 detail), length-take 300 detail))

module _ (k : Codec) (message : SchemaError → Text) (base : List (Text × Text)) where
  IsAbout-outcome :
      (evidence : EvidenceSet) (r : ValidationResult) (later : ℕ)
      → Accepts (IsGrounded evidence) r
      → IsAbout evidence (outcome_of k message base evidence r later)
  unfolding outcome_of
  IsAbout-outcome evidence (accepted a claims) later h = h
  IsAbout-outcome evidence (refused kind errors claims) later h =
      IsAbout-unavailable evidence kind _ later

  -- Either the analysis returns what it is to return, or the analyzer responded and the validation
  -- of its response raised.
  pub data Ended (analyzer : EvidenceSet → Answer) (evidence : EvidenceSet) (now later : ℕ)
      : Type 0 where
    faithful :
        (r : EvidenceSet × Outcome)
        → analyze k message base analyzer evidence now later ≡ ok r
        → IsFaithful evidence r
        → Ended analyzer evidence now later
    escaped :
        (raw : Response) (e : Error)
        → analyzer evidence ≡ responded raw
        → validate_analysis_response k evidence base now raw ≡ err e
        → analyze k message base analyzer evidence now later ≡ err e
        → Ended analyzer evidence now later

  validated :
      (analyzer : EvidenceSet → Answer) (evidence : EvidenceSet) (now later : ℕ) (raw : Response)
      → analyzer evidence ≡ responded raw
      → (v : Result ValidationResult) → validate_analysis_response k evidence base now raw ≡ v
      → Ended analyzer evidence now later
  unfolding analyze answered ◌>>=◌
  validated analyzer evidence now later raw asked (ok r) e =
      faithful (evidence, outcome_of k message base evidence r later) (rw asked (rw e refl))
        (record {
          kept = refl;
          about =
              IsAbout-outcome evidence r later
                (Returns-elim (validate_analysis_response-IsGrounded k evidence base now raw) r e);
        })
  validated analyzer evidence now later raw asked (err x) e =
      escaped raw x asked e (rw asked (rw e refl))

  Ended-answer :
      (analyzer : EvidenceSet → Answer) (evidence : EvidenceSet) (now later : ℕ) (a : Answer)
      → analyzer evidence ≡ a
      → Ended analyzer evidence now later
  unfolding analyze answered ◌>>=◌
  Ended-answer analyzer evidence now later (responded raw) asked =
      validated analyzer evidence now later raw asked _ refl
  Ended-answer analyzer evidence now later (provider_failed kind detail) asked =
      faithful (evidence, unavailable_of evidence kind (take 500 detail) now) (rw asked refl)
        (record { kept = refl; about = IsAbout-unavailable evidence kind (take 500 detail) now })
  Ended-answer analyzer evidence now later (crashed name) asked =
      faithful (evidence, unavailable_of evidence unexpected name now) (rw asked refl)
        (record { kept = refl; about = IsAbout-unavailable evidence unexpected name now })

  -- Whatever the analyzer does, and be it that it raises, the analysis returns the evidence that it
  -- was given, with an outcome about it: an assessment that rests on the findings of the evidence,
  -- or a refusal that names the evidence and has at most 300 characters of detail. The one exception
  -- is a response whose validation raises: then the analysis raises the same.
  pub analyze-Ended :
      (analyzer : EvidenceSet → Answer) (evidence : EvidenceSet) (now later : ℕ)
      → Ended analyzer evidence now later
  analyze-Ended analyzer evidence now later =
      Ended-answer analyzer evidence now later (analyzer evidence) refl
