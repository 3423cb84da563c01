-- ===== src/Engine/Bounded.antt =====
-- What is stored of a response is bounded.
use sentinel_gpt.Common.{
  ℕ, ◌≤◌, ◌-◌, List, [], ◌∷◌, ◌++◌, map, take, length, leb, length-take, length-append, All,
  All-append, arith, if◌then◌else◌,
}
use sentinel_gpt.Common.Text.{Text}
use sentinel_gpt.Errors.{Returns}
use sentinel_gpt.Network.Binding.{ScanNetworkContext}
use sentinel_gpt.Sandbox.Services.{EngineServices}
use sentinel_gpt.Engine.Findings.{
  Tables, Observation, Finding, Severity, Confidence, max_evidence_chars, bound_evidence,
  create_observation, create_finding, Report, both,
}
use sentinel_gpt.Engine.Analysis.{HttpClient, run_engine}
use sentinel_gpt.Engine.Closed.{IsClosed, run_engine-IsClosed}

-- The evidence is within its bound.
abbrev pub IsShort : Text → Type 0
IsShort evidence = length evidence ≤ max_evidence_chars

pub record AreBounded (observations : List Observation) (findings : List Finding) : Type 0 where
  pub of_observations : All (λ o. IsShort o.evidence) observations
  pub of_findings : All (λ f. IsShort f.evidence) findings

module _ (k : Tables) where
  bound_evidence-length :
      (text : Text) (limit : ℕ) → 1 ≤ limit → length (bound_evidence k text limit) ≤ limit
  unfolding bound_evidence
  bound_evidence-length text limit h = clamped (map _ text) limit h
    where
      clamped :
          (t : Text) (n : ℕ)
          → 1 ≤ n
          → length (if leb (length t) n then t else take (n - 1) t ++ (8230 ∷ [])) ≤ n
      clamped t n h =
          ground (arith, length-take (n - 1) t, length-append (take (n - 1) t) (8230 ∷ []))

  IsShort-observation : (c t d e l : Text) → IsShort (create_observation k c t d e l).evidence
  unfolding create_observation
  IsShort-observation c t d e l = bound_evidence-length e 512 (omega arith)

  IsShort-finding :
      (c t d : Text) (s : Severity) (f : Confidence) (e l r : Text) (o : List Text)
      → IsShort (create_finding k c t d s f e l r o).evidence
  unfolding create_finding
  IsShort-finding c t d s f e l r o = bound_evidence-length e 512 (omega arith)

  abbrev Bounded : Report → Type 0
  Bounded r = AreBounded r.observations r.findings

  Bounded-both : (r r' : Report) → Bounded r → Bounded r' → Bounded (both r r')
  unfolding both
  Bounded-both r r' h h' = record {
    of_observations =
        All-append _ r.observations r'.observations h.of_observations h'.of_observations;
    of_findings = All-append _ r.findings r'.findings h.of_findings h'.of_findings;
  }

  Bounded-IsClosed : IsClosed k Bounded
  Bounded-IsClosed = record {
    empty = record { of_observations = tt; of_findings = tt };
    note = λ c t d e l. record {
      of_observations = (IsShort-observation c t d e l, tt);
      of_findings = tt;
    };
    pair = λ c t d e l c' t' d' s f e' l' r'. record {
      of_observations = (IsShort-observation c t d e l, tt);
      of_findings = (IsShort-finding c' t' d' s f e' l' r' _, tt);
    };
    join = Bounded-both;
  }

  -- Whatever the target answers, no observation and no finding of a result carries more than 512
  -- characters of evidence.
  pub run_engine-Bounded :
      {S : Type 0} (client : HttpClient S) (context : ScanNetworkContext)
      (services : EngineServices) (s : S)
      → Returns
          (λ r. AreBounded r.observations r.findings)
          (run_engine k client context services s).0
  run_engine-Bounded client context services s =
      run_engine-IsClosed k Bounded Bounded-IsClosed client context services s
