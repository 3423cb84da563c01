-- ===== src/Engine/Traced.antt =====
-- A finding rests on what was observed.
use sentinel_gpt.Common.{
  any_of, all_of, contains, ◌≡◌, refl, true, List, [], ◌∷◌, ◌++◌, map, All, All-append, arith,
}
use sentinel_gpt.Common.Text.{Text, text_eq}
use sentinel_gpt.Errors.{Returns}
use sentinel_gpt.Network.Binding.{ScanNetworkContext}
use sentinel_gpt.Sandbox.Services.{EngineServices}
use sentinel_gpt.Engine.Findings.{
  Tables, Observation, Finding, Severity, Confidence, create_observation, create_finding, Report,
  both,
}
use sentinel_gpt.Engine.Analysis.{HttpClient, run_engine}
use sentinel_gpt.Engine.Closed.{IsClosed, run_engine-IsClosed}

abbrev pub ids : List Observation → List Text
ids observations = map (λ o. o.id) observations

-- Every finding names at least one observation, and each that it names is in the report.
pub record IsTraced (known : List Text) (f : Finding) : Type 0 where
  pub rests : any_of (contains known) f.observation_ids ≡ true
  pub within : all_of (contains known) f.observation_ids ≡ true

abbrev pub AreTraced : List Observation → List Finding → Type 0
AreTraced observations findings = All (IsTraced (ids observations)) findings

-- More is known in a longer report.
abbrev Extends : List Text → List Text → Type 0
Extends known known' = (i : Text) → contains known i ≡ true → contains known' i ≡ true

any_of_mono :
    (known known' : List Text) (xs : List Text)
    → Extends known known'
    → any_of (contains known) xs ≡ true
    → any_of (contains known') xs ≡ true
any_of_mono known known' [] h e = e
any_of_mono known known' (x ∷ xs) h e =
    let here = h x in let rest = any_of_mono known known' xs h in ground arith

all_of_mono :
    (known known' : List Text) (xs : List Text)
    → Extends known known'
    → all_of (contains known) xs ≡ true
    → all_of (contains known') xs ≡ true
all_of_mono known known' [] h e = e
all_of_mono known known' (x ∷ xs) h e =
    let here = h x in let rest = all_of_mono known known' xs h in ground arith

AreTraced-mono :
    (known known' : List Text) (fs : List Finding)
    → Extends known known'
    → All (IsTraced known) fs
    → All (IsTraced known') fs
AreTraced-mono known known' [] h k = tt
AreTraced-mono known known' (f ∷ fs) h k = (
  record {
    rests = any_of_mono known known' f.observation_ids h k.0.rests;
    within = all_of_mono known known' f.observation_ids h k.0.within;
  },
  AreTraced-mono known known' fs h k.1,
)

ids-left : (os os' : List Observation) → Extends (ids os) (ids (os ++ os'))
ids-left [] os' i e = ground arith
ids-left (o ∷ os) os' i e = ground (arith, ids-left os os' i)

ids-right : (os os' : List Observation) → Extends (ids os') (ids (os ++ os'))
ids-right [] os' i e = e
ids-right (o ∷ os) os' i e = ground (arith, ids-right os os' i)

contains-here : (i : Text) → contains (i ∷ []) i ≡ true
contains-here i = elim (text_eq.dec i i) [ yes e ↦ ground arith | no n ↦ absurd (n refl) ]

module _ (k : Tables) where
  abbrev Traced : Report → Type 0
  Traced r = AreTraced r.observations r.findings

  Traced-both : (r r' : Report) → Traced r → Traced r' → Traced (both r r')
  unfolding both
  Traced-both r r' h h' =
      All-append _ r.findings r'.findings
        (AreTraced-mono _ _ r.findings (ids-left r.observations r'.observations) h)
        (AreTraced-mono _ _ r'.findings (ids-right r.observations r'.observations) h')

  Traced-pair :
      (o : Observation) (c t d : Text) (s : Severity) (f : Confidence) (e l r : Text)
      → AreTraced (o ∷ []) (create_finding k c t d s f e l r (o.id ∷ []) ∷ [])
  unfolding create_finding
  Traced-pair o c t d s f e l r =
      let here = contains-here o.id in (record { rests = rw here refl; within = rw here refl }, tt)

  Traced-IsClosed : IsClosed k Traced
  Traced-IsClosed = record {
    empty = tt;
    note = λ c t d e l. tt;
    pair = λ c t d e l c' t' d' s f e' l' r'.
        Traced-pair (create_observation k c t d e l) c' t' d' s f e' l' r';
    join = Traced-both;
  }

  -- Whatever the target answers, every finding of a result names an observation, and all that it
  -- names are observations of the same result.
  pub run_engine-AreTraced :
      {S : Type 0} (client : HttpClient S) (context : ScanNetworkContext)
      (services : EngineServices) (s : S)
      → Returns
          (λ r. AreTraced r.observations r.findings)
          (run_engine k client context services s).0
  run_engine-AreTraced client context services s =
      run_engine-IsClosed k Traced Traced-IsClosed client context services s
