-- ===== src/Sandbox/Executor/Gate.antt =====
-- When an engine runs, and in which context.
use sentinel_gpt.Common.{
  ap, ◌∙◌, true_of_not, sym, ℕ, ◌≡◌, refl, Bool, true, false, not, Option, none, some,
}
use mathlib.Core.Path.{subst, fun_ext}
use sentinel_gpt.Common.Text.{Text}
use sentinel_gpt.Errors.{
  Result, ok, err, Returns, raised, Returns-elim, ok_inj, sandbox_not_established,
}
use sentinel_gpt.Action.{lift, refuse_if, pure, ◌>>=◌}
use sentinel_gpt.Action.Outcome.{Yields, Yields-bind, Yields-then, Yields-refuse_if, Yields-pure}
use sentinel_gpt.Network.Binding.{ValidatedTargetBinding, ScanNetworkContext}
use sentinel_gpt.Network.Binding.Laws.{
  IsValidated, IsSound, context_of-IsSound, with_pinned-IsValidated,
}
use sentinel_gpt.Network.Resolution.{ResolutionOutcome}
use sentinel_gpt.Network.Resolution.Laws.{Keeps-resolve}
use sentinel_gpt.Network.Contract.{HttpLimits}
use sentinel_gpt.Sandbox.Services.{OriginSpec, EngineServices}
use sentinel_gpt.Sandbox.Docker.{Sandbox, Docker, destroy}
use sentinel_gpt.Sandbox.Executor.{Engine, prepare, attempt, admit, execute_scan, finally_, after}

-- Where an engine may run: a sandbox that is up, in a sound context
abbrev pub IsRunnable : ScanNetworkContext → Sandbox → Type 0
IsRunnable context s = IsSound context × (s.is_established ≡ true)

-- What the engine returns where it may run satisfies `Q`.
abbrev pub RunsWell : {A : Type 0} → (A → Type 0) → Engine A → Type 0
RunsWell Q engine =
    (context : ScanNetworkContext) (services : EngineServices) (s : Sandbox)
    → IsRunnable context s
    → Returns Q (engine context services s).0

abbrev pub AllOf : {A : Type 0} → (A → Type 0) → Option A → Type 0
AllOf P none = Unit
AllOf P (some a) = P a

after_lem :
    {A : Type 0} {Q : A → Type 0} (r : Result A) (r' : Result (Unit {0}))
    → Returns Q r
    → Returns Q (after r r')
after_lem r (ok _) h = h
after_lem r (err e) h = raised

module _ (d : Docker) (lookup : Text → Result ResolutionOutcome) where
  -- What `prepare` returns, and with what state of the sandbox
  abbrev IsReady : ValidatedTargetBinding → Sandbox → Type 0
  IsReady binding s = IsValidated binding × (s.is_established ≡ true)

  confirmed :
      (up : Bool) (binding : ValidatedTargetBinding) (s : Sandbox)
      → IsValidated binding
      → s.is_established ≡ up
      → Yields s IsReady (refuse_if (not up) sandbox_not_established >>= λ _. pure binding)
  confirmed up binding s valid e =
      Yields-refuse_if s _ _ _ λ up'. Yields-pure s binding (valid, e ∙ true_of_not up up')

  prepare-IsReady :
      (hostname : Text) (target_id now : Option ℕ) (clock : ℕ) (s : Sandbox)
      → Yields s IsReady (prepare d lookup hostname target_id now clock)
  unfolding prepare
  prepare-IsReady hostname target_id now clock s = Yields-bind s _ _ λ binding e.
      let valid =
        Returns-elim
          ((Keeps-resolve {P = λ _. Unit} (λ name. lift (lookup name)) (λ _ _ _. tt) hostname
              target_id now clock).value
            s tt)
          binding e in
      Yields-bind _ _ _ λ policy _. Yields-bind _ _ _ λ _ _.
        Yields-bind _ _ _
          λ _ _. Yields-bind _ _ _ λ up f. confirmed up binding _ valid (ok_inj _ _ f)

module _ {A : Type 0} (Q : A → Type 0) (enable_execution : Bool) where
  admit_well :
      (engine : Option (Engine A)) (context : ScanNetworkContext) (services : EngineServices)
      (s : Sandbox)
      → AllOf (RunsWell Q) engine
      → IsRunnable context s
      → Returns Q (admit enable_execution engine context services s).0
  unfolding admit
  admit_well none context services s k h = raised
  admit_well (some engine) context services s k h =
      elim enable_execution as (λ b. Returns Q (admit b (some engine) context services s).0) [
        | true ↦ k context services s h
        | false ↦ raised
      ]

  attempt_well :
      (engine : Option (Engine A)) (limits : Option HttpLimits) (origin : Option OriginSpec)
      (binding : ValidatedTargetBinding) (s : Sandbox)
      → AllOf (RunsWell Q) engine
      → IsValidated binding
      → s.is_established ≡ true
      → Yields s (λ a _. Q a) (attempt enable_execution engine limits origin binding)
  unfolding attempt
  attempt_well engine limits origin binding s k valid up = Yields-bind s _ _ λ primary _.
      Yields-bind s _ _ λ pinned e. record {
        outcome = admit_well engine _ _ s k (
          context_of-IsSound pinned
              (Returns-elim (with_pinned-IsValidated binding primary valid) pinned e),
          up,
        );
      }

  module _ (d : Docker) (lookup : Text → Result ResolutionOutcome) where
    -- What a scan returns is what its engine returned, in a sandbox that was up and in a context
    -- whose addresses are all public: a property of all that the engine returns there holds of it.
    pub execute_scan-RunsWell :
        (engine : Option (Engine A)) (limits : Option HttpLimits) (origin : Option OriginSpec)
        (hostname : Text) (target_id now : Option ℕ) (clock : ℕ) (s : Sandbox)
        → AllOf (RunsWell Q) engine
        → Returns Q
            (execute_scan d lookup enable_execution engine limits origin hostname target_id now
              clock s).0
    unfolding execute_scan finally_
    execute_scan-RunsWell engine limits origin hostname target_id now clock s k =
        (Yields-then (IsReady d lookup) (λ a _. Q a) s _ _
          (prepare-IsReady d lookup hostname target_id now clock s)
          λ binding s' (valid, up). record {
            outcome =
                after_lem _ _ (attempt_well engine limits origin binding s' k valid up).outcome;
          }).outcome

-- With the gate closed the engine does not matter: the run is the same without one.
attempt_closed :
    {A : Type 0} (engine : Option (Engine A)) (limits : Option HttpLimits)
    (origin : Option OriginSpec) (binding : ValidatedTargetBinding)
    → attempt false engine limits origin binding ≡ attempt false none limits origin binding
unfolding attempt admit
attempt_closed none limits origin binding = refl
attempt_closed (some engine) limits origin binding = refl

-- With the gate closed, no engine runs: a scan with an engine is the scan without one, in its
-- outcome and in all that is sent to Docker, and it returns nothing.
pub execute_scan-gate :
    {A : Type 0} (d : Docker) (lookup : Text → Result ResolutionOutcome)
    (engine : Option (Engine A)) (limits : Option HttpLimits) (origin : Option OriginSpec)
    (hostname : Text) (target_id now : Option ℕ) (clock : ℕ) (s : Sandbox)
    → (execute_scan d lookup false engine limits origin hostname target_id now clock s
        ≡ execute_scan d lookup false none limits origin hostname target_id now clock s)
      × Returns
          (λ _. ⊥)
          (execute_scan d lookup false engine limits origin hostname target_id now clock s).0
unfolding execute_scan
execute_scan-gate d lookup engine limits origin hostname target_id now clock s =
    let same =
      ap
        (λ f.
          (prepare d lookup hostname target_id now clock >>= λ binding.
          finally_ (f binding) (destroy d))
            s)
        (fun_ext λ binding. attempt_closed engine limits origin binding) in
    (
      same,
      subst (λ r. Returns (λ _. ⊥) r.0) (sym same)
          (execute_scan-RunsWell (λ _. ⊥) false d lookup none limits origin hostname target_id now
            clock s tt),
    )
