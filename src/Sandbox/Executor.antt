-- ===== src/Sandbox/Executor.antt =====
-- backend/src/scanning/runner.py and require_established of sandbox/base.py: the chain from a name
-- to an engine, over the one sandbox of the attempt. The engine is given, as an action on that
-- sandbox: its HTTP clients send their requests through it.
pub mod Leaves
pub mod Gate
use sentinel_gpt.Common.{
  ℕ, Bool, true, false, not, ◌||◌, ◌&&◌, Option, none, some, List, [], ◌∷◌, leb, contains, nat_eq,
  ◌==◌, if◌then◌else◌,
}
use sentinel_gpt.Common.Text.{Text, codes, text_eq, starts_with}
use sentinel_gpt.Errors.{
  Result, ok, err, egress_denied, scanner_execution_blocked, sandbox_not_established,
}
use sentinel_gpt.Action.{Action, pure, lift, asks, modify, refuse_if, ◌>>=◌, ◌>>◌}
use sentinel_gpt.Network.IpAddress.{IpAddress}
use sentinel_gpt.Network.Binding.{
  ValidatedTargetBinding, with_pinned, ScanNetworkContext, context_of, SandboxEgressPolicy,
  for_binding,
}
use sentinel_gpt.Network.Resolution.{ResolutionOutcome, resolve}
use sentinel_gpt.Network.Contract.{HttpLimits, default_limits}
use sentinel_gpt.Sandbox.Services.{OriginSpec, default_origin, EngineServices}
use sentinel_gpt.Sandbox.Docker.{Sandbox, Docker, created, establish, destroy}

abbrev pub Engine : Type 0 → Type 0
Engine A = ScanNetworkContext → EngineServices → Action Sandbox A

abbrev limits_or : Option HttpLimits → HttpLimits
limits_or none = default_limits
limits_or (some l) = l

abbrev origin_or : Option OriginSpec → OriginSpec
origin_or none = default_origin
origin_or (some o) = o

unfoldable pub build_services :
    ScanNetworkContext → Option HttpLimits → Option OriginSpec → EngineServices
build_services context limits origin = record {
  is_cancelled = false;
  limits = limits_or limits;
  origin = origin_or origin;
  context = context;
}

-- `addresses[0]` after the test that there is one
first_address : List IpAddress → Result IpAddress
first_address [] = err egress_denied
first_address (a ∷ _) = ok a

-- `try ... finally`: an error of the clean-up takes the place of the outcome.
abbrev after {ℓ} : {A : Type ℓ} → Result A → Result (Unit {0}) → Result A
after r (ok _) = r
after r (err e) = err e

pub finally_ : {A : Type 0} → Action Sandbox A → Action Sandbox (Unit {0}) → Action Sandbox A
finally_ m cleanup s = let (r, s1) = m s in let (r', s2) = cleanup s1 in (after r r', s2)

-- `lookup` is what the resolver answers in this attempt.
module _ (d : Docker) (lookup : Text → Result ResolutionOutcome) where
  unfoldable pub prepare : Text → Option ℕ → Option ℕ → ℕ → Action Sandbox ValidatedTargetBinding
  unfolding for_binding created establish
  prepare hostname target_id now clock = do
    binding ← resolve (λ name. lift (lookup name)) hostname target_id now clock
    policy ← lift (for_binding binding)
    modify created
    establish d policy
    up ← asks (λ s. s.is_established)
    refuse_if (not up) sandbox_not_established
    pure binding

module _ {A : Type 0} (enable_execution : Bool) where
  -- The gate
  pub admit : Option (Engine A) → ScanNetworkContext → EngineServices → Action Sandbox A
  admit none context services s = (err scanner_execution_blocked, s)
  admit (some engine) context services s =
      if enable_execution then engine context services s else (err scanner_execution_blocked, s)

  -- What runs under the `try`
  pub attempt :
      Option (Engine A)
      → Option HttpLimits
      → Option OriginSpec
      → ValidatedTargetBinding
      → Action Sandbox A
  unfolding first_address with_pinned context_of build_services admit
  attempt engine limits origin binding = do
    primary ← lift (first_address binding.addresses)
    pinned ← lift (with_pinned binding primary)
    admit engine (context_of pinned) (build_services (context_of pinned) limits origin)

module _ {A : Type 0} (d : Docker) (lookup : Text → Result ResolutionOutcome)
    (enable_execution : Bool) where
  unfoldable pub execute_scan :
      Option (Engine A)
      → Option HttpLimits
      → Option OriginSpec
      → Text
      → Option ℕ
      → Option ℕ
      → ℕ
      → Action Sandbox A
  unfolding prepare finally_ attempt destroy
  execute_scan engine limits origin hostname target_id now clock = do
    binding ← prepare d lookup hostname target_id now clock
    finally_ (attempt enable_execution engine limits origin binding) (destroy d)
