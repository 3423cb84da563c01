-- ===== src/Sandbox/Executor/Leaves.antt =====
-- What a scan leaves: the removal of each container is sent, however it ends.
use sentinel_gpt.Common.{ℕ, ◌≡◌, refl, Bool, true, false, not, Option, none, some, arith}
use sentinel_gpt.Common.Text.{Text}
use sentinel_gpt.Errors.{Result, ok, err, Returns-any, sandbox_not_established}
use sentinel_gpt.Action.{Action, proceed, lift, asks, refuse_if, pure, ◌>>=◌, ◌>>◌}
use sentinel_gpt.Action.Keeps.{Keeps, Keeps-bind, Keeps-lift}
use sentinel_gpt.Network.Binding.{ValidatedTargetBinding, ScanNetworkContext}
use sentinel_gpt.Network.Resolution.{ResolutionOutcome, resolve}
use sentinel_gpt.Network.Resolution.Laws.{Keeps-resolve}
use sentinel_gpt.Network.Binding.Laws.{IsValidated}
use sentinel_gpt.Network.Contract.{HttpLimits}
use sentinel_gpt.Sandbox.Services.{OriginSpec, EngineServices}
use sentinel_gpt.Sandbox.Docker.{Sandbox, Docker, SandboxVerification, created, establish, destroy}
use sentinel_gpt.Sandbox.Docker.Cleanup.{awaits_removal, IsTracked, IsIdle}
use sentinel_gpt.Sandbox.Docker.Cleanup.Stable.{IsTracked-IsStable}
use sentinel_gpt.Sandbox.Docker.Cleanup.Parts.{Stays-destroy}
use sentinel_gpt.Sandbox.Docker.Cleanup.Whole.{Goes-establish}
use sentinel_gpt.Sandbox.Docker.Cleanup.Teardown.{IsCleared, NeverCrashes, Ends-destroy}
use sentinel_gpt.Sandbox.Docker.Cleanup.Settled.{IsSettled, establish-IsSettled, dead_of_cleared}
use sentinel_gpt.Sandbox.Executor.{Engine, prepare, attempt, admit, execute_scan, finally_}

-- No container awaits its removal.
abbrev pub AllRemoved : Sandbox → Type 0
AllRemoved s = (n : Text) → awaits_removal n s.sent ≡ false

-- The object names what awaits its removal.
abbrev pub AllTracked : Sandbox → Type 0
AllTracked s = (n : Text) → IsTracked n s

-- An engine works through the sandbox: it starts no container behind its back.
abbrev pub KeepsTrack : {A : Type 0} → Option (Engine A) → Type 0
KeepsTrack {A} none = Unit
KeepsTrack {A} (some engine) =
    (context : ScanNetworkContext) (services : EngineServices) (s : Sandbox)
    → AllTracked s
    → AllTracked (engine context services s).1

created-IsCleared : (s : Sandbox) → IsCleared (created s)
unfolding created
created-IsCleared s = record { pending = refl; container = refl; network = refl; down = refl }

created-IsIdle : (s : Sandbox) → AllRemoved s → (n : Text) → IsIdle n (created s)
unfolding created
created-IsIdle s dead n = (refl, refl, dead n)

module _ (d : Docker) (never : NeverCrashes d) where
  IsCleared-AllRemoved : (s : Sandbox) → IsCleared s → AllTracked s → AllRemoved s
  IsCleared-AllRemoved s c t n = dead_of_cleared n s c (t n)

  destroy-AllRemoved : (s : Sandbox) → AllTracked s → AllRemoved (destroy d s).1
  destroy-AllRemoved s t =
      IsCleared-AllRemoved (destroy d s).1 (Ends-destroy d never s).state
        λ n. (Stays-destroy d (IsTracked n) (IsTracked-IsStable n)).state s (t n)

  -- After a step that stands the sandbox up: it is up and names all that awaits its
  -- removal, or, if the step raised, nothing does.
  abbrev pub IsOpen : {A : Type 0} → Result A → Sandbox → Type 0
  IsOpen (ok _) s = AllTracked s × (s.is_established ≡ true)
  IsOpen (err _) s = AllRemoved s

  abbrev Opens : {A : Type 0} → Action Sandbox A → Type 0
  Opens m = (s : Sandbox) → AllRemoved s → IsOpen (m s).0 (m s).1

  establish-IsOpen :
      (r : Result SandboxVerification) (s : Sandbox) → IsSettled r s → AllTracked s → IsOpen r s
  establish-IsOpen (ok v) s h t = (t, h.0)
  establish-IsOpen (err e) s h t = IsCleared-AllRemoved s h t

  Opens-bind :
      {A B : Type 0} {Q : A → Type 0} (m : Action Sandbox A) (f : A → Action Sandbox B)
      → Keeps AllRemoved Q m
      → ((a : A) → Opens (f a))
      → Opens (m >>= f)
  unfolding ◌>>=◌
  Opens-bind m f k g s h = next (m s).0 (m s).1 (k.state s h)
    where
      next :
          (r : Result _) (s' : Sandbox)
          → AllRemoved s'
          → IsOpen (proceed f r s').0 (proceed f r s').1
      next (ok a) s' i = g a s' i
      next (err e) s' i = i

  -- The steps after the sandbox is stood up
  checked-IsOpen :
      (up : Bool) (binding : ValidatedTargetBinding) (s : Sandbox)
      → up ≡ true
      → AllTracked s × (s.is_established ≡ true)
      → IsOpen
          ((refuse_if (not up) sandbox_not_established >> pure binding) s).0
          ((refuse_if (not up) sandbox_not_established >> pure binding) s).1
  unfolding ◌>>=◌
  checked-IsOpen true binding s e h = h
  checked-IsOpen false binding s e h = ground arith

  prepared-IsOpen :
      (binding : ValidatedTargetBinding) (r : Result SandboxVerification) (s : Sandbox)
      → IsOpen r s
      → IsOpen
          (proceed
            (λ _. asks (λ s'. s'.is_established) >>= λ up.
              refuse_if (not up) sandbox_not_established >> pure binding)
            r
            s).0
          (proceed
            (λ _. asks (λ s'. s'.is_established) >>= λ up.
              refuse_if (not up) sandbox_not_established >> pure binding)
            r
            s).1
  unfolding ◌>>=◌
  prepared-IsOpen binding (ok v) s h = checked-IsOpen s.is_established binding s h.1 h
  prepared-IsOpen binding (err e) s h = h

  module _ (lookup : Text → Result ResolutionOutcome) where
    Dead-resolve :
        (hostname : Text) (target_id now : Option ℕ) (clock : ℕ)
        → Keeps AllRemoved IsValidated
            (resolve (λ name. lift (lookup name)) hostname target_id now clock)
    Dead-resolve hostname target_id now clock =
        Keeps-resolve (λ name. lift (lookup name)) (λ name s h. h) hostname target_id now clock

    pub prepare-IsOpen :
        (hostname : Text) (target_id now : Option ℕ) (clock : ℕ)
        → Opens (prepare d lookup hostname target_id now clock)
    unfolding prepare ◌>>=◌
    prepare-IsOpen hostname target_id now clock =
        Opens-bind _ _ (Dead-resolve hostname target_id now clock) λ binding.
          Opens-bind _ _ (Keeps-lift _ (Returns-any _)) λ policy. λ s dead.
            prepared-IsOpen binding (establish d policy (created s)).0
              (establish d policy (created s)).1
              (establish-IsOpen _ _
                (establish-IsSettled d never policy (created s) (created-IsCleared s))
                λ n. Goes-establish d policy n (created s) (created-IsIdle s dead n))

  -- What runs in the sandbox is tracked, and then the sandbox is destroyed.
  finally-AllRemoved :
      {A : Type 0} (m : Action Sandbox A) (s : Sandbox)
      → AllTracked (m s).1
      → AllRemoved (finally_ m (destroy d) s).1
  unfolding finally_
  finally-AllRemoved m s t = destroy-AllRemoved (m s).1 t

module _ {A : Type 0} (enable_execution : Bool) where
  admit-AllTracked :
      (engine : Option (Engine A)) (context : ScanNetworkContext) (services : EngineServices)
      → KeepsTrack engine
      → Keeps AllTracked (λ _. Unit {0}) (admit enable_execution engine context services)
  unfolding admit
  admit-AllTracked none context services k = record {
    state = λ s h. h;
    value = λ s h. Returns-any _;
  }
  admit-AllTracked (some engine) context services k = record {
    state = λ s h.
        elim enable_execution as (λ b. AllTracked (admit b (some engine) context services s).1) [
          | true ↦ k context services s h
          | false ↦ h
        ];
    value = λ s h. Returns-any _;
  }

  attempt-AllTracked :
      (engine : Option (Engine A)) (limits : Option HttpLimits) (origin : Option OriginSpec)
      (binding : ValidatedTargetBinding)
      → KeepsTrack engine
      → Keeps AllTracked (λ _. Unit {0}) (attempt enable_execution engine limits origin binding)
  unfolding attempt
  attempt-AllTracked engine limits origin binding k =
      Keeps-bind _ _ (Keeps-lift _ (Returns-any _)) λ primary _.
        Keeps-bind _ _ (Keeps-lift _ (Returns-any _)) λ pinned _. admit-AllTracked engine _ _ k

  module _ (d : Docker) (never : NeverCrashes d) (lookup : Text → Result ResolutionOutcome) where
    used-AllRemoved :
        (engine : Option (Engine A)) (limits : Option HttpLimits) (origin : Option OriginSpec)
        → KeepsTrack engine
        → (r : Result ValidatedTargetBinding) (s : Sandbox) → IsOpen d never r s
        → AllRemoved
            (proceed
              (λ binding.
                finally_ (attempt enable_execution engine limits origin binding) (destroy d))
              r
              s).1
    used-AllRemoved engine limits origin k (ok binding) s h =
        finally-AllRemoved d never _ s
          ((attempt-AllTracked engine limits origin binding k).state s h.0)
    used-AllRemoved engine limits origin k (err e) s h = h

    -- However a scan ends, whatever the resolver answers and Docker replies short of a crash: a
    -- `docker rm -f` of every container is sent after the last command to start it. It is assumed
    -- that this held before the scan, and that the engine starts no container past the sandbox. That
    -- Docker carries the removal out is not stated.
    pub execute_scan-AllRemoved :
        (engine : Option (Engine A)) (limits : Option HttpLimits) (origin : Option OriginSpec)
        (hostname : Text) (target_id now : Option ℕ) (clock : ℕ) (s : Sandbox)
        → KeepsTrack engine
        → AllRemoved s
        → AllRemoved
            (execute_scan d lookup enable_execution engine limits origin hostname target_id now
              clock s).1
    unfolding execute_scan ◌>>=◌
    execute_scan-AllRemoved engine limits origin hostname target_id now clock s k dead =
        used-AllRemoved engine limits origin k _ _
          (prepare-IsOpen d never lookup hostname target_id now clock s dead)
