-- ===== src/Sandbox/Docker/Cleanup/Settled.antt =====
-- How `establish` ends when Docker does not crash.
use sentinel_gpt.Common.{◌≡◌, refl, true, false, some, ◌∷◌, arith, inl, inr, nat_eq, Bool-cases}
use sentinel_gpt.Common.Text.{Text}
use sentinel_gpt.Errors.{Error, Result, ok, err}
use sentinel_gpt.Action.{Action, proceed, ◌>>=◌}
use sentinel_gpt.Action.Keeps.{Keeps, Keeps-bind, Keeps-lift, Keeps-refuse_if, Keeps-asks}
use sentinel_gpt.Errors.{Returns-any}
use sentinel_gpt.Network.Binding.{SandboxEgressPolicy}
use sentinel_gpt.Sandbox.Commands.{Command}
use sentinel_gpt.Sandbox.Docker.{
  Sandbox, Docker, SandboxVerification, preflight, docker_or, send, stand_up, or_destroy, establish,
}
use sentinel_gpt.Sandbox.Docker.Cleanup.{awaits_removal, IsTracked}
use sentinel_gpt.Sandbox.Docker.Cleanup.Teardown.{IsCleared, NeverCrashes, Ends-destroy}

-- What a run of `establish` leaves
abbrev pub IsSettled : Result SandboxVerification → Sandbox → Type 0
IsSettled (ok v) s = (s.is_established ≡ true) × (s.verification ≡ some v)
IsSettled (err e) s = IsCleared s

IsCleared-sent :
    (c : Command) (s : Sandbox) → IsCleared s → IsCleared (record s { sent = c ∷ s.sent })
IsCleared-sent c s h = record {
  pending = h.pending;
  container = h.container;
  network = h.network;
  down = h.down;
}

module _ (d : Docker) where
  Clears-docker_or : (e : Error) (c : Command) → Keeps IsCleared (λ _. Unit {0}) (docker_or d e c)
  unfolding docker_or send
  Clears-docker_or e c =
      Keeps-bind {Q = λ _. Unit {0}} _ _
        (record { state = λ s h. IsCleared-sent c s h; value = λ s h. Returns-any _ })
        λ reply _. Keeps-lift _ (Returns-any _)

  Clears-preflight : Keeps IsCleared (λ _. Unit {0}) (preflight d)
  unfolding preflight
  Clears-preflight = Keeps-bind _ _ (Keeps-refuse_if _ _) λ _ _.
      Keeps-bind _ _ (Clears-docker_or _ _)
        λ inspect _. record { state = (Keeps-refuse_if _ _).state; value = λ s h. Returns-any _ }

Settles : Action Sandbox SandboxVerification → Type 0
Settles m = (s : Sandbox) → IsCleared s → IsSettled (m s).0 (m s).1

Settles-bind :
    {A : Type 0} {Q : A → Type 0} (m : Action Sandbox A)
    (f : A → Action Sandbox SandboxVerification)
    → Keeps IsCleared Q m
    → ((a : A) → Settles (f a))
    → Settles (m >>= f)
unfolding ◌>>=◌ Settles
Settles-bind m f k g s h = next (m s).0 (m s).1 (k.state s h)
  where
    next :
        (r : Result _) (s' : Sandbox)
        → IsCleared s'
        → IsSettled (proceed f r s').0 (proceed f r s').1
    next (ok a) s' i = g a s' i
    next (err e) s' i = i

module _ (d : Docker) (never : NeverCrashes d) (policy : SandboxEgressPolicy) where
  or_destroy-settles :
      (r : Result SandboxVerification) (s : Sandbox)
      → IsSettled (or_destroy d policy (r, s)).0 (or_destroy d policy (r, s)).1
  unfolding or_destroy
  or_destroy-settles (ok v) s = (refl, refl)
  or_destroy-settles (err e) s = (Ends-destroy d never (record s { is_established = false })).state

  -- Where Docker does not crash and the object names nothing: `establish` either returns its receipt,
  -- keeps it and is established, or raises and names no container and no network any more.
  pub establish-IsSettled :
      (s : Sandbox) → IsCleared s → IsSettled (establish d policy s).0 (establish d policy s).1
  unfolding establish Settles
  establish-IsSettled = Settles-bind _ _ (Keeps-asks _) λ up.
      Settles-bind _ _ (Keeps-refuse_if _ _) λ _.
        Settles-bind _ _ (Clears-preflight d)
          λ _. λ s h. or_destroy-settles (stand_up d policy s).0 (stand_up d policy s).1

-- Of a tracked object that names nothing, no container awaits its removal.
pub dead_of_cleared :
    (n : Text) (s : Sandbox) → IsCleared s → IsTracked n s → awaits_removal n s.sent ≡ false
dead_of_cleared n s c t = elim (Bool-cases (awaits_removal n s.sent)) [
  | inl live ↦ elim (t live) [
    | inl p ↦ let q = c.pending in ground arith
    | inr p ↦ let q = c.container in ground arith
  ]
  | inr h ↦ h
]
