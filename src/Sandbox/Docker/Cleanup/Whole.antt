-- ===== src/Sandbox/Docker/Cleanup/Whole.antt =====
-- Establishing, whatever Docker replies.
use sentinel_gpt.Common.{Bool, true, false, none, some, ◌∷◌, arith, not, nat_eq, ◌==◌}
use sentinel_gpt.Common.Text.{Text}
use sentinel_gpt.Errors.{Error, Result, ok, err, sandbox_setup_failed}
use sentinel_gpt.Action.{Action, proceed, raise, modify, ◌>>=◌, ◌>>◌}
use sentinel_gpt.Action.Keeps.{Keeps, Keeps-bind, Keeps-pure}
use sentinel_gpt.Network.Binding.{SandboxEgressPolicy}
use sentinel_gpt.Sandbox.Commands.{CompletedProcess, run_container}
use sentinel_gpt.Sandbox.Docker.{
  Sandbox, Docker, SandboxVerification, create_container, start_container, stand_up, or_destroy,
  establish, destroy, destroy_if, docker_or, send, replied,
}
use sentinel_gpt.Sandbox.Docker.Cleanup.{IsTracked, IsIdle, IsTracked-of_idle}
use sentinel_gpt.Sandbox.Docker.Cleanup.Stable.{IsTracked-IsStable, IsIdle-IsStable}
use sentinel_gpt.Sandbox.Docker.Cleanup.Parts.{
  Stays-preflight, Stays-create_network, Stays-destroy, stays, Stays-unique_name,
  Stays-join_networks, Stays-await_running, Stays-install_egress_rules, Stays-verify,
  Stays-verify_privilege_drop, Stays-refuse,
}

module _ (d : Docker) (policy : SandboxEgressPolicy) (n : Text) where
  -- The container that is being started, as the object knows it
  started : Text → Text → Sandbox → Sandbox
  started name network s = record s {
    pending_container = some name;
    sent = run_container name network ∷ s.sent;
  }

  started-IsTracked :
      (name network : Text) (s : Sandbox) → IsIdle n s → IsTracked n (started name network s)
  unfolding started
  started-IsTracked name network s (p, c, dead) live = ground arith

  named-IsTracked :
      (name network : Text) (s : Sandbox)
      → IsIdle n s
      → IsTracked n
          (record (started name network s) { pending_container = none; container = some name })
  unfolding started
  named-IsTracked name network s (p, c, dead) live = ground arith

  -- A failure after the clean-up leaves what the clean-up left.
  raised_state :
      {A B : Type 0} (r : Result A) (s : Sandbox) (e : Error) (rest : Action Sandbox B)
      → IsTracked n s
      → IsTracked n
          (proceed
            (λ _. rest)
            (proceed {B = Unit {0}} (λ _. raise e) r s).0
            (proceed {B = Unit {0}} (λ _. raise e) r s).1).1
  raised_state (ok _) s e rest h = h
  raised_state (err _) s e rest h = h

  tested_state :
      (refused : Bool) (name network : Text) (s : Sandbox)
      → IsIdle n s
      → IsTracked n
          ((destroy_if d refused sandbox_setup_failed
              >> modify (λ s'. record s' { pending_container = none; container = some name }))
            (started name network s)).1
  unfolding destroy_if ◌>>=◌
  tested_state true name network s idle =
      raised_state (destroy d (started name network s)).0 _ _ _ (
        (Stays-destroy d (IsTracked n) (IsTracked-IsStable n)).state (started name network s)
          (started-IsTracked name network s idle))
  tested_state false name network s idle = named-IsTracked name network s idle

  answered_state :
      (r : Result CompletedProcess) (name network : Text) (s : Sandbox)
      → IsIdle n s
      → IsTracked n
          (proceed
            (λ result.
              destroy_if d (not (result.returncode == 0)) sandbox_setup_failed
              >> modify (λ s'. record s' { pending_container = none; container = some name }))
            r
            (started name network s)).1
  answered_state (ok result) name network s idle = tested_state _ name network s idle
  answered_state (err e) name network s idle = started-IsTracked name network s idle

  start_state :
      (name network : Text) (s : Sandbox)
      → IsIdle n s
      → IsTracked n (start_container d name network s).1
  unfolding start_container docker_or send started ◌>>=◌
  start_state name network s idle =
      answered_state (replied sandbox_setup_failed (d.runner s.sent _)) name network s idle

  -- From an object that names no container to one that names what it has started
  Goes : {A : Type 0} → Action Sandbox A → Type 0
  Goes m = (s : Sandbox) → IsIdle n s → IsTracked n (m s).1

  Goes-bind :
      {A B : Type 0} (m : Action Sandbox A) (f : A → Action Sandbox B)
      → Keeps (IsIdle n) (λ _. Unit {0}) m
      → ((a : A) → Goes (f a))
      → Goes (m >>= f)
  unfolding ◌>>=◌ Goes
  Goes-bind m f k g s idle = next (m s).0 (m s).1 (k.state s idle)
    where
      next : (r : Result _) (s' : Sandbox) → IsIdle n s' → IsTracked n (proceed f r s').1
      next (ok a) s' i = g a s' i
      next (err e) s' i = IsTracked-of_idle n s' i

  Goes-then :
      {A B : Type 0} (m : Action Sandbox A) (f : A → Action Sandbox B)
      → Goes m
      → ((a : A) → Keeps (IsTracked n) (λ _. Unit {0}) (f a))
      → Goes (m >>= f)
  unfolding ◌>>=◌ Goes
  Goes-then m f g k s idle = next (m s).0 (m s).1 (g s idle)
    where
      next : (r : Result _) (s' : Sandbox) → IsTracked n s' → IsTracked n (proceed f r s').1
      next (ok a) s' h = (k a).state s' h
      next (err e) s' h = h

  Goes-create_container : Goes (create_container d)
  unfolding create_container Goes
  Goes-create_container =
      Goes-bind _ _ (stays d (IsIdle n) (IsIdle-IsStable n) _ λ s h. h) λ network.
        Goes-bind _ _ (Stays-unique_name d (IsIdle n) (IsIdle-IsStable n)) λ name.
          Goes-then _ _ (start_state name network) λ _.
            Keeps-bind _ _ (Stays-join_networks d (IsTracked n) (IsTracked-IsStable n) name _)
              λ _ _. Stays-await_running d (IsTracked n) (IsTracked-IsStable n) d.polls name

  Goes-stand_up : Goes (stand_up d policy)
  unfolding stand_up Goes
  Goes-stand_up = Goes-bind _ _ (Stays-create_network d (IsIdle n) (IsIdle-IsStable n)) λ _.
      Goes-then _ _ Goes-create_container λ _.
        Keeps-bind _ _ (Stays-install_egress_rules d (IsTracked n) (IsTracked-IsStable n) policy)
          λ _ _.
            Keeps-bind _ _ (Stays-verify d (IsTracked n) (IsTracked-IsStable n) policy)
              λ verification _.
                Keeps-bind _ _
                  (Stays-verify_privilege_drop d (IsTracked n) (IsTracked-IsStable n) _)
                  λ _ _. Keeps-pure verification tt

  or_destroy_state :
      (r : Result SandboxVerification) (s : Sandbox)
      → IsTracked n s
      → IsTracked n (or_destroy d policy (r, s)).1
  unfolding or_destroy
  or_destroy_state (ok verification) s h = h
  or_destroy_state (err e) s h =
      (Stays-destroy d (IsTracked n) (IsTracked-IsStable n)).state
        (record s { is_established = false }) h

  pub Goes-establish : (s : Sandbox) → IsIdle n s → IsTracked n (establish d policy s).1
  unfolding establish Goes
  Goes-establish = Goes-bind _ _ (stays d (IsIdle n) (IsIdle-IsStable n) _ λ s h. h) λ up.
      Goes-bind _ _ (Stays-refuse d (IsIdle n) (IsIdle-IsStable n) _ _) λ _.
        Goes-bind _ _ (Stays-preflight d (IsIdle n) (IsIdle-IsStable n)) λ _. λ s idle.
          or_destroy_state (stand_up d policy s).0 (stand_up d policy s).1 (Goes-stand_up s idle)
