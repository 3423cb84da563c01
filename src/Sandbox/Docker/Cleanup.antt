-- ===== src/Sandbox/Docker/Cleanup.antt =====
-- No container is left behind: what the object does not name any more, it has sent the removal of.
pub mod Stable
pub mod Parts
pub mod Whole
pub mod Teardown
pub mod Settled
use sentinel_gpt.Common.{
  ℕ, ◌≡◌, ◌≢◌, ◌⊎◌, inl, inr, refl, Bool, true, false, Option, none, some, List, [], ◌∷◌, nat_eq,
  ◌==◌, if◌then◌else◌, arith,
}
use sentinel_gpt.Common.Text.{Text, text_eq}
use sentinel_gpt.Sandbox.Commands.{
  Command, image_inspect, network_create, run_container, network_connect, inspect_running,
  install_rules, dump_rules, exec, remove_container, remove_network,
}
use sentinel_gpt.Sandbox.Docker.{Sandbox}

abbrev pub starts : Command → Option Text
starts (run_container name _) = some name
starts _ = none

abbrev pub removes : Command → Option Text
removes (remove_container name) = some name
removes _ = none

-- The last command about the container is the one that starts it. (The newest command is first.)
abbrev pub awaits_removal : Text → List Command → Bool
awaits_removal n [] = false
awaits_removal n (c ∷ sent) = elim (starts c) [
  | some m ↦ if m == n then true else awaits_removal n sent
  | none ↦ elim (removes c) [
    | some m ↦ if m == n then false else awaits_removal n sent
    | none ↦ awaits_removal n sent
  ]
]

-- The object still names the container, if it awaits its removal.
abbrev pub IsTracked : Text → Sandbox → Type 0
IsTracked n s =
    awaits_removal n s.sent ≡ true → (s.pending_container ≡ some n) ⊎ (s.container ≡ some n)

-- The object names no container, and this one does not await its removal.
abbrev pub IsIdle : Text → Sandbox → Type 0
IsIdle n s = (s.pending_container ≡ none) × (s.container ≡ none) × (awaits_removal n s.sent ≡ false)

pub awaits_removal-quiet :
    (n : Text) (c : Command) (sent : List Command)
    → starts c ≡ none
    → awaits_removal n (c ∷ sent) ≡ true
    → awaits_removal n sent ≡ true
awaits_removal-quiet n c sent e h = ground arith

pub awaits_removal-removed :
    (n m : Text) (sent : List Command)
    → awaits_removal n (remove_container m ∷ sent) ≡ true
    → (awaits_removal n sent ≡ true) × (m ≢ n)
awaits_removal-removed n m sent h = ground arith

pub IsTracked-of_idle : (n : Text) (s : Sandbox) → IsIdle n s → IsTracked n s
IsTracked-of_idle n s (p, c, dead) live = ground arith
