-- ===== src/Sandbox/Docker/Verified.antt =====
-- What the receipt that `establish` returns shows of the rules.
use sentinel_gpt.Common.{◌≡◌, true, some, List, [], ◌∷◌, ◌++◌}
use sentinel_gpt.Common.Text.{Text}
use sentinel_gpt.Network.Binding.{SandboxEgressPolicy}
use sentinel_gpt.Sandbox.Commands.{Command, dump_rules, iptables, ip6tables}
use sentinel_gpt.Sandbox.Rules.{Problem}
use sentinel_gpt.Sandbox.Rules.Enforced.{Enforces, names_v4, names_v6}
use sentinel_gpt.Sandbox.Docker.{Sandbox, Docker, SandboxVerification}
use sentinel_gpt.Sandbox.Docker.Reads.{Dumped}

-- A receipt of a sandbox: the two dumps are what Docker replied when the rules of its container were
-- asked for, one after the other, and each enforces its part of the policy.
pub record IsReceipt (d : Docker) (policy : SandboxEgressPolicy) (v : SandboxVerification)
    (s : Sandbox) : Type 0 where
  pub name : Text
  pub container : s.container ≡ some name
  pub before : List Command
  pub later : List Command
  pub sent : s.sent ≡ later ++ (dump_rules ip6tables name ∷ dump_rules iptables name ∷ before)
  pub v4_dump : List Text
  pub v4_read : Dumped d before iptables name v4_dump
  pub v6_dump : List Text
  pub v6_read : Dumped d (dump_rules iptables name ∷ before) ip6tables name v6_dump
  pub dump : v.rule_dump ≡ v4_dump ++ v6_dump
  pub v4_enforced :
      Enforces d.unicode.is_space v4_dump (names_v4 d.show_ip policy.allowed_addresses)
  pub v6_enforced :
      Enforces d.unicode.is_space v6_dump (names_v6 d.show_ip policy.allowed_addresses)
  pub addresses : v.allowed_addresses ≡ policy.allowed_addresses

module _ (d : Docker) (policy : SandboxEgressPolicy) (blank : d.unicode.is_space b' ' ≡ true) where
  Clean : List Problem → Sandbox → Unit {0} → Sandbox → Type 0
  Clean problems s u s' = (problems ≡ []) × (s' ≡ s)
