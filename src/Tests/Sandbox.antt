-- ===== src/Tests/Sandbox.antt =====
-- The sandbox and the executor over a daemon that works, and over one that does not answer.
use sentinel_gpt.Common.{
  ◌≡◌, ◌≢◌, ◌↔◌, All, refl, Bool, true, false, none, some, List, [], ◌∷◌, ◌++◌, ◌==◌, nat_eq,
  if◌then◌else◌, contains, leb, arith,
}
use sentinel_gpt.Common.Text.{Text, codes, join, text_eq, Unicode}
use sentinel_gpt.Errors.{raise_if, Result, ok, err, Returns, returned, sandbox_verification_failed}
use sentinel_gpt.Action.{Action, pure}
use sentinel_gpt.Action.Ends.{Ends}
use sentinel_gpt.Network.IpPolicy.Bounds.{IsAllowed}
use sentinel_gpt.Sandbox.Docker.Cleanup.Parts.{Stays-run}
use sentinel_gpt.Sandbox.Docker.Cleanup.Stable.{IsTracked-IsStable}
use sentinel_gpt.Network.IpAddress.{IpAddress, ip_eq, classes}
use sentinel_gpt.Network.Binding.{create, SandboxEgressPolicy, ScanNetworkContext}
use sentinel_gpt.Network.Resolution.{ResolutionOutcome, resolved, resolve, policy_validate}
use sentinel_gpt.Network.IpPolicy.{evaluate_all, evaluate_ip}
use sentinel_gpt.Sandbox.Commands.{
  Command, Reply, completed, timed_out, crashed, DockerSandboxConfig, argv,
}
use sentinel_gpt.Sandbox.Rules.{accepted_dests, compare_against_policy}
use sentinel_gpt.Sandbox.Rules.Lines.{IsDest}
use sentinel_gpt.Sandbox.Rules.Enforced.{names_v4, names_v6}
use sentinel_gpt.Sandbox.Rules.Tables.{table, compare_against_policy-table_iff}
use sentinel_gpt.Sandbox.Services.{EngineServices}
use sentinel_gpt.Sandbox.Docker.{Sandbox, Docker, ExecResult, destroy, establish, run}
use sentinel_gpt.Sandbox.Docker.Cleanup.{IsTracked}
use sentinel_gpt.Sandbox.Docker.Cleanup.Teardown.{IsCleared, NeverCrashes, Ends-destroy}
use sentinel_gpt.Sandbox.Executor.{Engine, execute_scan}
use sentinel_gpt.Sandbox.Executor.Leaves.{AllRemoved, KeepsTrack, execute_scan-AllRemoved}
use sentinel_gpt.Sandbox.Executor.Gate.{IsRunnable, execute_scan-RunsWell, execute_scan-gate}
use sentinel_gpt.Tests.Samples.{public_ip}

abbrev plain : Unicode
plain = record { lower = λ s. s; upper = λ s. s; is_space = λ c. leb c 32; is_digit = λ c. false }

-- `splitlines` on the line feed
abbrev lines : Text → List Text
lines [] = []
lines (c ∷ s) = elim (lines s) [
  | [] ↦ if c == 10 then [] ∷ [] else (c ∷ []) ∷ []
  | line ∷ rest ↦ if c == 10 then [] ∷ line ∷ rest else (c ∷ line) ∷ rest
]

abbrev v4_rules : Text
v4_rules =
    codes
      "-P OUTPUT DROP\n-A OUTPUT -m state --state RELATED,ESTABLISHED -j ACCEPT\n-A OUTPUT -d 93.184.215.14/32 -j ACCEPT"

abbrev done : Text → Reply
done out = completed (record { returncode = 0; stdout = out })

-- Answers by what is asked for
abbrev answer : List Text → Reply
answer args =
    if contains args (codes "{{.State.Running}}")
    then done (codes "true")
    else if contains args (codes "iptables")
    then done v4_rules
    else if contains args (codes "ip6tables")
    then done (codes "-P OUTPUT DROP")
    else done []

abbrev config : DockerSandboxConfig
config = record {
  image = codes "sentinelgpt/scanner:1";
  docker_bin = codes "docker";
  workload_uid = none;
  extra_networks = [];
  check_docker_binary = true;
  has_binary = true;
}

abbrev working : Docker
working = record {
  config = config;
  unicode = plain;
  splitlines = lines;
  show_ip = λ _. codes "93.184.215.14";
  polls = 2;
  fresh_name = λ n. codes "sgpt" ++ (n ∷ []);
  runner = λ sent args. answer args;
}

abbrev silent_daemon : Docker
silent_daemon = record working { runner = λ sent args. timed_out }

abbrev policy : SandboxEgressPolicy
policy = record { hostname = codes "a.example"; allowed_addresses = public_ip ∷ [] }

abbrev idle : Sandbox
idle = record {
  network = none;
  container = none;
  pending_container = none;
  is_established = false;
  verification = none;
  sent = [];
  supply = 7;
}

abbrev is_ok : {A : Type 0} → Result A → Bool
is_ok (ok _) = true
is_ok (err _) = false

established_test : is_ok (establish working policy idle).0 ≡ true
unfolding establish sentinel_gpt.Action.◌>>=◌ argv nat_eq join accepted_dests
established_test = refl

-- A rule that accepts another address is refused, and the container is removed.
wide_rules :
    (establish
      (record working {
        runner = λ sent args.
            if contains args (codes "ip6tables")
            then done (codes "-P OUTPUT ACCEPT")
            else answer args;
      })
      policy
      idle).0
    ≡ err sandbox_verification_failed
unfolding establish sentinel_gpt.Action.◌>>=◌ argv nat_eq join accepted_dests
wide_rules = refl

answer-NeverCrashes : (sent : List Command) (args : List Text) → answer args ≢ crashed
answer-NeverCrashes sent args e = ground arith

working-NeverCrashes : NeverCrashes working
working-NeverCrashes = answer-NeverCrashes

silent-NeverCrashes : NeverCrashes silent_daemon
silent-NeverCrashes sent args e = cc

idle-IsCleared : IsCleared idle
idle-IsCleared = record { pending = refl; container = refl; network = refl; down = refl }

-- The resolver answers with the one public address.
abbrev lookup : Text → Result ResolutionOutcome
lookup name = ok (resolved name (public_ip ∷ []))

-- An engine that sends one command through the sandbox
abbrev fetching : Engine ExecResult
fetching context services = run working (codes "curl" ∷ [])

fetching_tracked : KeepsTrack (some fetching)
fetching_tracked context services s h n =
    (Stays-run working (IsTracked n) (IsTracked-IsStable n) _).state s (h n)

fetched_test :
    is_ok
      (execute_scan working lookup true
        (some fetching)
        none
        none
        (codes "a.example")
        none
        none
        5
        idle).0
    ≡ true
unfolding execute_scan run sentinel_gpt.Action.◌>>=◌ argv nat_eq join accepted_dests resolve
    evaluate_all evaluate_ip ip_eq classes create sentinel_gpt.Errors.◌>>=◌ policy_validate raise_if
fetched_test = refl

Ends-destroy_example :
    Ends (establish working policy idle).1 (λ _ s'. IsCleared s') (destroy working)
Ends-destroy_example = Ends-destroy working working-NeverCrashes (establish working policy idle).1

blank : plain.is_space b' ' ≡ true
blank = refl

abbrev one_dest : List Text
one_dest = codes "93.184.215.14/32" ∷ []

-- The rules that Docker answers with are such a table.
table_test : lines v4_rules ≡ table one_dest
unfolding nat_eq
table_test = refl

one_dest-IsDest : All (IsDest plain.is_space) one_dest
unfolding text_eq
one_dest-IsDest = (record { full = refl; solid = refl }, tt)

compare_against_policy-table_iff_example :
    (compare_against_policy plain.is_space working.show_ip policy (table one_dest) (table []) ≡ [])
    ↔ ((dest : Text)
        → contains one_dest dest ≡ names_v4 working.show_ip policy.allowed_addresses dest)
      × ((dest : Text) → contains [] dest ≡ names_v6 working.show_ip policy.allowed_addresses dest)
compare_against_policy-table_iff_example =
    compare_against_policy-table_iff plain.is_space blank working.show_ip policy one_dest []
      one_dest-IsDest tt

execute_scan-AllRemoved_example :
    AllRemoved
      (execute_scan working lookup true
        (some fetching)
        none
        none
        (codes "a.example")
        none
        none
        5
        idle).1
execute_scan-AllRemoved_example =
    execute_scan-AllRemoved true working working-NeverCrashes lookup (some fetching) none none
      (codes "a.example") none none 5 idle fetching_tracked (λ n. refl)

-- An engine that returns the addresses of its context
abbrev listing : Engine (List IpAddress)
listing context services = pure context.binding.addresses

listing_well :
    (context : ScanNetworkContext) (services : EngineServices) (s : Sandbox)
    → IsRunnable context s
    → Returns (All IsAllowed) (listing context services s).0
listing_well context services s h = returned h.0.binding_validated

execute_scan-RunsWell_example :
    Returns
      (All IsAllowed)
      (execute_scan working lookup true
        (some listing)
        none
        none
        (codes "a.example")
        none
        none
        5
        idle).0
execute_scan-RunsWell_example =
    execute_scan-RunsWell (All IsAllowed) true working lookup (some listing) none none
      (codes "a.example") none none 5 idle listing_well

execute_scan-gate_example :
    (execute_scan working lookup false
        (some fetching)
        none
        none
        (codes "a.example")
        none
        none
        5
        idle
      ≡ execute_scan working lookup false none none none (codes "a.example") none none 5 idle)
    × Returns
        (λ _. ⊥)
        (execute_scan working lookup false
          (some fetching)
          none
          none
          (codes "a.example")
          none
          none
          5
          idle).0
execute_scan-gate_example =
    execute_scan-gate working lookup (some fetching) none none (codes "a.example") none none 5 idle
